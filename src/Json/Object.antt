-- ===== src/Json/Object.antt =====
-- Objects: find, operator[] as a write, and erase, over the list of members.
use libmediasouphandler.Base.{
  String, Bool, true, false, Option, none, some, List, [], ◌∷◌, ◌≡◌, refl, arith, ◌==◌, eq_iff,
  if◌then◌else◌,
}
use libmediasouphandler.Json.Data.{Json, Fields, end, field, obj}

unfoldable pub get : String → Fields → Option Json
get k end = none
get k (field j v fs) = if j == k then some v else get k fs

unfoldable pub put : String → Json → Fields → Fields
put k v end = field k v end
put k v (field j w fs) = if j == k then field k v fs else field j w (put k v fs)

unfoldable pub erase : String → Fields → Fields
erase k end = end
erase k (field j v fs) = let rest = erase k fs in if j == k then rest else field j v rest

-- A member given a value, or taken away.
unfoldable pub assign : String → Option Json → Fields → Fields
assign k none fs = erase k fs
assign k (some v) fs = put k v fs

abbrev has_value : Option Json → Bool
has_value none = false
has_value (some v) = true

unfoldable pub contains : String → Fields → Bool
unfolding get
contains k fs = has_value (get k fs)

abbrev pub members : List (String × Json) → Fields
members [] = end
members ((k, v) ∷ rest) = field k v (members rest)

-- The object that a list of members in braces builds.
abbrev pub object : List (String × Json) → Json
object ms = obj (members ms)

pub get-put :
    (k j : String) (v : Json) (fs : Fields)
    → get j (put k v fs) ≡ (if k == j then some v else get j fs)
unfolding get put
get-put k j v end = refl
get-put k j v (field i w fs) = ground (arith, eq_iff k j, eq_iff i k, eq_iff i j, get-put k j v fs)

pub get-erase :
    (k j : String) (fs : Fields) → get j (erase k fs) ≡ (if k == j then none else get j fs)
unfolding get erase
get-erase k j end = ground arith
get-erase k j (field i w fs) = ground (arith, eq_iff k j, eq_iff i k, eq_iff i j, get-erase k j fs)

pub get-assign :
    (k j : String) (o : Option Json) (fs : Fields)
    → get j (assign k o fs) ≡ (if k == j then o else get j fs)
unfolding assign
get-assign k j none fs = get-erase k j fs
get-assign k j (some v) fs = get-put k j v fs

erase_absent : (k : String) (fs : Fields) → get k fs ≡ none → erase k fs ≡ fs
unfolding get erase
erase_absent k end h = refl
erase_absent k (field j v fs) h = ground (arith, erase_absent k fs)

put_present : (k : String) (v : Json) (fs : Fields) → get k fs ≡ some v → put k v fs ≡ fs
unfolding get put
put_present k v end h = cc
put_present k v (field j w fs) h = ground (arith, eq_iff j k, put_present k v fs)

-- Giving a member the value that it has changes nothing.
pub assign-get : (k : String) (o : Option Json) (fs : Fields) → get k fs ≡ o → assign k o fs ≡ fs
unfolding assign
assign-get k none fs h = erase_absent k fs h
assign-get k (some v) fs h = put_present k v fs h
