-- ===== src/Json/Reads.antt =====
-- What items() of nlohmann::json goes through, and further conversions and reads.
use libmediasouphandler.Base.{
  ℕ, suc, ℤ, String, Bool, true, false, none, some, List, [], ◌∷◌, if◌then◌else◌, ◌≡◌, refl,
}
use libmediasouphandler.Base.Int.{pos, to_unsigned, to_signed}
use libmediasouphandler.Base.Text.{codes, codes_lt, to_string}
use libmediasouphandler.Base.Result.{Result, ok, err, json_error, undefined, ◌>>=◌}
use libmediasouphandler.Json.Data.{
  Json, null, boolean, number_integer, number_float, arr, obj, Items, nil, cons, Fields, end, field,
  to_list,
}
use libmediasouphandler.Json.Object.{get}
use libmediasouphandler.Json.Access.{get_integer}

-- A member put in its place among members ordered by their keys, as a std::map has them.
abbrev place : String → Json → List (String × Json) → List (String × Json)
place k v [] = (k, v) ∷ []
place k v ((j, w) ∷ rest) =
    if codes_lt (codes k) (codes j) then (k, v) ∷ (j, w) ∷ rest else (j, w) ∷ place k v rest

abbrev ordered : Fields → List (String × Json)
ordered end = []
ordered (field k v fs) = place k v (ordered fs)

abbrev numbered : ℕ → Items → List (String × Json)
numbered n nil = []
numbered n (cons x xs) = (to_string n, x) ∷ numbered (suc n) xs

-- for (auto& item : j.items()): the members in the order of their keys.
unfoldable pub items : Json → List (String × Json)
unfolding to_string
items null = []
items (arr xs) = numbered 0 xs
items (obj fs) = ordered fs
items j = ("", j) ∷ []

-- A number that the source writes as a literal of type int.
abbrev pub int : ℕ → Json
int n = number_integer (pos n)

abbrev pub is_number_float : Json → Bool
is_number_float (number_float a k) = true
is_number_float _ = false

-- get<bool>().
abbrev pub get_bool : Json → Result Bool
get_bool (boolean b) = ok b
get_bool _ = err (json_error 302)

abbrev converted {ℓ} : {A : Type ℓ} → (ℤ → A) → Result ℤ → Result A
converted f r = do z ← r; ok (f z)

-- get<uint32_t>() and get<int64_t>().
abbrev pub get_uint32 : Json → Result ℕ
get_uint32 j = converted (to_unsigned 32) (get_integer j)

abbrev pub get_int64 : Json → Result ℤ
get_int64 j = converted (to_signed 63) (get_integer j)

-- empty().
abbrev pub json_empty : Json → Bool
json_empty null = true
json_empty (arr nil) = true
json_empty (obj end) = true
json_empty _ = false

abbrev first_or_undefined : List Json → Result Json
first_or_undefined [] = err undefined
first_or_undefined (x ∷ xs) = ok x

-- operator[](0) on a constant.
abbrev pub const_first : Json → Result Json
const_first (arr xs) = first_or_undefined (to_list xs)
const_first _ = err (json_error 305)

-- at(key).
abbrev pub get_at : String → Json → Result Json
get_at key (obj fs) = elim (get key fs) [ none ↦ err (json_error 403) | some v ↦ ok v ]
get_at key _ = err (json_error 304)

items_run :
    items (obj (field "b" null (field "a" (boolean true) end)))
    ≡ ("a", boolean true) ∷ ("b", null) ∷ []
unfolding items
items_run = refl
