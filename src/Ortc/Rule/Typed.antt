-- ===== src/Ortc/Rule/Typed.antt =====
-- What is known of the members of an object after a run of rules.
use libmediasouphandler.Base.{
  String, Bool, true, Option, none, some, List, [], ◌∷◌, ◌≡◌, refl, subst, ◌⊎◌, inl, inr,
  Bool-cases,
}
use libmediasouphandler.Base.Result.{
  Result, Ensures, Ensures-ok, Ensures-err, Ensures-bind, Ensures-guard, Ensures-mono,
}
use libmediasouphandler.Json.{
  Json, null, boolean, number_integer, number_unsigned, number_float, str, arr, obj, Fields, get,
  array, to_list, to_list-of_list, of_list-to_list, traverse, traverse-All, All, is_array,
}
use libmediasouphandler.Ortc.Rule.{
  Rule, run, distinct, mandatory, optional, fill, default_to, then_step, each,
}
use libmediasouphandler.Ortc.Rule.Laws.{Stepped, run-Stepped}

-- A member that is there and passes a test, and one that may be absent.
abbrev pub Has : (Json → Bool) → Option Json → Type 0
Has p o = (v : Json) × (o ≡ some v) × (p v ≡ true)

abbrev pub MayHave : (Json → Bool) → Option Json → Type 0
MayHave p o = (o ≡ none) ⊎ Has p o

-- A member that is an array with elements of a kind.
abbrev pub HasAll : (Json → Type 0) → Option Json → Type 0
HasAll P o = (xs : List Json) × (o ≡ some (array xs)) × All P xs

abbrev pub Gives : (Option Json → Result (Option Json)) → (Option Json → Type 0) → Type 0
Gives s Q = (o : Option Json) → Ensures Q (s o)

-- Keys with what is to be known of their members.
abbrev pub Members : List (String × (Option Json → Type 0)) → Fields → Type 0
Members [] fs = Unit
Members ((key, Q) ∷ qs) fs = Q (get key fs) × Members qs fs

abbrev pub keys_of : List Rule → List String
keys_of [] = []
keys_of (r ∷ rs) = r.key ∷ keys_of rs

abbrev pub member_keys : List (String × (Option Json → Type 0)) → List String
member_keys [] = []
member_keys ((key, Q) ∷ qs) = key ∷ member_keys qs

-- Rule by rule, what its step gives.
abbrev pub GivesAll : List Rule → List (String × (Option Json → Type 0)) → Type 0
GivesAll (r ∷ rs) ((key, Q) ∷ qs) = Gives r.step Q × GivesAll rs qs
GivesAll _ _ = Unit

members :
    (rs : List Rule) (qs : List (String × (Option Json → Type 0))) (fs fs' : Fields)
    → keys_of rs ≡ member_keys qs
    → GivesAll rs qs
    → Stepped rs fs fs'
    → Members qs fs'
members [] [] fs fs' k g s = tt
members [] ((key, Q) ∷ qs) fs fs' k g s = cc
members (r ∷ rs) [] fs fs' k g s = cc
members (r ∷ rs) ((key, Q) ∷ qs) fs fs' k (g, gs) (e, s) =
    let same : r.key ≡ key = cc in
    let others : keys_of rs ≡ member_keys qs = cc in
    (
      subst (λ key'. Q (get key' fs')) same ((g (get r.key fs)).returns _ e),
      members rs qs fs fs' others gs s,
    )

pub run-Members :
    (rs : List Rule) (qs : List (String × (Option Json → Type 0))) (fs : Fields)
    → distinct rs ≡ true
    → keys_of rs ≡ member_keys qs
    → GivesAll rs qs
    → Ensures (Members qs) (run rs fs)
run-Members rs qs fs d k g =
    Ensures-mono (run rs fs) (run-Stepped rs fs d) λ fs' s. members rs qs fs fs' k g s

pub mandatory-Has : (p : Json → Bool) (message : String) → Gives (mandatory p message) (Has p)
unfolding mandatory
mandatory-Has p message none = Ensures-err _
mandatory-Has p message (some v) = Ensures-guard (p v) _ _ λ e. Ensures-ok (v, refl, e)

pub optional-MayHave : (p : Json → Bool) (message : String) → Gives (optional p message) (MayHave p)
unfolding optional
optional-MayHave p message none = Ensures-ok (inl refl)
optional-MayHave p message (some v) = Ensures-guard (p v) _ _ λ e. Ensures-ok (inr (v, refl, e))

pub fill-Has :
    (p : Json → Bool) (message : String) (d : Json) → p d ≡ true → Gives (fill p message d) (Has p)
unfolding fill
fill-Has p message d h none = Ensures-ok (d, refl, h)
fill-Has p message d h (some v) = Ensures-guard (p v) _ _ λ e. Ensures-ok (v, refl, e)

pub default_to-Has : (p : Json → Bool) (d : Json) → p d ≡ true → Gives (default_to p d) (Has p)
unfolding default_to
default_to-Has p d h none = Ensures-ok (d, refl, h)
default_to-Has p d h (some v) = elim (Bool-cases (p v)) [
  | inl e ↦ rw e (Ensures-ok (v, refl, e))
  | inr e ↦ rw e (Ensures-ok (d, refl, h))
]

is_array-eq : (v : Json) → is_array v ≡ true → (xs : List Json) × (v ≡ array xs)
is_array-eq (arr xs) t = (to_list xs, rw (of_list-to_list xs) refl)
is_array-eq null t = cc
is_array-eq (boolean b) t = cc
is_array-eq (number_integer z) t = cc
is_array-eq (number_unsigned n) t = cc
is_array-eq (number_float z k) t = cc
is_array-eq (str s) t = cc
is_array-eq (obj fs) t = cc

-- The elements of a member that a step before has made an array.
pub then_each-HasAll :
    (s : Option Json → Result (Option Json)) (f : Json → Result Json) (P : Json → Type 0)
    → Gives s (Has is_array)
    → ((j : Json) → Ensures P (f j))
    → Gives (then_step s (each f)) (HasAll P)
unfolding then_step each
then_each-HasAll s f P g h o = Ensures-bind (s o) (each f) (g o) λ o' (v, e, t).
    let (xs, q) = is_array-eq v t in
    rw (e, q, to_list-of_list xs)
      (Ensures-bind (traverse f xs) _ (traverse-All P f h xs) λ ys all. Ensures-ok (ys, refl, all))
