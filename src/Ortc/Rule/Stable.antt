-- ===== src/Ortc/Rule/Stable.antt =====
-- Validators whose second run changes nothing, by the steps of their rules.
use libmediasouphandler.Base.{
  String, Bool, true, Option, none, some, List, [], ◌∷◌, ◌≡◌, refl, Bool-cases, inl, inr,
}
use libmediasouphandler.Base.Result.{
  Result, ok, Ensures, Ensures-ok, Ensures-err, Ensures-bind, Ensures-bind_eq, Ensures-guard,
}
use libmediasouphandler.Json.{
  Json, arr, obj, Fields, get, to_list, array, to_list-of_list, traverse, traverse_stable, All,
  of_list-to_list, is_object,
}
use libmediasouphandler.Ortc.Rule.{
  Rule, run, validate, distinct, check, mandatory, optional, fill, default_to, then_step, each,
  within,
}
use libmediasouphandler.Ortc.Rule.Laws.{Stepped, run-Stepped, run_fixed}

-- A step that has no more to do the second time.
abbrev pub IsStable : (Option Json → Result (Option Json)) → Type 0
IsStable s = (o : Option Json) → Ensures (λ o'. s o' ≡ ok o') (s o)

settled :
    (rs : List Rule) (fs fs' : Fields)
    → All (λ r. IsStable r.step) rs
    → Stepped rs fs fs'
    → All (λ r. r.step (get r.key fs') ≡ ok (get r.key fs')) rs
settled [] fs fs' s h = tt
settled (r ∷ rs) fs fs' s h = ((s.0 (get r.key fs)).returns _ h.0, settled rs fs fs' s.1 h.1)

-- A second run of stable rules changes nothing.
pub run_stable :
    (rs : List Rule) (fs : Fields)
    → distinct rs ≡ true
    → All (λ r. IsStable r.step) rs
    → Ensures (λ fs'. run rs fs' ≡ ok fs') (run rs fs)
run_stable rs fs d s = record {
  returns = λ fs' e. run_fixed rs fs' (settled rs fs fs' s ((run-Stepped rs fs d).returns fs' e));
}

-- A validator that is stable as a whole.
abbrev pub IsIdempotent : (Json → Result Json) → Type 0
IsIdempotent f = (j : Json) → Ensures (λ j'. f j' ≡ ok j') (f j)

pub validate_stable :
    (message : String) (rs : List Rule)
    → distinct rs ≡ true
    → All (λ r. IsStable r.step) rs
    → IsIdempotent (validate message rs)
unfolding validate
validate_stable message rs d s (obj fs) =
    Ensures-bind (run rs fs) _ (run_stable rs fs d s) λ fs' e. Ensures-ok (rw e)
validate_stable message rs d s j = Ensures-err _

check_stable :
    (p : Json → Bool) (message : String) (v : Json)
    → Ensures (λ o. (o ≡ some v) × (p v ≡ true)) (check p message v)
check_stable p message v = Ensures-guard (p v) _ _ λ e. Ensures-ok (refl, e)

pub mandatory-IsStable : (p : Json → Bool) (message : String) → IsStable (mandatory p message)
unfolding mandatory
mandatory-IsStable p message none = Ensures-err _
mandatory-IsStable p message (some v) = Ensures-guard (p v) _ _ λ e. Ensures-ok (rw e)

pub optional-IsStable : (p : Json → Bool) (message : String) → IsStable (optional p message)
unfolding optional
optional-IsStable p message none = Ensures-ok refl
optional-IsStable p message (some v) = Ensures-guard (p v) _ _ λ e. Ensures-ok (rw e)

pub fill-IsStable :
    (p : Json → Bool) (message : String) (d : Json) → p d ≡ true → IsStable (fill p message d)
unfolding fill
fill-IsStable p message d h none = Ensures-ok (rw h)
fill-IsStable p message d h (some v) = Ensures-guard (p v) _ _ λ e. Ensures-ok (rw e)

pub default_to-IsStable : (p : Json → Bool) (d : Json) → p d ≡ true → IsStable (default_to p d)
unfolding default_to
default_to-IsStable p d h none = Ensures-ok (rw h)
default_to-IsStable p d h (some v) = elim (Bool-cases (p v)) [
  | inl e ↦ rw e (Ensures-ok (rw e))
  | inr e ↦ rw e (Ensures-ok (rw h))
]

pub each-IsStable : (f : Json → Result Json) → IsIdempotent f → IsStable (each f)
unfolding each
each-IsStable f h none = Ensures-ok refl
each-IsStable f h (some (arr xs)) =
    Ensures-bind (traverse f (to_list xs)) _ (traverse_stable f h (to_list xs))
      λ ys e. Ensures-ok (rw (to_list-of_list ys, e))
each-IsStable f h (some j) = Ensures-ok refl

pub within-IsStable : (f : Json → Result Json) → IsIdempotent f → IsStable (within f)
unfolding within
within-IsStable f h none = Ensures-ok refl
within-IsStable f h (some v) = Ensures-bind (f v) _ (h v) λ w e. Ensures-ok (rw e)

-- Two stable steps make a stable one, if the second keeps what the first accepts.
pub then_step-IsStable :
    (s t : Option Json → Result (Option Json))
    → IsStable s
    → IsStable t
    → ((o : Option Json) → s o ≡ ok o → Ensures (λ o'. s o' ≡ ok o') (t o))
    → IsStable (then_step s t)
unfolding then_step
then_step-IsStable s t hs ht keep o =
    Ensures-bind (s o) _ (hs o)
      λ o₁ e₁. record { returns = λ o₂ e₂. rw ((keep o₁ e₁).returns o₂ e₂) ((ht o₁).returns o₂ e₂) }

-- `each` keeps what a step accepts, if the step accepts what the loop makes of the arrays that it
-- accepts.
pub each_keeps :
    (s : Option Json → Result (Option Json)) (f : Json → Result Json)
    → ((xs ys : List Json)
        → traverse f xs ≡ ok ys
        → s (some (array xs)) ≡ ok (some (array xs))
        → s (some (array ys)) ≡ ok (some (array ys)))
    → (o : Option Json) → s o ≡ ok o
    → Ensures (λ o'. s o' ≡ ok o') (each f o)
unfolding each
each_keeps s f h none e = Ensures-ok e
each_keeps s f h (some (arr xs)) e =
    Ensures-bind_eq (traverse f (to_list xs)) _
      λ ys t. Ensures-ok (h (to_list xs) ys t (rw of_list-to_list e))
each_keeps s f h (some j) e = Ensures-ok e

-- A validator by rules returns an object.
pub validate-is_object :
    (message : String) (rs : List Rule) (j : Json)
    → Ensures (λ j'. is_object j' ≡ true) (validate message rs j)
unfolding validate
validate-is_object message rs (obj fs) = Ensures-bind_eq (run rs fs) _ λ fs' e. Ensures-ok refl
validate-is_object message rs j = Ensures-err _

pub within_keeps :
    (s : Option Json → Result (Option Json)) (f : Json → Result Json)
    → ((v : Json) → Ensures (λ w. s (some w) ≡ ok (some w)) (f v))
    → (o : Option Json) → s o ≡ ok o
    → Ensures (λ o'. s o' ≡ ok o') (within f o)
unfolding within
within_keeps s f h none e = Ensures-ok e
within_keeps s f h (some v) e = Ensures-bind (f v) _ (h v) λ w e'. Ensures-ok e'

-- A proof for a list of rules: the first rule's, and those of the rest.
infixr 2 ◌&◌
abbrev pub ◌&◌ {ℓ κ} : {A : Type ℓ} {B : Type κ} → A → B → A × B
a & b = (a, b)
