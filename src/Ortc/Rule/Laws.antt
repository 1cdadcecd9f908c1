-- ===== src/Ortc/Rule/Laws.antt =====
-- What a list of rules does to an object, whatever the rules: it acts on each member on its own.
use libmediasouphandler.Base.{
  String, Bool, true, false, not, ◌&&◌, Option, List, [], ◌∷◌, ◌≡◌, refl, sym, ap, ◌∙◌, ◌==◌,
  eq_refl, eq_iff, arith,
}
use libmediasouphandler.Base.Result.{ok, Ensures, Ensures-ok, Ensures-bind_eq}
use libmediasouphandler.Json.{Json, Fields, get, assign, get-assign, assign-get, All}
use libmediasouphandler.Ortc.Rule.{Rule, run, fresh, distinct}

and_left : (a b : Bool) → (a && b) ≡ true → a ≡ true
and_left true b h = refl
and_left false b h = cc

and_right : (a b : Bool) → (a && b) ≡ true → b ≡ true
and_right true b h = h
and_right false b h = cc

not-true : (a : Bool) → not a ≡ true → a ≡ false
not-true true h = cc
not-true false h = refl

get-assign_other :
    (k j : String) (o : Option Json) (fs : Fields)
    → not (k == j) ≡ true
    → get j (assign k o fs) ≡ get j fs
get-assign_other k j o fs h = rw (get-assign k j o fs, not-true (k == j) h)

pub get-assign_self : (k : String) (o : Option Json) (fs : Fields) → get k (assign k o fs) ≡ o
get-assign_self k o fs = rw (get-assign k k o fs, eq_refl k)

-- Members that no rule is about are left alone.
pub get-run :
    (k : String) (rs : List Rule) (fs : Fields)
    → fresh k rs ≡ true
    → Ensures (λ fs'. get k fs' ≡ get k fs) (run rs fs)
unfolding run
get-run k [] fs h = Ensures-ok refl
get-run k (r ∷ rs) fs h = Ensures-bind_eq (r.step (get r.key fs)) _ λ o e. record {
  returns = λ fs' e'.
      (get-run k rs (assign r.key o fs) (and_right (not (r.key == k)) _ h)).returns fs' e'
      ∙ get-assign_other r.key k o fs (and_left _ (fresh k rs) h);
}

-- What a run makes of each member: the step of its rule, applied to what the member was before.
abbrev pub Stepped : List Rule → Fields → Fields → Type 0
Stepped rs fs fs' = All (λ r. r.step (get r.key fs) ≡ ok (get r.key fs')) rs

flip_key : (i j : String) → not (i == j) ≡ true → not (j == i) ≡ true
flip_key i j e = ground (arith, eq_iff i j, eq_iff j i)

-- A write to a member that no rule is about does not show.
Stepped-assign :
    (rs : List Rule) (k : String) (o : Option Json) (fs fs' : Fields)
    → fresh k rs ≡ true
    → Stepped rs (assign k o fs) fs'
    → Stepped rs fs fs'
Stepped-assign [] k o fs fs' h s = tt
Stepped-assign (r ∷ rs) k o fs fs' h s = (
  ap r.step (sym (get-assign_other k r.key o fs (flip_key r.key k (and_left _ (fresh k rs) h))))
      ∙ s.0,
  Stepped-assign rs k o fs fs' (and_right (not (r.key == k)) _ h) s.1,
)

pub run-Stepped :
    (rs : List Rule) (fs : Fields)
    → distinct rs ≡ true
    → Ensures (λ fs'. Stepped rs fs fs') (run rs fs)
unfolding run
run-Stepped [] fs h = Ensures-ok tt
run-Stepped (r ∷ rs) fs h = Ensures-bind_eq (r.step (get r.key fs)) _ λ o e. record {
  returns = λ fs' e'.
      let others = and_left (fresh r.key rs) _ h in
      let kept = (get-run r.key rs (assign r.key o fs) others).returns fs' e' in
      let after =
        (run-Stepped rs (assign r.key o fs) (and_right (fresh r.key rs) _ h)).returns fs' e' in
      (
        e ∙ ap ok (sym (kept ∙ get-assign_self r.key o fs)),
        Stepped-assign rs r.key o fs fs' others after,
      );
}

-- A run leaves alone an object on which no step changes its member.
pub run_fixed :
    (rs : List Rule) (fs : Fields)
    → All (λ r. r.step (get r.key fs) ≡ ok (get r.key fs)) rs
    → run rs fs ≡ ok fs
unfolding run
run_fixed [] fs h = refl
run_fixed (r ∷ rs) fs h = rw (h.0, assign-get r.key (get r.key fs) fs refl) (run_fixed rs fs h.1)

-- A list of rules about distinct keys, run on an object, gives each member that a rule is about what
-- the rule's step makes of the member as it was before the run, and leaves every other member alone.
pub run_memberwise :
    (rs : List Rule) (fs fs' : Fields)
    → distinct rs ≡ true
    → run rs fs ≡ ok fs'
    → All (λ r. r.step (get r.key fs) ≡ ok (get r.key fs')) rs
      × ((k : String) → fresh k rs ≡ true → get k fs' ≡ get k fs)
run_memberwise rs fs fs' d e =
    ((run-Stepped rs fs d).returns fs' e, λ k h. (get-run k rs fs h).returns fs' e)

-- Every step passes on the member as it is before the run.
abbrev pub Passes : List Rule → Fields → Type 0
Passes rs fs = All (λ r. (o : Option Json) × (r.step (get r.key fs) ≡ ok o)) rs

pub Passes-assign :
    (rs : List Rule) (k : String) (o : Option Json) (fs : Fields)
    → fresh k rs ≡ true
    → Passes rs fs
    → Passes rs (assign k o fs)
Passes-assign [] k o fs h p = tt
Passes-assign (r ∷ rs) k o fs h ((o', e), p) = (
  (
    o',
    ap r.step (get-assign_other k r.key o fs (flip_key r.key k (and_left _ (fresh k rs) h))) ∙ e,
  ),
  Passes-assign rs k o fs (and_right (not (r.key == k)) _ h) p,
)

-- Rules about distinct keys run through, if every step passes.
pub run-Passes :
    (rs : List Rule) (fs : Fields)
    → distinct rs ≡ true
    → Passes rs fs
    → (fs' : Fields) × (run rs fs ≡ ok fs')
unfolding run
run-Passes [] fs d p = (fs, refl)
run-Passes (r ∷ rs) fs d ((o, e), p) =
    let (fs', q) =
      run-Passes rs (assign r.key o fs) (and_right (fresh r.key rs) _ d)
        (Passes-assign rs r.key o fs (and_left (fresh r.key rs) _ d) p) in
    (fs', rw e q)
