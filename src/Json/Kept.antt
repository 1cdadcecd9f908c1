-- ===== src/Json/Kept.antt =====
-- What the loops over an array's elements return, element by element.
use libmediasouphandler.Base.{
  Bool, true, false, List, [], ◌∷◌, ◌≡◌, refl, ◌⊎◌, inl, inr, if◌then◌else◌,
}
use libmediasouphandler.Base.Result.{Result, ok, Ensures, Ensures-ok, Ensures-bind, Ensures-bind_eq}
use libmediasouphandler.Json.Loop.{traverse, filter}

module _ {A B : Type 0} (R : A → B → Type 0) where
  -- Two lists of one length, whose elements are related pairwise.
  abbrev pub Pairwise : List A → List B → Type 0
  Pairwise [] [] = Unit {0}
  Pairwise (x ∷ xs) (y ∷ ys) = R x y × Pairwise xs ys
  Pairwise _ _ = ⊥

module _ {A : Type 0} where
  pub traverse-Pairwise :
      (R : A → A → Type 0) (f : A → Result A)
      → ((x : A) → Ensures (R x) (f x))
      → (xs : List A) → Ensures (Pairwise R xs) (traverse f xs)
  unfolding traverse
  traverse-Pairwise R f sound [] = Ensures-ok tt
  traverse-Pairwise R f sound (x ∷ xs) = Ensures-bind (f x) _ (sound x) λ y p.
      Ensures-bind (traverse f xs) _ (traverse-Pairwise R f sound xs) λ ys ps. Ensures-ok (p, ps)

  -- The second list is the first without the elements that fail the test, in order.
  abbrev pub Filtered : (A → Result Bool) → List A → List A → Type 0
  Filtered p [] ys = ys ≡ []
  Filtered p (x ∷ xs) ys =
      ((p x ≡ ok false) × Filtered p xs ys)
      ⊎ (rest : List A) × (p x ≡ ok true) × (ys ≡ x ∷ rest) × Filtered p xs rest

  Filtered-step :
      (p : A → Result Bool) (x : A) (xs rest : List A) (b : Bool)
      → p x ≡ ok b
      → Filtered p xs rest
      → Filtered p (x ∷ xs) (if b then x ∷ rest else rest)
  Filtered-step p x xs rest true e h = inr (rest, e, refl, h)
  Filtered-step p x xs rest false e h = inl (e, h)

  pub filter-Filtered : (p : A → Result Bool) (xs : List A) → Ensures (Filtered p xs) (filter p xs)
  unfolding filter
  filter-Filtered p [] = Ensures-ok refl
  filter-Filtered p (x ∷ xs) = Ensures-bind_eq (p x) _ λ b e.
      Ensures-bind (filter p xs) _ (filter-Filtered p xs)
        λ rest h. Ensures-ok (Filtered-step p x xs rest b e h)
