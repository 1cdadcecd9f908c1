-- ===== src/Json/Loop.antt =====
-- Loops over the values of an array: a loop that changes each, std::find_if, a loop that keeps
-- some, and one that appends what each value gives. The bodies may throw.
use libmediasouphandler.Base.{
  ℕ, suc, Bool, true, false, Option, none, some, List, [], ◌∷◌, ◌++◌, ◌≡◌, refl, ap, sym, subst,
  ◌⊎◌, inl, inr, if◌then◌else◌, arith,
}
use libmediasouphandler.Base.Result.{
  Result, ok, ◌>>=◌, Ensures, Ensures-ok, Ensures-bind, Ensures-bind_eq, Ensures-mono,
}

abbrev pub length {ℓ} : {A : Type ℓ} → List A → ℕ
length [] = 0
length (x ∷ xs) = suc (length xs)

abbrev pub All {ℓ κ} : {A : Type ℓ} → (A → Type κ) → List A → Type κ
All P [] = Unit
All P (x ∷ xs) = P x × All P xs

-- `a` stands in the list.
abbrev pub Mem : {A : Type 0} → A → List A → Type 0
Mem a [] = ⊥
Mem a (x ∷ xs) = (a ≡ x) ⊎ Mem a xs

module _ {ℓ} {A : Type ℓ} where
  -- for (auto& x : xs) f(x);
  unfoldable pub traverse : (A → Result A) → List A → Result (List A)
  traverse f [] = ok []
  traverse f (x ∷ xs) = do y ← f x; ys ← traverse f xs; ok (y ∷ ys)

  -- std::find_if.
  unfoldable pub find_if : (A → Result Bool) → List A → Result (Option A)
  find_if p [] = ok none
  find_if p (x ∷ xs) = do found ← p x; let rest = find_if p xs; if found then ok (some x) else rest

  -- The loop that erases the values that fail the test.
  unfoldable pub filter : (A → Result Bool) → List A → Result (List A)
  filter p [] = ok []
  filter p (x ∷ xs) = do kept ← p x; rest ← filter p xs; ok (if kept then x ∷ rest else rest)

  -- The loop that appends what each value gives.
  unfoldable pub flat_map {κ} : {B : Type κ} → (A → Result (List B)) → List A → Result (List B)
  flat_map f [] = ok []
  flat_map f (x ∷ xs) = do ys ← f x; zs ← flat_map f xs; ok (ys ++ zs)

  pub traverse-All {κ} :
      (P : A → Type κ) (f : A → Result A)
      → ((x : A) → Ensures P (f x))
      → (xs : List A) → Ensures (All P) (traverse f xs)
  unfolding traverse
  traverse-All P f sound [] = Ensures-ok tt
  traverse-All P f sound (x ∷ xs) =
      Ensures-bind (f x) _ (sound x) λ y p.
        Ensures-bind (traverse f xs) _ (traverse-All P f sound xs) λ ys ps. Ensures-ok (p, ps)

  -- A second round of the loop changes nothing where one body does not.
  pub traverse_stable :
      (f : A → Result A)
      → ((x : A) → Ensures (λ y. f y ≡ ok y) (f x))
      → (xs : List A) → Ensures (λ ys. traverse f ys ≡ ok ys) (traverse f xs)
  unfolding traverse
  traverse_stable f once [] = Ensures-ok refl
  traverse_stable f once (x ∷ xs) = Ensures-bind (f x) _ (once x) λ y p.
      Ensures-bind (traverse f xs) _ (traverse_stable f once xs) λ ys q. Ensures-ok (rw (p, q))

  pub length-traverse :
      (f : A → Result A) (xs : List A) → Ensures (λ ys. length ys ≡ length xs) (traverse f xs)
  unfolding traverse
  length-traverse f [] = Ensures-ok refl
  length-traverse f (x ∷ xs) = Ensures-bind_eq (f x) _ λ y p.
      Ensures-bind (traverse f xs) _ (length-traverse f xs) λ ys q. Ensures-ok (omega (arith, q))

module _ {A : Type 0} where
  -- What `find_if` returns: the first value that passes, or none if every one fails.
  abbrev pub Found : (A → Result Bool) → List A → Option A → Type 0
  Found p xs none = All (λ x. p x ≡ ok false) xs
  Found p xs (some x) =
      (before : List A) × (after : List A) × (xs ≡ before ++ (x ∷ after))
      × All (λ y. p y ≡ ok false) before
      × (p x ≡ ok true)

  Found-cons :
      (p : A → Result Bool) (x : A) (xs : List A) (o : Option A)
      → p x ≡ ok false
      → Found p xs o
      → Found p (x ∷ xs) o
  Found-cons p x xs none h f = (h, f)
  Found-cons p x xs (some y) h (before, after, e, fails, passes) =
      (x ∷ before, after, ap (λ ys. x ∷ ys) e, (h, fails), passes)

  find_if_step :
      (p : A → Result Bool) (x : A) (xs : List A) (b : Bool)
      → p x ≡ ok b
      → Ensures (Found p xs) (find_if p xs)
      → Ensures (Found p (x ∷ xs)) (if b then ok (some x) else find_if p xs)
  find_if_step p x xs true e ih = Ensures-ok ([], xs, refl, tt, e)
  find_if_step p x xs false e ih = Ensures-mono (find_if p xs) ih λ o f. Found-cons p x xs o e f

  pub find_if-Found : (p : A → Result Bool) (xs : List A) → Ensures (Found p xs) (find_if p xs)
  unfolding find_if
  find_if-Found p [] = Ensures-ok tt
  find_if-Found p (x ∷ xs) =
      Ensures-bind_eq (p x) _ λ b e. find_if_step p x xs b e (find_if-Found p xs)

module _ {ℓ} {A : Type ℓ} where
  filter_step {κ} :
      (P : A → Type κ) (p : A → Result Bool) (x : A) (xs : List A) (b : Bool)
      → (p x ≡ ok true → P x)
      → p x ≡ ok b
      → All P xs
      → All P (if b then x ∷ xs else xs)
  filter_step P p x xs true h e ps = (h e, ps)
  filter_step P p x xs false h e ps = ps

  pub filter-All {κ} :
      (P : A → Type κ) (p : A → Result Bool)
      → ((x : A) → p x ≡ ok true → P x)
      → (xs : List A) → Ensures (All P) (filter p xs)
  unfolding filter
  filter-All P p h [] = Ensures-ok tt
  filter-All P p h (x ∷ xs) = Ensures-bind_eq (p x) _ λ b e.
      Ensures-bind (filter p xs) _ (filter-All P p h xs)
        λ rest ps. Ensures-ok (filter_step P p x rest b (h x) e ps)

  pub All-append {κ} : (P : A → Type κ) (xs ys : List A) → All P xs → All P ys → All P (xs ++ ys)
  All-append P [] ys h k = k
  All-append P (x ∷ xs) ys h k = (h.0, All-append P xs ys h.1 k)

module _ {A : Type 0} where
  pub All-mem {κ} : (P : A → Type κ) (xs : List A) → ((x : A) → Mem x xs → P x) → All P xs
  All-mem P [] h = tt
  All-mem P (x ∷ xs) h = (h x (inl refl), All-mem P xs λ y m. h y (inr m))

  pub mem_middle : (before after : List A) (x : A) → Mem x (before ++ (x ∷ after))
  mem_middle [] after x = inl refl
  mem_middle (y ∷ before) after x = inr (mem_middle before after x)

  -- What `find_if` finds stands in the list, and passes.
  pub find_if_mem :
      (p : A → Result Bool) (xs : List A)
      → Ensures (λ o. (x : A) → o ≡ some x → Mem x xs × (p x ≡ ok true)) (find_if p xs)
  find_if_mem p xs = Ensures-mono (find_if p xs) (find_if-Found p xs) read
    where
      read : (o : Option A) → Found p xs o → (x : A) → o ≡ some x → Mem x xs × (p x ≡ ok true)
      read none f x e = cc
      read (some y) (before, after, split, fails, passes) x e =
          let same : y ≡ x = cc in
          (
            subst (λ z. Mem z xs) same
                (subst (λ zs. Mem y zs) (sym split) (mem_middle before after y)),
            subst (λ z. p z ≡ ok true) same passes,
          )

module _ {ℓ κ ι} {A : Type ℓ} {B : Type κ} (P : B → Type ι) (f : A → Result (List B)) where
  pub flat_map-All :
      (xs : List A) → All (λ x. Ensures (All P) (f x)) xs → Ensures (All P) (flat_map f xs)
  unfolding flat_map
  flat_map-All [] sound = Ensures-ok tt
  flat_map-All (x ∷ xs) sound = Ensures-bind (f x) _ sound.0 λ ys p.
      Ensures-bind (flat_map f xs) _ (flat_map-All xs sound.1)
        λ zs q. Ensures-ok (All-append P ys zs p q)
