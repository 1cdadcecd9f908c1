-- ===== src/Json/Appended.antt =====
-- What the loop that appends the parts of each value returns, by the parts.
use libmediasouphandler.Base.{List, [], ◌∷◌, ◌++◌, ◌≡◌, refl}
use libmediasouphandler.Base.Result.{Result, Ensures, Ensures-ok, Ensures-bind}
use libmediasouphandler.Json.Loop.{flat_map}

module _ {A B : Type 0} (R : A → List B → Type 0) where
  -- A list that is put together from a part for each value of another list.
  abbrev pub Concat : List A → List B → Type 0
  Concat [] zs = zs ≡ []
  Concat (x ∷ xs) zs = (ys : List B) × (rest : List B) × (zs ≡ ys ++ rest) × R x ys × Concat xs rest

  pub flat_map-Concat :
      (f : A → Result (List B))
      → ((x : A) → Ensures (R x) (f x))
      → (xs : List A) → Ensures (Concat xs) (flat_map f xs)
  unfolding flat_map
  flat_map-Concat f sound [] = Ensures-ok refl
  flat_map-Concat f sound (x ∷ xs) = Ensures-bind (f x) _ (sound x) λ ys p.
      Ensures-bind (flat_map f xs) _ (flat_map-Concat f sound xs)
        λ rest q. Ensures-ok (ys, rest, refl, p, q)
