-- ===== src/Sdp/RemoteSdp/Store.antt =====
-- The containers of RemoteSdp: a std::map from texts to indices, and writes at an index.
use libmediasouphandler.Base.{
  ℕ, zero, suc, String, Option, none, some, List, [], ◌∷◌, ◌≡◌, refl, arith, ◌==◌, eq_iff,
  if◌then◌else◌,
}
use libmediasouphandler.Json.{Json, null}

unfoldable pub lookup : String → List (String × ℕ) → Option ℕ
lookup k [] = none
lookup k ((j, n) ∷ rest) = if j == k then some n else lookup k rest

unfoldable pub insert : String → ℕ → List (String × ℕ) → List (String × ℕ)
insert k n [] = (k, n) ∷ []
insert k n ((j, m) ∷ rest) = if j == k then (k, n) ∷ rest else (j, m) ∷ insert k n rest

unfoldable pub remove : String → List (String × ℕ) → List (String × ℕ)
remove k [] = []
remove k ((j, n) ∷ rest) = let others = remove k rest in if j == k then others else (j, n) ∷ others

pub lookup-insert :
    (k j : String) (n : ℕ) (m : List (String × ℕ))
    → lookup j (insert k n m) ≡ (if k == j then some n else lookup j m)
unfolding lookup insert
lookup-insert k j n [] = refl
lookup-insert k j n ((i, x) ∷ m) =
    ground (arith, eq_iff k j, eq_iff i k, eq_iff i j, lookup-insert k j n m)

pub lookup-remove :
    (k j : String) (m : List (String × ℕ))
    → lookup j (remove k m) ≡ (if k == j then none else lookup j m)
unfolding lookup remove
lookup-remove k j [] = ground arith
lookup-remove k j ((i, x) ∷ m) =
    ground (arith, eq_iff k j, eq_iff i k, eq_iff i j, lookup-remove k j m)

module _ {A : Type 0} where
  -- A std::vector's element.
  unfoldable pub element_at : ℕ → List A → Option A
  element_at n [] = none
  element_at zero (x ∷ xs) = some x
  element_at (suc n) (x ∷ xs) = element_at n xs

  unfoldable pub replace_at : ℕ → A → List A → List A
  replace_at n y [] = []
  replace_at zero y (x ∷ xs) = y ∷ xs
  replace_at (suc n) y (x ∷ xs) = x ∷ replace_at n y xs

-- j[index] = v on an array, which grows by nulls up to the index.
unfoldable pub put_at : ℕ → Json → List Json → List Json
put_at zero v [] = v ∷ []
put_at zero v (x ∷ xs) = v ∷ xs
put_at (suc n) v [] = null ∷ put_at n v []
put_at (suc n) v (x ∷ xs) = x ∷ put_at n v xs
