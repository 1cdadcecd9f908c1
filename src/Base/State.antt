-- ===== src/Base/State.antt =====
-- Methods of an object: they may change it, and return or throw. What is changed before an exception
-- stays changed.
use mathlib.Core.Path.{◌≡◌}
use mathlib.Core.Bool.{Bool}
use libmediasouphandler.Base.Result
use libmediasouphandler.Base.Result.{Error, Result, ok, err}

abbrev pub Method : Type 0 → Type 0 → Type 0
Method S A = S → Result A × S

module _ {S : Type 0} where
  abbrev pub continue : {A B : Type 0} → Result A → (A → Method S B) → Method S B
  continue (ok a) rest s = rest a s
  continue (err thrown) rest s = (err thrown, s)

  infixl 5 ◌>>=◌ ◌>>◌
  abbrev pub ◌>>=◌ : {A B : Type 0} → Method S A → (A → Method S B) → Method S B
  ◌>>=◌ call rest s = let (r, s') = call s in continue r rest s'

  abbrev pub ◌>>◌ : {B : Type 0} → Method S (Unit {0}) → Method S B → Method S B
  first >> second = first >>= λ u. second

  -- A call that does not touch the object.
  abbrev pub lift : {A : Type 0} → Result A → Method S A
  lift r s = (r, s)

  abbrev pub pure : {A : Type 0} → A → Method S A
  pure a s = (ok a, s)

  abbrev pub throw : {A : Type 0} → Error → Method S A
  throw e s = (err e, s)

  abbrev pub read : {A : Type 0} → (S → A) → Method S A
  read f s = (ok (f s), s)

  abbrev pub modify : (S → S) → Method S (Unit {0})
  modify f s = (ok tt, f s)

  abbrev pub guard : Bool → Error → Method S (Unit {0})
  guard b e = lift (Result.guard b e)

module _ {S : Type 0} (I : S → Type 0) where
  -- Whether a call returns or throws, it keeps `I`.
  abbrev pub Keeps : {A : Type 0} → Method S A → Type 0
  Keeps m = (s : S) → I s → I (m s).1

  continue-Keeps :
      {A B : Type 0} (r : Result A) (f : A → Method S B)
      → ((a : A) → Keeps (f a))
      → Keeps (continue r f)
  continue-Keeps (ok a) f k s i = k a s i
  continue-Keeps (err e) f k s i = i

  pub Keeps-bind :
      {A B : Type 0} (m : Method S A) (f : A → Method S B)
      → Keeps m
      → ((a : A) → Keeps (f a))
      → Keeps (m >>= f)
  Keeps-bind m f h k s i = continue-Keeps (m s).0 f k (m s).1 (h s i)

  pub Keeps-lift :
      {A B : Type 0} (r : Result A) (f : A → Method S B)
      → ((a : A) → Keeps (f a))
      → Keeps (lift r >>= f)
  Keeps-lift r f k s i = continue-Keeps r f k s i

  pub Keeps-guard :
      {B : Type 0} (b : Bool) (e : Error) (rest : Method S B)
      → Keeps rest
      → Keeps (guard b e >> rest)
  Keeps-guard b e rest k s i = continue-Keeps (Result.guard b e) (λ u. rest) (λ u. k) s i

module _ {S : Type 0} (I J : S → Type 0) where
  -- From a state with `I`, a call comes to one with `J`.
  abbrev pub Leads : {A : Type 0} → Method S A → Type 0
  Leads m = (s : S) → I s → J (m s).1

  continue-Leads :
      {A B : Type 0} (r : Result A) (f : A → Method S B)
      → ((s : S) → I s → J s)
      → ((a : A) → Leads (f a))
      → Leads (continue r f)
  continue-Leads (ok a) f thrown k s i = k a s i
  continue-Leads (err e) f thrown k s i = thrown s i

  pub Leads-bind :
      {A B : Type 0} (m : Method S A) (f : A → Method S B)
      → ((s : S) → I s → J s)
      → Keeps I m
      → ((a : A) → Leads (f a))
      → Leads (m >>= f)
  Leads-bind m f thrown h k s i = continue-Leads (m s).0 f thrown k (m s).1 (h s i)

module _ {S : Type 0} {A : Type 0} (J : A → S → Type 0) where
  -- What a call returns, and the object then, have `J`.
  abbrev pub Yields : Method S A → Type 0
  Yields m = (s : S) (a : A) → (m s).0 ≡ ok a → J a (m s).1

  continue-Yields :
      {B : Type 0} (r : Result B) (f : B → Method S A)
      → ((b : B) → Yields (f b))
      → Yields (continue r f)
  continue-Yields (ok b) f k s a e = k b s a e
  continue-Yields (err x) f k s a e = cc

  pub Yields-bind :
      {B : Type 0} (m : Method S B) (f : B → Method S A)
      → ((b : B) → Yields (f b))
      → Yields (m >>= f)
  Yields-bind m f k s a e = continue-Yields (m s).0 f k (m s).1 a e
