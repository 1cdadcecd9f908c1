-- ===== src/Ortc/Rule.antt =====
-- The shape that the validators of src/ortc.cpp share: they look up the members of an object that
-- they know, and then for each in turn throw, leave it, or give it a default value.
pub mod Laws
pub mod Stable
pub mod Typed
use libmediasouphandler.Base.{
  String, Bool, true, false, not, ◌&&◌, Option, none, some, List, [], ◌∷◌, ◌==◌, if◌then◌else◌,
}
use libmediasouphandler.Base.Result.{Result, ok, err, type_error, guard, ◌>>=◌, ◌>>◌}
use libmediasouphandler.Json.{
  Json, arr, obj, Fields, end, get, assign, to_list, array, traverse, iterate,
}

-- A member's key, and what the validator makes of the member: absent or present, before and after.
pub record Rule : Type 0 where
  pub key : String
  pub step : Option Json → Result (Option Json)

unfoldable pub run : List Rule → Fields → Result Fields
run [] fs = ok fs
run (r ∷ rs) fs = do o ← r.step (get r.key fs); run rs (assign r.key o fs)

-- An object is taken through its rules; any other value is refused.
unfoldable pub validate : String → List Rule → Json → Result Json
validate message rs (obj fs) = do fs' ← run rs fs; ok (obj fs')
validate message rs _ = err (type_error message)

-- No rule is about the key.
abbrev pub fresh : String → List Rule → Bool
fresh k [] = true
fresh k (r ∷ rs) = not (r.key == k) && fresh k rs

-- No two rules are about one key.
abbrev pub distinct : List Rule → Bool
distinct [] = true
distinct (r ∷ rs) = fresh r.key rs && distinct rs

abbrev check : (Json → Bool) → String → Json → Result (Option Json)
check p message v = do guard (p v) (type_error message); ok (some v)

-- Throw if the member is absent or fails the test.
unfoldable pub mandatory : (Json → Bool) → String → Option Json → Result (Option Json)
mandatory p message none = err (type_error message)
mandatory p message (some v) = check p message v

-- Throw if the member is present and fails the test.
unfoldable pub optional : (Json → Bool) → String → Option Json → Result (Option Json)
optional p message none = ok none
optional p message (some v) = check p message v

-- A default for an absent member; throw if the member is present and fails the test.
unfoldable pub fill : (Json → Bool) → String → Json → Option Json → Result (Option Json)
fill p message d none = ok (some d)
fill p message d (some v) = check p message v

-- A default for a member that is absent or fails the test.
unfoldable pub default_to : (Json → Bool) → Json → Option Json → Result (Option Json)
default_to p d none = ok (some d)
default_to p d (some v) = ok (some (if p v then v else d))

-- One step after another.
unfoldable pub then_step :
    (Option Json → Result (Option Json))
    → (Option Json → Result (Option Json))
    → Option Json
    → Result (Option Json)
then_step s t o = do o' ← s o; t o'

-- The loop over the elements of an array, each of which the body may change; nothing is done to a
-- member that is no array, for a step before this one has made it one.
unfoldable pub each : (Json → Result Json) → Option Json → Result (Option Json)
each f (some (arr xs)) = do ys ← traverse f (to_list xs); ok (some (array ys))
each f o = ok o

-- The body of a validator of a member that is an object.
unfoldable pub within : (Json → Result Json) → Option Json → Result (Option Json)
within f (some v) = do w ← f v; ok (some w)
within f none = ok none
