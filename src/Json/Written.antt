-- ===== src/Json/Written.antt =====
-- The members of an object after a write through operator[].
use libmediasouphandler.Base.{
  String, false, Option, none, some, ◌≡◌, refl, ◌==◌, if◌then◌else◌, ◌∙◌,
}
use libmediasouphandler.Base.Result.{Ensures, Ensures-ok, Ensures-err}
use libmediasouphandler.Json.Data.{Json, null, obj, Fields}
use libmediasouphandler.Json.Object.{get, get-put}
use libmediasouphandler.Json.Access.{find, element, assign_member, insert_null}

-- A member that is given a value has it, and the others are as they were.
pub find-assign_member :
    (key : String) (v j : Json)
    → Ensures
        (λ j'. (k : String) → find k j' ≡ (if key == k then some v else find k j))
        (assign_member key (some v) j)
unfolding find assign_member get
find-assign_member key v (obj fs) = Ensures-ok λ k. get-put key k v fs
find-assign_member key v null = Ensures-ok λ k. refl
find-assign_member key v j = Ensures-err _

kept_by_insert :
    (key k : String) (fs : Fields) (o : Option Json)
    → (key == k) ≡ false
    → find k (insert_null key fs o).0 ≡ get k fs
unfolding find
kept_by_insert key k fs none h = get-put key k null fs ∙ rw h refl
kept_by_insert key k fs (some v) h = refl

-- The other members are as they were when one is accessed.
pub find-element :
    (key k : String) (j : Json)
    → (key == k) ≡ false
    → Ensures (λ r. find k r.0 ≡ find k j) (element key j)
unfolding find element get
find-element key k null h = Ensures-ok (rw h refl)
find-element key k (obj fs) h = Ensures-ok (kept_by_insert key k fs (get key fs) h)
find-element key k j h = Ensures-err _
