-- ===== src/Sdp/Shown/Section.antt =====
-- A media section shows a slot: GetMid and IsClosed of src/sdp/MediaSection.cpp return what the slot
-- has. The operations on sections keep the mid.
use libmediasouphandler.Base.{
  String, Bool, true, false, Option, none, some, ◌≡◌, refl, ap, sym, ◌∙◌, ◌==◌,
}
use libmediasouphandler.Base.Result.{
  Result, ok, ◌>>=◌, Ensures, Ensures-ok, Ensures-bind, Ensures-after,
}
use libmediasouphandler.Json.{
  Json, int, str, Fields, get, const_element, present, get_string, json_eq, get-put, get-erase,
}
use libmediasouphandler.Ortc.Extended.{with_member}
use libmediasouphandler.Sdp.MediaSection.{
  with_role, Side, MediaSection, answer, offer, get_mid, is_closed, disable, close,
  set_ice_parameters, put_ice_parameters, set_dtls_role, setup_of,
}
use libmediasouphandler.Sdp.Slots.{Slot}

abbrev pub Shows : MediaSection → Slot → Type 0
Shows m s = (get_mid m ≡ ok s.mid) × (is_closed m ≡ ok s.closed)

-- Only the members "mid" and "port" are looked at.
abbrev pub mid_in : Option Json → Result String
mid_in o = present o >>= get_string

abbrev pub closed_in : Option Json → Result Bool
unfolding json_eq
closed_in o = do port ← present o; ok (json_eq port (int 0))

pub get_mid_by : (m : MediaSection) → get_mid m ≡ mid_in (get "mid" m.object)
unfolding get_mid const_element
get_mid_by m = refl

pub is_closed_by : (m : MediaSection) → is_closed m ≡ closed_in (get "port" m.object)
unfolding is_closed const_element closed_in
is_closed_by m = refl

pub get-with_member :
    (k : String) (o : Option Json) (fs : Fields)
    → ("setup" == k) ≡ false
    → get k (with_member "setup" o fs) ≡ get k fs
get-with_member k none fs h = refl
get-with_member k (some v) fs h = get-put "setup" k v fs ∙ rw h refl

-- A section with the same two members shows the same slot.
pub Shows-same :
    (m n : MediaSection) (s : Slot)
    → get "mid" n.object ≡ get "mid" m.object
    → get "port" n.object ≡ get "port" m.object
    → Shows m s
    → Shows n s
Shows-same m n s p q h = (
  get_mid_by n ∙ ap mid_in p ∙ sym (get_mid_by m) ∙ h.0,
  is_closed_by n ∙ ap closed_in q ∙ sym (is_closed_by m) ∙ h.1,
)

pub disable-Shows : (m : MediaSection) (s : Slot) → Shows m s → Shows (disable m) s
unfolding disable
disable-Shows m s h =
    Shows-same m (disable m) s (simp (get-erase, get-put)) (simp (get-erase, get-put)) h

zero_port : (o : Option Json) → o ≡ some (int 0) → closed_in o ≡ ok true
unfolding closed_in
zero_port o h = rw h refl

pub close-Shows :
    (m : MediaSection) (s : Slot)
    → Shows m s
    → Shows (close m) (record { mid = s.mid; closed = true })
unfolding close
close-Shows m s h = (
  get_mid_by (close m) ∙ ap mid_in (simp (get-erase, get-put)) ∙ sym (get_mid_by m) ∙ h.0,
  is_closed_by (close m) ∙ zero_port (get "port" (close m).object) (simp (get-erase, get-put)),
)

-- Which slot a section shows is said by its two members.
pub Shows-by :
    (m : MediaSection) (mid : String)
    → get "mid" m.object ≡ some (str mid)
    → get "port" m.object ≡ some (int 7)
    → Shows m (record { mid = mid; closed = false })
unfolding closed_in
Shows-by m mid p q = (get_mid_by m ∙ rw p refl, is_closed_by m ∙ rw q refl)

pub set_ice_parameters-Shows :
    (ice : Json) (m : MediaSection) (s : Slot)
    → Shows m s
    → Ensures (λ n. Shows n s) (set_ice_parameters ice m)
unfolding set_ice_parameters put_ice_parameters
set_ice_parameters-Shows ice m s h =
    Ensures-bind (put_ice_parameters ice m.object) _ kept
      λ fs k. Ensures-ok (Shows-same m _ s k.0 k.1 h)
  where
    kept :
        Ensures
          (λ fs. (get "mid" fs ≡ get "mid" m.object) × (get "port" fs ≡ get "port" m.object))
          (put_ice_parameters ice m.object)
    kept = Ensures-after (const_element "usernameFragment" ice) _ λ fragment.
        Ensures-after (const_element "password" ice) _
          λ password. Ensures-ok (simp get-put, simp get-put)

get-with_role :
    (k : String) (side : Side) (role : String) (fs : Fields)
    → ("setup" == k) ≡ false
    → get k (with_role side role fs) ≡ get k fs
unfolding with_role
get-with_role k answer role fs h = get-with_member k (setup_of role) fs h
get-with_role k offer role fs h = get-put "setup" k (str "actpass") fs ∙ rw h refl

pub set_dtls_role-Shows :
    (role : String) (m : MediaSection) (s : Slot) → Shows m s → Shows (set_dtls_role role m) s
unfolding set_dtls_role
set_dtls_role-Shows role m s h =
    Shows-same m _ s (get-with_role "mid" m.side role m.object refl)
      (get-with_role "port" m.side role m.object refl) h
