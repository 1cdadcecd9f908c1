-- ===== src/Sdp/Refines/Update.antt =====
-- UpdateIceParameters and UpdateDtlsRole: loops over the sections that may stop on the way.
use libmediasouphandler.Base.{
  ℕ, suc, String, List, [], ◌∷◌, ◌++◌, ◌≡◌, refl, sym, ◌∙◌, ap, subst, some, inl, inr,
}
use libmediasouphandler.Base.Result.{Result, ok, Ensures, Ensures-ok, Result-cases}
use libmediasouphandler.Json.{Json, length, str, assign_member}
use libmediasouphandler.Sdp.MediaSection.{MediaSection, set_ice_parameters, set_dtls_role}
use libmediasouphandler.Sdp.RemoteSdp.{
  update_from, update_ice_parameters, update_dtls_role, put_section, put_media, mark_icelite,
}
use libmediasouphandler.Sdp.RemoteSdp.State.{RemoteSdp}
use libmediasouphandler.Sdp.RemoteSdp.Store.{element_at, replace_at}
use libmediasouphandler.Sdp.Slots.{Slot}
use libmediasouphandler.Sdp.Slots.Replace.{replace_same}
use libmediasouphandler.Sdp.Shown.{Shown, slot_at-Shown, replace_at-Shown, put_at-objects}
use libmediasouphandler.Sdp.Shown.Section.{Shows, set_ice_parameters-Shows, set_dtls_role-Shows}
use libmediasouphandler.Sdp.Refines.{Refines}

-- What `f` returns shows what its argument shows.
abbrev Keeps : (MediaSection → Result MediaSection) → Type 0
Keeps f = (m : MediaSection) (s : Slot) → Shows m s → Ensures (λ n. Shows n s) (f m)

-- A section replaced by one that shows the same slot.
section-Refines :
    (slots : List Slot) (r : RemoteSdp) (i : ℕ) (m n : MediaSection)
    → Refines slots r
    → element_at i r.media_sections ≡ some m
    → ((s : Slot) → Shows m s → Shows n s)
    → Refines slots (put_media i n (put_section i n r))
unfolding put_media put_section
section-Refines slots r i m n h e k =
    let (s, se, ms) = slot_at-Shown i r.media_sections slots m h.shown e in
    record {
      shown =
          subst (Shown (replace_at i n r.media_sections)) (replace_same i slots s se)
            (replace_at-Shown i r.media_sections slots n s h.shown (k s ms));
      synced = rw h.synced (put_at-objects i r.media_sections m n e);
      indexed = h.indexed;
      well = h.well;
      first = h.first;
      bundled = h.bundled;
    }

module _ (f : MediaSection → Result MediaSection) (slots : List Slot) (keeps : Keeps f) where
  element_at_middle :
      (done rest : List MediaSection) (m : MediaSection)
      → element_at (length done) (done ++ (m ∷ rest)) ≡ some m
  unfolding element_at
  element_at_middle [] rest m = refl
  element_at_middle (d ∷ done) rest m = element_at_middle done rest m

  replace_at_middle :
      (done rest : List MediaSection) (m n : MediaSection)
      → replace_at (length done) n (done ++ (m ∷ rest)) ≡ (done ++ (n ∷ [])) ++ rest
  unfolding replace_at
  replace_at_middle [] rest m n = refl
  replace_at_middle (d ∷ done) rest m n = ap (λ xs. d ∷ xs) (replace_at_middle done rest m n)

  length_more :
      (done : List MediaSection) (m : MediaSection) → length (done ++ (m ∷ [])) ≡ suc (length done)
  length_more [] m = refl
  length_more (d ∷ done) m = ap suc (length_more done m)

  -- Wherever the loop stops, the sections show the slots.
  update_from-Refines :
      (done rest : List MediaSection) (r : RemoteSdp)
      → r.media_sections ≡ done ++ rest
      → Refines slots r
      → Refines slots (update_from f (length done) rest r).1
  unfolding update_from put_section put_media
  update_from-Refines done [] r e h = h
  update_from-Refines done (m ∷ rest) r e h = elim (Result-cases (f m)) [
    | inl (x, q) ↦ rw q h
    | inr (n, q) ↦
        rw (q, sym (length_more done n))
          (update_from-Refines (done ++ (n ∷ [])) rest
            (put_media (length done) n (put_section (length done) n r))
            (ap (replace_at (length done) n) e ∙ replace_at_middle done rest m n)
            (section-Refines slots r (length done) m n h
              (ap (element_at (length done)) e ∙ element_at_middle done rest m)
              λ s k. (keeps m s k).returns n q))
  ]

-- Whether UpdateIceParameters returns or throws, on whichever section, the description refines the
-- slots that it refined before.
pub update_ice_parameters-Refines :
    (ice : Json) (slots : List Slot) (r : RemoteSdp)
    → Refines slots r
    → Refines slots (update_ice_parameters ice r).1
unfolding update_ice_parameters mark_icelite
update_ice_parameters-Refines ice slots r h =
    update_from-Refines (set_ice_parameters ice) slots (set_ice_parameters-Shows ice) []
      r.media_sections _ refl
      (record {
        shown = h.shown;
        synced = h.synced;
        indexed = h.indexed;
        well = h.well;
        first = h.first;
        bundled = h.bundled;
      })

pub update_dtls_role-Refines :
    (role : String) (slots : List Slot) (r : RemoteSdp)
    → Refines slots r
    → Refines slots (update_dtls_role role r).1
unfolding update_dtls_role mark_icelite
update_dtls_role-Refines role slots r h =
    elim (Result-cases (assign_member "role" (some (str role)) r.dtls_parameters)) [
      | inl (x, q) ↦ rw q h
      | inr (dtls, q) ↦ rw q (
          update_from-Refines (λ m. ok (set_dtls_role role m)) slots
            (λ m s k. Ensures-ok (set_dtls_role-Shows role m s k)) [] r.media_sections _ refl
            (record {
              shown = h.shown;
              synced = h.synced;
              indexed = h.indexed;
              well = h.well;
              first = h.first;
              bundled = h.bundled;
            }))
    ]
