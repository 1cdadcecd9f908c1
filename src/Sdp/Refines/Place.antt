-- ===== src/Sdp/Refines/Place.antt =====
-- Receive and Send place a new section: where the slots say.
use libmediasouphandler.Base.{
  ℕ, suc, String, false, Option, none, some, List, ◌≡◌, refl, ◌∙◌, Option-cases, inl, inr,
  if◌then◌else◌, arith, [], ◌∷◌,
}
use libmediasouphandler.Base.Text.{is_empty}
use libmediasouphandler.Base.Result.{ok}
use libmediasouphandler.Sdp.MediaSection.{MediaSection}
use libmediasouphandler.Sdp.RemoteSdp.{add_media_section, replace_media_section, place_section}
use libmediasouphandler.Sdp.RemoteSdp.State.{RemoteSdp}
use libmediasouphandler.Sdp.RemoteSdp.Scan.{first_closed}
use libmediasouphandler.Sdp.Slots.{Slot, opened, position, reusable, next_slot, add_slot, Named}
use libmediasouphandler.Sdp.Shown.{FirstClosed, first_closed-Shown}
use libmediasouphandler.Sdp.Shown.Section.{Shows}
use libmediasouphandler.Sdp.Refines.{Refines}
use libmediasouphandler.Sdp.Refines.Add.{add_media_section-Refines}
use libmediasouphandler.Sdp.Refines.Reuse.{reuse_media_section-Refines}

reusable-Named :
    (ss : List Slot) (old : String) → Named ss → reusable ss ≡ some old → is_empty old ≡ false
unfolding reusable
reusable-Named [] old n h = cc
reusable-Named (s ∷ ss) old n h = ground (arith, reusable-Named ss old n.1)

next_slot_mid :
    (idx : ℕ) (ss : List Slot)
    → (next_slot idx ss).1 ≡ elim (reusable ss) [ none ↦ "" | some old ↦ old ]
unfolding next_slot reusable
next_slot_mid idx [] = refl
next_slot_mid idx (s ∷ ss) = ground (arith, next_slot_mid (suc idx) ss)

-- Sections are placed as `place_section` or `replace_media_section` places them.
place_run :
    (m : MediaSection) (r : RemoteSdp) (o : Option MediaSection) (u : Option String)
    → first_closed r.media_sections ≡ ok o
    → FirstClosed u o
    → place_section m r
      ≡ elim u [ none ↦ add_media_section m r | some old ↦ replace_media_section m old r ]
unfolding place_section
place_run m r none none e h = rw e refl
place_run m r (some om) (some old) e h = rw (e, h) refl
place_run m r none (some old) e h = elim h [ ]
place_run m r (some om) none e h = elim h [ ]

module _ (slots : List Slot) (r : RemoteSdp) (m : MediaSection) (mid : String) where
  pub place_section-Refines :
      Refines slots r
      → Shows m (opened mid)
      → is_empty mid ≡ false
      → position mid slots ≡ none
      → (r' : RemoteSdp) × (place_section m r ≡ (ok tt, r')) × Refines (add_slot mid slots) r'
  unfolding replace_media_section
  place_section-Refines h k e n =
      let (o, f, c) = first_closed-Shown r.media_sections slots h.shown in
      elim (Option-cases (reusable slots)) [
        | inl u ↦
            let (r', q, t) = add_media_section-Refines slots r m mid h k e n u in
            (r', place_run m r o (reusable slots) f c ∙ rw u q, t)
        | inr (old, u) ↦
            let (r', q, t) = reuse_media_section-Refines slots r m mid old h k e n u in
            (
              r',
              place_run m r o (reusable slots) f c
                  ∙ rw (u, reusable-Named slots old h.well.named u) q,
              t,
            )
      ]

  -- A section with the mid to reuse that GetNextMediaSectionIdx returns.
  pub next_section-Refines :
      Refines slots r
      → Shows m (opened mid)
      → is_empty mid ≡ false
      → position mid slots ≡ none
      → (r' : RemoteSdp) × ((if is_empty (next_slot 0 slots).1
              then add_media_section m
              else replace_media_section m (next_slot 0 slots).1)
            r
          ≡ (ok tt, r'))
        × Refines (add_slot mid slots) r'
  unfolding replace_media_section
  next_section-Refines h k e n = elim (Option-cases (reusable slots)) [
    | inl u ↦
        let (r', q, t) = add_media_section-Refines slots r m mid h k e n u in
        (r', rw (next_slot_mid 0 slots, u) q, t)
    | inr (old, u) ↦
        let (r', q, t) = reuse_media_section-Refines slots r m mid old h k e n u in
        (r', rw (next_slot_mid 0 slots, u, reusable-Named slots old h.well.named u) q, t)
  ]
