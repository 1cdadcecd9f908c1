-- ===== src/Sdp/Refines/Close.antt =====
-- CloseMediaSection.
use libmediasouphandler.Base.{
  ℕ, String, true, some, List, ◌≡◌, refl, sym, ◌∙◌, ◌==◌, eq_iff, Bool-cases, inl, inr,
  if◌then◌else◌, arith,
}
use libmediasouphandler.Base.Result.{ok}
use libmediasouphandler.Sdp.MediaSection.{MediaSection, get_mid, get_object}
use libmediasouphandler.Sdp.MediaSection as Section
use libmediasouphandler.Sdp.RemoteSdp.{
  close_media_section, regenerate_bundle_mids, index_of, section_at, put_section, put_media,
}
use libmediasouphandler.Sdp.RemoteSdp.State.{RemoteSdp}
use libmediasouphandler.Sdp.RemoteSdp.Scan.{bundle_from}
use libmediasouphandler.Sdp.RemoteSdp.Store.{
  lookup, insert, element_at, replace_at, put_at, lookup-insert,
}
use libmediasouphandler.Sdp.Slots.{Slot, position, close_slot, head_mid, bundle}
use libmediasouphandler.Sdp.Slots.Laws.{close_slot-WellFormed, position-close_slot}
use libmediasouphandler.Sdp.Slots.Replace.{close_slot_at, position-element_at}
use libmediasouphandler.Sdp.Slots.Index.{head_mid_close}
use libmediasouphandler.Sdp.Shown.{Shown, replace_at-Shown, put_at-objects, element_at-Shown}
use libmediasouphandler.Sdp.Shown.Section.{Shows, close-Shows, disable-Shows}
use libmediasouphandler.Sdp.Shown.Bundle.{bundle_from-Shown}
use libmediasouphandler.Sdp.Refines.{Refines}

-- The section that takes the place of the one closed.
abbrev stopped : String → RemoteSdp → MediaSection → MediaSection
stopped mid r m = if mid == r.first_mid then Section.disable m else Section.close m

-- What CloseMediaSection leaves.
abbrev closed_state : MediaSection → String → ℕ → String → RemoteSdp → RemoteSdp
unfolding insert replace_at put_at
closed_state m mid i mids r = record r {
  media_sections = replace_at i m r.media_sections;
  mid_to_index = insert mid i r.mid_to_index;
  sdp = record r.sdp { media = put_at i (get_object m) r.sdp.media; mids = mids };
}

close_media_section_run :
    (m : MediaSection) (mid mids : String) (i : ℕ) (r : RemoteSdp)
    → lookup mid r.mid_to_index ≡ some i
    → element_at i r.media_sections ≡ some m
    → bundle_from "" (replace_at i (stopped mid r m) r.media_sections) ≡ ok mids
    → close_media_section mid r ≡ (ok tt, closed_state (stopped mid r m) mid i mids r)
unfolding close_media_section closed_state regenerate_bundle_mids index_of section_at put_section
    put_media
close_media_section_run m mid mids i r l e b = rw (l, e, b) refl

module _ (slots : List Slot) (r : RemoteSdp) (mid : String) where
  stopped-Shows :
      (m : MediaSection) (s : Slot)
      → Refines slots r
      → Shows m s
      → Shows
          (stopped mid r m)
          (record { mid = s.mid; closed = if mid == head_mid slots then s.closed else true })
  stopped-Shows m s h k = elim (Bool-cases (mid == head_mid slots)) [
    | inl e ↦ rw (h.first, e) (disable-Shows m s k)
    | inr e ↦ rw (h.first, e) (close-Shows m s k)
  ]

  known_index :
      (i : ℕ) (j : String)
      → Refines slots r
      → position mid slots ≡ some i
      → (if mid == j then some i else lookup j r.mid_to_index) ≡ position j slots
  known_index i j h p = ground (arith, eq_iff mid j, h.indexed j, p)

  -- CloseMediaSection of a mid that is there, on a description that refines slots, returns, and the
  -- description refines the slots with that one closed, or the same slots if it is the first.
  pub close_media_section-Refines :
      (i : ℕ)
      → Refines slots r
      → position mid slots ≡ some i
      → (r' : RemoteSdp) × (close_media_section mid r ≡ (ok tt, r'))
        × Refines (close_slot mid slots) r'
  unfolding closed_state
  close_media_section-Refines i h p =
      let (s, se, sm) = position-element_at mid slots i p in
      let (om, oe, os) = element_at-Shown i r.media_sections slots s h.shown se in
      let well = close_slot-WellFormed mid slots h.well in
      let m = stopped mid r om in
      let shown : Shown (replace_at i m r.media_sections) (close_slot mid slots) =
        rw (close_slot_at mid slots i s p se)
          (replace_at-Shown i r.media_sections slots m _ h.shown (stopped-Shows om s h os)) in
      (
        closed_state m mid i (bundle (close_slot mid slots)) r,
        close_media_section_run om mid (bundle (close_slot mid slots)) i r (h.indexed mid ∙ p) oe (
            bundle_from-Shown (replace_at i m r.media_sections) (close_slot mid slots) shown
              well.named),
        record {
          shown = shown;
          synced = rw h.synced (put_at-objects i r.media_sections om m oe);
          indexed = λ j.
              lookup-insert mid j i r.mid_to_index
              ∙ known_index i j h p
              ∙ sym (position-close_slot j mid slots);
          well = well;
          first = h.first ∙ sym (head_mid_close mid slots);
          bundled = refl;
        },
      )
