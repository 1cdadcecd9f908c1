-- ===== src/Sdp/Refines/Reuse.antt =====
-- ReplaceMediaSection and the choice between it and AddMediaSection.
use libmediasouphandler.Base.{
  ℕ, String, false, none, some, List, ◌≡◌, refl, sym, ◌∙◌, ap, ◌==◌, if◌then◌else◌, arith,
}
use libmediasouphandler.Base.Text.{is_empty}
use libmediasouphandler.Base.Result.{ok}
use libmediasouphandler.Sdp.MediaSection.{MediaSection, get_mid, get_object}
use libmediasouphandler.Sdp.RemoteSdp.{
  reuse_media_section, regenerate_bundle_mids, index_of, section_at, put_section, note_index,
  put_media,
}
use libmediasouphandler.Sdp.RemoteSdp.State.{RemoteSdp}
use libmediasouphandler.Sdp.RemoteSdp.Scan.{bundle_from}
use libmediasouphandler.Sdp.RemoteSdp.Store.{
  lookup, insert, remove, element_at, replace_at, put_at, lookup-insert, lookup-remove,
}
use libmediasouphandler.Sdp.Slots.{Slot, opened, position, reusable, add_slot, bundle}
use libmediasouphandler.Sdp.Slots.Laws.{add_slot-WellFormed}
use libmediasouphandler.Sdp.Slots.Replace.{add_at, position-element_at}
use libmediasouphandler.Sdp.Slots.Index.{position-replace_at, head_mid_reuse}
use libmediasouphandler.Sdp.Shown.{Shown, replace_at-Shown, put_at-objects, element_at-Shown}
use libmediasouphandler.Sdp.Shown.Section.{Shows}
use libmediasouphandler.Sdp.Shown.Bundle.{bundle_from-Shown}
use libmediasouphandler.Sdp.Refines.{Refines}

-- What ReplaceMediaSection leaves.
abbrev reused : MediaSection → String → String → ℕ → String → RemoteSdp → RemoteSdp
unfolding insert remove replace_at put_at
reused m mid old i mids r = record r {
  media_sections = replace_at i m r.media_sections;
  mid_to_index = insert mid i (remove old (insert old i r.mid_to_index));
  sdp = record r.sdp { media = put_at i (get_object m) r.sdp.media; mids = mids };
}

reuse_media_section_run :
    (m om : MediaSection) (mid old mids : String) (i : ℕ) (r : RemoteSdp)
    → get_mid m ≡ ok mid
    → get_mid om ≡ ok old
    → lookup old r.mid_to_index ≡ some i
    → element_at i r.media_sections ≡ some om
    → bundle_from "" (replace_at i m r.media_sections) ≡ ok mids
    → reuse_media_section m old r ≡ (ok tt, reused m mid old i mids r)
unfolding reuse_media_section reused regenerate_bundle_mids index_of section_at put_section
    note_index put_media
reuse_media_section_run m om mid old mids i r g h l e b = rw (l, e, h, g, b) refl

module _ (slots : List Slot) (r : RemoteSdp) (m : MediaSection) (mid old : String) where
  same_index :
      (i : ℕ) (j : String)
      → Refines slots r
      → lookup j (insert mid i (remove old (insert old i r.mid_to_index)))
        ≡ (if mid == j then some i else if old == j then none else position j slots)
  same_index i j h = ground (
    arith,
    lookup-insert mid j i (remove old (insert old i r.mid_to_index)),
    lookup-remove old j (insert old i r.mid_to_index),
    lookup-insert old j i r.mid_to_index,
    h.indexed j,
  )

  -- The first closed section gives its place to the new one.
  pub reuse_media_section-Refines :
      Refines slots r
      → Shows m (opened mid)
      → is_empty mid ≡ false
      → position mid slots ≡ none
      → reusable slots ≡ some old
      → (r' : RemoteSdp) × (reuse_media_section m old r ≡ (ok tt, r'))
        × Refines (add_slot mid slots) r'
  unfolding reused
  reuse_media_section-Refines h k e n o =
      let (i, p, q) = add_at mid old slots o h.well.distinct in
      let (s, se, sm) = position-element_at old slots i p in
      let (om, oe, os) = element_at-Shown i r.media_sections slots s h.shown se in
      let well = add_slot-WellFormed mid slots e n h.well in
      let shown : Shown (replace_at i m r.media_sections) (add_slot mid slots) =
        rw q (replace_at-Shown i r.media_sections slots m (opened mid) h.shown k) in
      (
        reused m mid old i (bundle (add_slot mid slots)) r,
        reuse_media_section_run m om mid old (bundle (add_slot mid slots)) i r k.0 (os.0 ∙ ap ok sm)
            (h.indexed old ∙ p) oe
            (bundle_from-Shown (replace_at i m r.media_sections) (add_slot mid slots) shown
              well.named),
        record {
          shown = shown;
          synced = rw h.synced (put_at-objects i r.media_sections om m oe);
          indexed = λ j.
              same_index i j h
              ∙ sym (position-replace_at j mid old slots i h.well.distinct p n)
              ∙ ap (position j) (sym q);
          well = well;
          first = h.first ∙ sym (head_mid_reuse mid old slots h.well.head_open o);
          bundled = refl;
        },
      )
