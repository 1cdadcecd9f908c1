-- ===== src/Sdp/Refines/Add.antt =====
-- AddMediaSection.
use libmediasouphandler.Base.{
  suc, ◌-◌, String, false, none, some, List, [], ◌∷◌, ◌++◌, ◌≡◌, refl, sym, ◌∙◌, ap, ◌==◌,
  Bool-cases, inl, inr, if◌then◌else◌, arith,
}
use libmediasouphandler.Base.Text.{is_empty}
use libmediasouphandler.Base.Result.{ok}
use libmediasouphandler.Json.{length}
use libmediasouphandler.Sdp.MediaSection.{MediaSection, get_mid, get_object}
use libmediasouphandler.Sdp.RemoteSdp.{
  add_media_section, regenerate_bundle_mids, note_first, note_index,
}
use libmediasouphandler.Sdp.RemoteSdp.State.{RemoteSdp}
use libmediasouphandler.Sdp.RemoteSdp.Scan.{bundle_from}
use libmediasouphandler.Sdp.RemoteSdp.Store.{lookup, insert, lookup-insert}
use libmediasouphandler.Sdp.Slots.{Slot, opened, position, reusable, add_slot, bundle}
use libmediasouphandler.Sdp.Slots.Laws.{add_slot-WellFormed}
use libmediasouphandler.Sdp.Slots.Replace.{add_last}
use libmediasouphandler.Sdp.Slots.Index.{position_last, head_mid_add}
use libmediasouphandler.Sdp.Shown.{Shown, append-Shown, objects-append}
use libmediasouphandler.Sdp.Shown.Section.{Shows}
use libmediasouphandler.Sdp.Shown.Bundle.{bundle_from-Shown}
use libmediasouphandler.Sdp.Refines.{Refines}

-- What AddMediaSection leaves.
abbrev pub added : MediaSection → String → String → RemoteSdp → RemoteSdp
unfolding insert
added m mid mids r = record r {
  first_mid = if is_empty r.first_mid then mid else r.first_mid;
  media_sections = r.media_sections ++ (m ∷ []);
  mid_to_index = insert mid (length (r.media_sections ++ (m ∷ [])) - 1) r.mid_to_index;
  sdp = record r.sdp { media = r.sdp.media ++ (get_object m ∷ []); mids = mids };
}

pub add_media_section_run :
    (m : MediaSection) (mid mids : String) (r : RemoteSdp)
    → get_mid m ≡ ok mid
    → bundle_from "" (r.media_sections ++ (m ∷ [])) ≡ ok mids
    → add_media_section m r ≡ (ok tt, added m mid mids r)
unfolding add_media_section added regenerate_bundle_mids note_first note_index
add_media_section_run m mid mids r h b = elim (Bool-cases (is_empty r.first_mid)) [
  | inl e ↦ rw (e, h, b) refl
  | inr e ↦ rw (e, h, b) refl
]

pub length-Shown : (ms : List MediaSection) (ss : List Slot) → Shown ms ss → length ms ≡ length ss
length-Shown [] (s ∷ ss) h = elim h [ ]
length-Shown (m ∷ ms) [] h = elim h [ ]
length-Shown [] [] h = refl
length-Shown (m ∷ ms) (s ∷ ss) h = rw (length-Shown ms ss h.1) refl

length_last : (ms : List MediaSection) (m : MediaSection) → length (ms ++ (m ∷ [])) - 1 ≡ length ms
length_last [] m = refl
length_last (n ∷ ms) m = omega (arith, length-more ms m)
  where
    length-more :
        (ms : List MediaSection) (m : MediaSection) → length (ms ++ (m ∷ [])) ≡ suc (length ms)
    length-more [] m = refl
    length-more (n ∷ ms) m = rw (length-more ms m) refl

module _ (slots : List Slot) (r : RemoteSdp) (m : MediaSection) (mid : String) where
  same_index :
      (j : String)
      → Refines slots r
      → (if mid == j
          then some (length (r.media_sections ++ (m ∷ [])) - 1)
          else lookup j r.mid_to_index)
        ≡ (if mid == j then some (length slots) else position j slots)
  same_index j h =
      rw (length_last r.media_sections m, length-Shown r.media_sections slots h.shown, h.indexed j)
        refl

  -- With no slot to reuse, AddMediaSection adds the slot.
  pub add_media_section-Refines :
      Refines slots r
      → Shows m (opened mid)
      → is_empty mid ≡ false
      → position mid slots ≡ none
      → reusable slots ≡ none
      → (r' : RemoteSdp) × (add_media_section m r ≡ (ok tt, r')) × Refines (add_slot mid slots) r'
  unfolding added
  add_media_section-Refines h k e n o =
      let shown = append-Shown r.media_sections slots m (opened mid) h.shown k in
      let last = add_last mid slots o in
      let well = add_slot-WellFormed mid slots e n h.well in
      let shown' : Shown (r.media_sections ++ (m ∷ [])) (add_slot mid slots) = rw last shown in
      let bundled =
        bundle_from-Shown (r.media_sections ++ (m ∷ [])) (add_slot mid slots) shown' well.named in
      (
        added m mid (bundle (add_slot mid slots)) r,
        add_media_section_run m mid (bundle (add_slot mid slots)) r k.0 bundled,
        record {
          shown = shown';
          synced = rw h.synced (sym (objects-append r.media_sections m));
          indexed = λ j.
              lookup-insert mid j (length (r.media_sections ++ (m ∷ [])) - 1) r.mid_to_index
              ∙ same_index j h
              ∙ sym (position_last j mid slots n)
              ∙ ap (position j) (sym last);
          well = well;
          first = rw h.first (sym (head_mid_add mid slots h.well.named h.well.head_open));
          bundled = refl;
        },
      )
