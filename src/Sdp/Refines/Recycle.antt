-- ===== src/Sdp/Refines/Recycle.antt =====
-- Closed sections are reused.
use libmediasouphandler.Base.{
  ℕ, zero, suc, eq_iff, Bool-cases, subst, String, false, none, some, List, [], ◌∷◌, ◌≡◌, refl, sym,
  ◌∙◌, ap, arith, inl, inr,
}
use libmediasouphandler.Base.Text.{is_empty}
use libmediasouphandler.Base.Result.{ok}
use libmediasouphandler.Json.{Json, null, length}
use libmediasouphandler.Sdp.MediaSection.Codecs.{ShowFloat}
use libmediasouphandler.Sdp.MediaSection.{MediaSection}
use libmediasouphandler.Sdp.MediaSection.Offer.{new_offer}
use libmediasouphandler.Sdp.RemoteSdp.{receive, close_media_section}
use libmediasouphandler.Sdp.RemoteSdp.State.{RemoteSdp}
use libmediasouphandler.Sdp.Slots.{
  Slot, position, reusable, add_slot, close_slot, mark_closed, HeadOpen,
}
use libmediasouphandler.Sdp.Slots.Laws.{position-close_slot}
use libmediasouphandler.Sdp.Slots.Replace.{position-zero, position-suc}
use libmediasouphandler.Sdp.Refines.{Refines}
use libmediasouphandler.Sdp.Refines.Add.{length-Shown}
use libmediasouphandler.Sdp.Refines.Close.{close_media_section-Refines}
use libmediasouphandler.Sdp.Refines.Call.{Outcome, receive-Outcome}

mark_closed-reusable :
    (mid : String) (ss : List Slot) (i : ℕ)
    → position mid ss ≡ some i
    → (old : String) × (reusable (mark_closed mid ss) ≡ some old)
unfolding mark_closed reusable position
mark_closed-reusable mid [] i p = cc
mark_closed-reusable mid (s ∷ ss) zero p =
    (s.mid, ground (arith, position-zero mid s ss p, eq_iff s.mid mid))
mark_closed-reusable mid (s ∷ ss) (suc i) p =
    let (e, q) = position-suc mid s ss i p in
    let (old, u) = mark_closed-reusable mid ss i q in
    elim (Bool-cases s.closed) [
      | inl c ↦ (s.mid, ground (arith, e, c))
      | inr c ↦ (old, ground (arith, e, c, u))
    ]

length-add_slot :
    (mid old : String) (ss : List Slot)
    → reusable ss ≡ some old
    → length (add_slot mid ss) ≡ length ss
unfolding add_slot reusable
length-add_slot mid old [] h = cc
length-add_slot mid old (s ∷ ss) h = ground (arith, length-add_slot mid old ss)

length-mark_closed : (mid : String) (ss : List Slot) → length (mark_closed mid ss) ≡ length ss
unfolding mark_closed
length-mark_closed mid [] = refl
length-mark_closed mid (s ∷ ss) = ground (arith, length-mark_closed mid ss)

-- A slot after the first, closed, gives its place to the next.
add_close_length :
    (mid new : String) (ss : List Slot) (i : ℕ)
    → HeadOpen ss
    → position mid ss ≡ some (suc i)
    → length (add_slot new (close_slot mid ss)) ≡ length ss
unfolding close_slot add_slot position
add_close_length mid new [] i o p = cc
add_close_length mid new (s ∷ ss) i o p =
    let (e, q) = position-suc mid s ss i p in
    let (old, u) = mark_closed-reusable mid ss i q in
    rw (e, o) (ap suc (length-add_slot new old (mark_closed mid ss) u ∙ length-mark_closed mid ss))

-- For a description that stands for slots: when a section after the first is closed by its mid, and a
-- section with a new mid that is not empty can be made, Receive returns, and there are as many
-- sections as before.
pub receive_recycles :
    (show_float : ShowFloat) (slots : List Slot) (r : RemoteSdp) (mid new : String) (i : ℕ)
    (kind : String) (parameters : Json) (stream_id track_id : String) (m : MediaSection)
    → Refines slots r
    → position mid slots ≡ some (suc i)
    → is_empty new ≡ false
    → position new slots ≡ none
    → new_offer show_float
        (close_media_section mid r).1.ice_parameters
        (close_media_section mid r).1.ice_candidates
        null
        new
        kind
        parameters
        stream_id
        track_id
      ≡ ok m
    → ((receive show_float new kind parameters stream_id track_id (close_media_section mid r).1).0
        ≡ ok tt)
      × (length
            (receive show_float new kind parameters stream_id track_id
              (close_media_section mid r).1).1.media_sections
          ≡ length r.media_sections)
receive_recycles show_float slots r mid new i kind parameters stream_id track_id m h p e n k =
    let (r', q, t) = close_media_section-Refines slots r mid (suc i) h p in
    let t' : Refines (close_slot mid slots) (close_media_section mid r).1 = rw q t in
    let o =
      receive-Outcome show_float (close_slot mid slots) (close_media_section mid r).1 new kind
        parameters stream_id track_id t' e (position-close_slot new mid slots ∙ n) in
    let (a, f, u) =
      (subst
        (λ x.
          Outcome (add_slot new (close_slot mid slots)) (close_media_section mid r).1 x (
            receive show_float new kind parameters stream_id track_id
              (close_media_section mid r).1))
        k o) in
    (
      f,
      length-Shown _ _ u.shown
          ∙ add_close_length mid new slots i h.well.head_open p
          ∙ sym (length-Shown _ _ h.shown),
    )
