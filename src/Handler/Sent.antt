-- ===== src/Handler/Sent.antt =====
-- What Send of src/Handler.cpp makes of the remote description's sections, by the section that the peer
-- connection offers.
use libmediasouphandler.Base.{
  ℕ, String, Bool, false, none, some, Option, List, ◌≡◌, refl, ◌⊎◌, inl, inr, subst, ap,
}
use libmediasouphandler.Base.Text.{is_empty}
use libmediasouphandler.Base.Result.{Error, Result, ok, err, Result-cases}
use libmediasouphandler.Base.State.{Method, continue, ◌>>=◌, ◌>>◌, pure, modify, Keeps, Keeps-bind}
use libmediasouphandler.Json.{Json, find, str}
use libmediasouphandler.Transport.Handlers.{SendResult}
use libmediasouphandler.Sdp.MediaSection.Answer.{new_answer}
use libmediasouphandler.Sdp.RemoteSdp.{send}
use libmediasouphandler.Sdp.RemoteSdp.State.{RemoteSdp}
use libmediasouphandler.Sdp.RemoteSdp.Store.{insert}
use libmediasouphandler.Sdp.Slots.{Slot, position, next_slot, add_slot}
use libmediasouphandler.Sdp.Refines.{Refines}
use libmediasouphandler.Sdp.Refines.Call.{Outcome, send-Outcome, get_next_media_section_idx-Refines}
use libmediasouphandler.Handler.{Handler}
use libmediasouphandler.Handler.Connection.{Peer, SdpTransform, RtpEncoding}
use libmediasouphandler.Handler.Encodings.{media_at, complete_parameters}
use libmediasouphandler.Handler.Send.{
  local_sdp, answer_offer, undoing, undo_transceiver, try_offer, finish_send, send_prepared,
}
use libmediasouphandler.Handler.Sections.{Stands, steps-Stands}
use libmediasouphandler.Handler.Steps.{answer_offer-Keeps, try_offer-Keeps}

-- A call that is undone where it throws, and returns, with what follows it.
undoing-returns :
    {S A B : Type 0} (undo : S → S) (call : Method S A) (rest : A → Method S B) (s s' : S) (a : A)
    → call s ≡ (ok a, s')
    → (undoing undo call >>= rest) s ≡ rest a s'
undoing-returns {S} {A} undo call rest s s' a e =
    let result : (call s).0 ≡ ok a = ap (λ (out : Result A × S). out.0) e in
    let after : (call s).1 ≡ s' = ap (λ (out : Result A × S). out.1) e in
    rw (undoing, result, after) refl

module _ {P D C Y Q : Type 0} (peer : Peer P D C Y Q) (lib : SdpTransform) where
  -- Send has added a slot, or has thrown and left the sections alone.
  abbrev pub Settled : List Slot → String → Result SendResult × Handler P → Type 0
  Settled slots mid out =
      Refines (add_slot mid slots) out.1.remote_sdp
      ⊎ ((e : Error) × (out.0 ≡ err e) × Refines slots out.1.remote_sdp)

  -- What follows the answer.
  abbrev noted : String → ℕ → Json → Handler P → Result SendResult × Handler P
  noted mid transceiver sent =
      modify (λ h. record h { map_mid_transceiver = insert mid transceiver h.map_mid_transceiver })
      >> pure
          (record { local_id = mid; rtp_sender = peer.sender transceiver; rtp_parameters = sent })

  after_answer :
      (slots : List Slot) (mid : String) (transceiver : ℕ) (sent : Json)
      → Keeps (Stands peer lib slots) (answer_offer peer lib >> noted mid transceiver sent)
  after_answer slots mid transceiver sent =
      Keeps-bind (Stands peer lib slots) (answer_offer peer lib) (λ u. noted mid transceiver sent)
        (answer_offer-Keeps peer lib (Stands peer lib slots) (steps-Stands peer lib slots))
        λ u h i. i

  after_send :
      {M : Type 0} (slots : List Slot) (local_id mid : String) (transceiver : ℕ) (h : Handler P)
      (made : Result M) (out : Result Json × RemoteSdp)
      → Refines slots h.remote_sdp
      → Outcome (add_slot mid slots) h.remote_sdp made out
      → Settled slots mid (
          continue out.0
            (λ sent. answer_offer peer lib >> noted local_id transceiver sent)
            (record h { remote_sdp = out.1 }))
  after_send slots local_id mid transceiver h (err e) out r o = rw o (inr (e, refl, r))
  after_send slots local_id mid transceiver h (ok m) out r (a, e, t) = rw e (
      inl (
        after_answer (add_slot mid slots) local_id transceiver a (record h { remote_sdp = out.1 })
          t))

  finish_send-Settled :
      (slots : List Slot) (idx : ℕ) (es : List (RtpEncoding Y)) (options : Option Json)
      (remote : Json) (transceiver : ℕ) (local_id : String) (svc : Bool) (parameters : Json)
      (h : Handler P) (local media : Json) (mid : String)
      → Refines slots h.remote_sdp
      → local_sdp peer lib h ≡ ok local
      → media_at idx local ≡ ok media
      → find "mid" media ≡ some (str mid)
      → is_empty mid ≡ false
      → position mid slots ≡ none
      → Settled slots mid (
          finish_send peer lib idx
            (next_slot 0 slots).1
            es
            options
            remote
            transceiver
            (local_id, svc, parameters)
            h)
  unfolding finish_send
  finish_send-Settled slots idx es options remote transceiver local_id svc parameters h local media
        mid r l m f e n =
      rw (l, m)
        (elim (Result-cases (complete_parameters svc es media parameters)) [
          | inl (x, q) ↦ rw q (inr (x, refl, r))
          | inr (complete, q) ↦ rw q (
              after_send slots local_id mid transceiver h
                (new_answer lib.show_float options h.remote_sdp.ice_parameters
                  h.remote_sdp.ice_candidates h.remote_sdp.dtls_parameters
                  h.remote_sdp.sctp_parameters media complete remote)
                (send lib.show_float media (next_slot 0 slots).1 complete remote options
                  h.remote_sdp)
                r
                (send-Outcome lib.show_float slots h.remote_sdp mid media complete remote options r
                  f e n))
        ])

  -- Send, from the section index on, of a track for which the peer connection makes a transceiver and
  -- whose offer is set, on a handler whose remote description refines slots, where the offered section
  -- has a mid that is a text, not empty and of no slot: either the description refines the slots with
  -- the mid added, in the first closed slot or after the last, whether the answer that follows is set or
  -- refused, or Send throws and the description refines the same slots.
  pub send_prepared-Settled :
      (slots : List Slot) (track : ℕ) (es : List (RtpEncoding Y)) (options : Option Json)
      (parameters remote : Json) (h : Handler P) (pc : P) (transceiver : ℕ)
      (tried : String × Bool × Json) (offered : Handler P) (local media : Json) (mid : String)
      → Refines slots h.remote_sdp
      → peer.add_track track es h.pc ≡ (ok (some transceiver), pc)
      → try_offer peer lib (next_slot 0 slots).0 es parameters transceiver (record h { pc = pc })
        ≡ (ok tried, offered)
      → local_sdp peer lib offered ≡ ok local
      → media_at (next_slot 0 slots).0 local ≡ ok media
      → find "mid" media ≡ some (str mid)
      → is_empty mid ≡ false
      → position mid slots ≡ none
      → let out = send_prepared peer lib track es options parameters remote h in
        Refines (add_slot mid slots) out.1.remote_sdp
        ⊎ ((e : Error) × (out.0 ≡ err e) × Refines slots out.1.remote_sdp)
  unfolding send_prepared
  send_prepared-Settled slots track es options parameters remote h pc transceiver
        (local_id, svc, parameters') offered local media mid r a t l m f e n =
      let kept : Refines slots offered.remote_sdp =
        subst (λ (out : Result (String × Bool × Json) × Handler P). Refines slots out.1.remote_sdp)
          t
          (try_offer-Keeps peer lib (Stands peer lib slots) (steps-Stands peer lib slots)
            (next_slot 0 slots).0 es parameters transceiver (record h { pc = pc }) r) in
      let finish : String × Bool × Json → Method (Handler P) SendResult =
        finish_send peer lib (next_slot 0 slots).0 (next_slot 0 slots).1 es options remote
          transceiver in
      rw
        (
          get_next_media_section_idx-Refines slots h.remote_sdp r,
          a,
          undoing-returns (undo_transceiver peer lib transceiver)
              (try_offer peer lib (next_slot 0 slots).0 es parameters transceiver) finish
              (record h { pc = pc }) offered (local_id, svc, parameters') t,
        )
        (finish_send-Settled slots (next_slot 0 slots).0 es options remote transceiver local_id svc
          parameters' offered local media mid kept l m f e n)
