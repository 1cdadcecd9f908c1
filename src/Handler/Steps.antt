-- ===== src/Handler/Steps.antt =====
-- What the negotiations of src/Handler.cpp keep, given that each of their steps keeps it.
use libmediasouphandler.Base.{ℕ, ℤ, String, Bool, false, some, List, if◌then◌else◌}
use libmediasouphandler.Base.Result.{ok}
use libmediasouphandler.Base.State.{Keeps, Keeps-bind, Keeps-lift}
use libmediasouphandler.Json.{Json, str, assign_member}
use libmediasouphandler.Sdp.RemoteSdp.{get_sdp}
use libmediasouphandler.Handler.{Handler, on_pc, on_sdp, ask, present_mid, ensure_transport}
use libmediasouphandler.Handler.Connection.{Peer, SdpTransform, SdpType, offer, answer, RtpEncoding}
use libmediasouphandler.Handler.Send.{
  local_sdp, answer_offer, offer_again, simulcast_offer, set_offer, try_offer,
}
use libmediasouphandler.Handler.Recv.{offer_remote, answer_again, negotiate_receive}
use libmediasouphandler.Handler.Answer.{settle_answer}
use libmediasouphandler.Handler.Encodings.{spatial_layers, first_mime}

module _ {P D C Y Q : Type 0} (peer : Peer P D C Y Q) (lib : SdpTransform) where
  pub record Steps (I : Handler P → Type 0) : Type 0 where
    pub offered : (restart : Bool) → Keeps I (on_pc (peer.create_offer restart))
    pub answered : Keeps I (on_pc peer.create_answer)
    pub local_set :
        (t : SdpType) (text : String) → Keeps I (on_pc (peer.set_local_description t text))
    pub remote_set :
        (t : SdpType) (text : String) → Keeps I (on_pc (peer.set_remote_description t text))
    pub printed : Keeps I (on_sdp (get_sdp lib.write))
    pub ensured : (own : String) (local : Json) → Keeps I (ensure_transport peer lib own local)

  module _ (I : Handler P → Type 0) (steps : Steps I) where
    pub answer_offer-Keeps : Keeps I (answer_offer peer lib)
    unfolding answer_offer
    answer_offer-Keeps =
        Keeps-bind I (on_sdp (get_sdp lib.write))
          (λ text. on_pc (peer.set_remote_description answer text)) steps.printed
          λ text. steps.remote_set answer text

    pub offer_again-Keeps : (restart : Bool) → Keeps I (offer_again peer lib restart)
    unfolding offer_again
    offer_again-Keeps restart =
        Keeps-bind I (on_pc (peer.create_offer restart)) _ (steps.offered restart) λ text.
          Keeps-bind I (on_pc (peer.set_local_description offer text)) _ (steps.local_set _ text)
            λ set. Keeps-bind I (ask (local_sdp peer lib)) _ (λ t j. j) λ local. answer_offer-Keeps

    pub offer_remote-Keeps : Keeps I (offer_remote peer lib)
    unfolding offer_remote
    offer_remote-Keeps =
        Keeps-bind I (on_sdp (get_sdp lib.write))
          (λ text. on_pc (peer.set_remote_description offer text)) steps.printed
          λ text. steps.remote_set offer text

    pub answer_again-Keeps : Keeps I (answer_again peer lib)
    unfolding answer_again
    answer_again-Keeps = Keeps-bind I (offer_remote peer lib) _ offer_remote-Keeps λ set.
        Keeps-bind I (on_pc peer.create_answer) _ steps.answered λ text. steps.local_set _ text

    pub negotiate_receive-Keeps :
        (local_id : String) (parameters : Json)
        → Keeps I (negotiate_receive peer lib local_id parameters)
    unfolding negotiate_receive
    negotiate_receive-Keeps local_id parameters =
        Keeps-bind I (offer_remote peer lib) _ offer_remote-Keeps λ set.
          Keeps-bind I (on_pc peer.create_answer) _ steps.answered λ text.
            Keeps-lift I (lib.parse text) _ λ local.
              Keeps-lift I (settle_answer lib local_id parameters local) _ λ local'.
                Keeps-bind I (ensure_transport peer lib "client" local') _
                  (steps.ensured "client" local') λ ready. steps.local_set _ (lib.write local')

    set_offer-Keeps :
        (idx : ℕ) (layers : ℤ) (svc : Bool) (text : String) (parameters : Json) (transceiver : ℕ)
        → Keeps I (set_offer peer lib idx layers svc text parameters transceiver)
    unfolding set_offer
    set_offer-Keeps idx layers svc text parameters transceiver =
        Keeps-lift I (if svc then simulcast_offer peer lib idx layers text else ok text) _ λ text'.
          Keeps-bind I (on_pc (peer.set_local_description offer text')) _
            (steps.local_set offer text')
            λ set.
              Keeps-bind I (ask (λ h. present_mid (peer.mid h.pc transceiver))) _ (λ t j. j)
                λ mid.
                  Keeps-lift I (assign_member "mid" (some (str mid)) parameters) _
                    λ parameters' t j. j

    pub try_offer-Keeps :
        (idx : ℕ) (es : List (RtpEncoding Y)) (parameters : Json) (transceiver : ℕ)
        → Keeps I (try_offer peer lib idx es parameters transceiver)
    unfolding try_offer
    try_offer-Keeps idx es parameters transceiver =
        Keeps-bind I (on_pc (peer.create_offer false)) _ (steps.offered false) λ text.
          Keeps-lift I (lib.parse text) _ λ local.
            Keeps-bind I (ensure_transport peer lib "server" local) _ (steps.ensured "server" local)
              λ ready. Keeps-lift I (spatial_layers es) _ λ layers.
                Keeps-lift I (first_mime parameters) _
                  λ mime. set_offer-Keeps idx layers _ text parameters transceiver
