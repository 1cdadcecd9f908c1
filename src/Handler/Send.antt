-- ===== src/Handler/Send.antt =====
-- The class SendHandler of src/Handler.cpp and its Send; Handler.Senders has what is done to what is
-- sent, Handler.Channels has SendDataChannel.
use libmediasouphandler.Base.{
  ℕ, ℤ, String, Bool, true, false, ◌&&◌, Option, none, some, List, [], ◌∷◌, if◌then◌else◌, ltb,
}
use libmediasouphandler.Base.Int.{pos, negsuc, to_unsigned}
use libmediasouphandler.Base.Text.{matches_nocase}
use libmediasouphandler.Base.Result.{Result, ok, err, error}
use libmediasouphandler.Base.Result as Result
use libmediasouphandler.Base.State.{Method, ◌>>=◌, ◌>>◌, lift, pure, read, modify}
use libmediasouphandler.Json.{Json, str, element, assign_member}
use libmediasouphandler.Ortc.Match.{H264}
use libmediasouphandler.Sdp.RemoteSdp.{get_next_media_section_idx, send, get_sdp}
use libmediasouphandler.Sdp.RemoteSdp.Store.{insert}
use libmediasouphandler.Sdp.Utils.Simulcast.{add_legacy_simulcast}
use libmediasouphandler.Transport.Handlers.{SendResult}
use libmediasouphandler.Transport.{present_track}
use libmediasouphandler.Handler.{Handler, on_pc, on_sdp, ask, present_mid, ensure_transport}
use libmediasouphandler.Handler.Connection.{Peer, SdpTransform, offer, answer, RtpEncoding}
use libmediasouphandler.Handler.Encodings.{
  name_encodings, spatial_layers, with_codecs, first_mime, media_at, put_media_at,
  complete_parameters,
}

pub record SendHandler (P : Type 0) : Type 0 where
  pub base : Handler P
  pub sending_rtp_parameters_by_kind : Json
  pub sending_remote_rtp_parameters_by_kind : Json

-- What is undone, should a call throw.
abbrev pub undoing : {S A : Type 0} → (S → S) → Method S A → Method S A
undoing undo call s =
    let (r, s') = call s in elim r [ ok a ↦ (ok a, s') | err e ↦ (err e, undo s') ]

module _ {P : Type 0} where
  abbrev pub on_base : {A : Type 0} → Method (Handler P) A → Method (SendHandler P) A
  on_base call s = let (r, base) = call s.base in (r, record s { base = base })

  abbrev given_kind :
      (Json → SendHandler P → SendHandler P)
      → SendHandler P
      → Result (Json × Json)
      → Result Json × SendHandler P
  given_kind put s (ok (by_kind, parameters)) = (ok parameters, put by_kind s)
  given_kind put s (err e) = (err e, s)

  -- sendingRtpParametersByKind[kind] and sendingRemoteRtpParametersByKind[kind], which put null in for
  -- a kind that is not there.
  unfoldable pub parameters_of : String → Method (SendHandler P) Json
  unfolding element
  parameters_of kind s =
      given_kind (λ by_kind t. record t { sending_rtp_parameters_by_kind = by_kind }) s
        (element kind s.sending_rtp_parameters_by_kind)

  unfoldable pub remote_parameters_of : String → Method (SendHandler P) Json
  unfolding element
  remote_parameters_of kind s =
      given_kind (λ by_kind t. record t { sending_remote_rtp_parameters_by_kind = by_kind }) s
        (element kind s.sending_remote_rtp_parameters_by_kind)

abbrev pub created : Option ℕ → Result ℕ
created none = err (error "error creating transceiver")
created (some transceiver) = ok transceiver

abbrev is_single : {A : Type 0} → List A → Bool
is_single (e ∷ []) = true
is_single _ = false

abbrev several : ℤ → Bool
several (pos n) = ltb 1 n
several (negsuc n) = false

module _ {P D C Y Q : Type 0} (peer : Peer P D C Y Q) (lib : SdpTransform) where
  -- The local description is parsed, and what it holds is not used.
  abbrev pub local_sdp : Handler P → Result Json
  local_sdp h = Result.◌>>=◌ (peer.get_local_description h.pc) lib.parse

  -- The remote description's text is set as the answer.
  unfoldable pub answer_offer : Method (Handler P) (Unit {0})
  unfolding get_sdp
  answer_offer = do
    text ← on_sdp (get_sdp lib.write)
    on_pc (peer.set_remote_description answer text)

  -- The offer again, after a change of the remote description.
  unfoldable pub offer_again : Bool → Method (Handler P) (Unit {0})
  unfolding answer_offer
  offer_again restart = do
    text ← on_pc (peer.create_offer restart)
    on_pc (peer.set_local_description offer text)
    local ← ask local_sdp
    answer_offer

  unfoldable pub simulcast_offer : ℕ → ℤ → String → Result String
  unfolding media_at add_legacy_simulcast put_media_at
  simulcast_offer idx layers text = Result.◌>>=◌ (lib.parse text) λ sdp.
      Result.◌>>=◌ (media_at idx sdp) λ media.
        Result.◌>>=◌ (add_legacy_simulcast (to_unsigned 8 layers) media)
          λ media'. Result.◌>>=◌ (put_media_at idx media' sdp) λ sdp'. ok (lib.write sdp')

  -- The offer, with the streams of VP9 with SVC in it, set; the transceiver then has its mid.
  unfoldable pub set_offer :
      ℕ → ℤ → Bool → String → Json → ℕ → Method (Handler P) (String × Bool × Json)
  unfolding simulcast_offer assign_member
  set_offer idx layers svc text parameters transceiver = do
    text' ← lift (if svc then simulcast_offer idx layers text else ok text)
    on_pc (peer.set_local_description offer text')
    mid ← ask (λ h. present_mid (peer.mid h.pc transceiver))
    parameters' ← lift (assign_member "mid" (some (str mid)) parameters)
    pure (mid, svc, parameters')

  -- The block that is tried: the mid, whether VP9 with SVC is sent as simulcast, and the parameters
  -- with the mid.
  unfoldable pub try_offer :
      ℕ → List (RtpEncoding Y) → Json → ℕ → Method (Handler P) (String × Bool × Json)
  unfolding ensure_transport spatial_layers first_mime matches_nocase set_offer
  try_offer idx es parameters transceiver = do
    text ← on_pc (peer.create_offer false)
    local ← lift (lib.parse text)
    ensure_transport peer lib "server" local
    layers ← lift (spatial_layers es)
    mime ← lift (first_mime parameters)
    set_offer idx layers (is_single es && several layers && matches_nocase mime "video/vp9") text
        parameters transceiver

  unfoldable pub undo_transceiver : ℕ → Handler P → Handler P
  undo_transceiver transceiver h = record h {
    pc = peer.set_track (peer.sender transceiver) none (peer.set_inactive transceiver h.pc);
  }

  -- What follows the block.
  unfoldable pub finish_send :
      ℕ
      → String
      → List (RtpEncoding Y)
      → Option Json
      → Json
      → ℕ
      → String × Bool × Json
      → Method (Handler P) SendResult
  unfolding media_at complete_parameters send answer_offer insert
  finish_send idx reuse_mid es options remote transceiver (mid, svc, parameters) = do
    local ← ask local_sdp
    media ← lift (media_at idx local)
    complete ← lift (complete_parameters svc es media parameters)
    sent ← on_sdp (send lib.show_float media reuse_mid complete remote options)
    answer_offer
    modify (λ h. record h { map_mid_transceiver = insert mid transceiver h.map_mid_transceiver })
    pure (record { local_id = mid; rtp_sender = peer.sender transceiver; rtp_parameters = sent })

  unfoldable pub send_prepared :
      ℕ → List (RtpEncoding Y) → Option Json → Json → Json → Method (Handler P) SendResult
  unfolding get_next_media_section_idx try_offer undo_transceiver finish_send
  send_prepared track es options parameters remote = do
    (idx, reuse_mid) ← ask (λ h. get_next_media_section_idx h.remote_sdp)
    made ← on_pc (peer.add_track track es)
    transceiver ← lift (created made)
    tried ← undoing (undo_transceiver transceiver) (try_offer idx es parameters transceiver)
    finish_send idx reuse_mid es options remote transceiver tried

  -- Send. No encodings stand for the null pointer too, which no test tells from them.
  unfoldable pub send_track :
      H264
      → Option ℕ
      → List (RtpEncoding Y)
      → Option Json
      → Option Json
      → Method (SendHandler P) SendResult
  unfolding name_encodings parameters_of remote_parameters_of with_codecs send_prepared
  send_track h264 track encodings options codec = do
    t ← lift (present_track track)
    kind ← read (λ s. peer.track_kind s.base.pc t)
    given ← parameters_of kind
    parameters ← lift (with_codecs h264 codec given)
    given_remote ← remote_parameters_of kind
    remote ← lift (with_codecs h264 codec given_remote)
    on_base (send_prepared t (name_encodings encodings) options parameters remote)
