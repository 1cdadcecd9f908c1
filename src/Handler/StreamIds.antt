-- ===== src/Handler/StreamIds.antt =====
-- The stream ids that SendHandler of src/Handler.cpp gives its data channels, one after the other.
use libmediasouphandler.Base.{
  ℕ, ◌+◌, ◌%◌, ◌^◌, ◌<◌, some, ◌==◌, String, Bool, true, false, ◌&&◌, List, [], ◌∷◌, ◌≡◌, refl, sym,
  ap, ◌∙◌, arith, inl, inr, if◌then◌else◌, if-cases,
}
use libmediasouphandler.Base.Int.{pos}
use libmediasouphandler.Base.Result.{Result, Result-cases}
use libmediasouphandler.Base.State.{◌>>◌, pure, Keeps, Keeps-bind, Keeps-lift}
use libmediasouphandler.Json.{Json, obj, str, assign_member}
use libmediasouphandler.Ortc.Validate.Sctp.{validate_sctp_stream_parameters}
use libmediasouphandler.SendTransport.{
  DataChannelInit, stream_parameters, next_stream_id, num_streams,
}
use libmediasouphandler.SendTransport.Limits.{returned, allowed_init, stream_allowed}
use libmediasouphandler.Sdp.RemoteSdp.{
  get_next_media_section_idx, send_sctp_association, update_dtls_role,
}
use libmediasouphandler.Sdp.Utils.{extract_dtls_parameters}
use libmediasouphandler.Handler.{
  Handler, on_pc, on_sdp, ask, setup_transport, ensure_transport, dtls_role,
}
use libmediasouphandler.Handler.State.{local_object}
use libmediasouphandler.Handler.Connection.{Peer, SdpTransform, ChannelConfig, offer}
use libmediasouphandler.Handler.Channels.{
  DataChannel, send_channel, send_section, unless_section, application_of,
}
use libmediasouphandler.Handler.Send.{answer_offer}
use libmediasouphandler.Handler.Steps.{Steps, answer_offer-Keeps}

module _ {P D C Y Q : Type 0} (peer : Peer P D C Y Q) (lib : SdpTransform) where
  abbrev NextIs : ℕ → Handler P → Type 0
  NextIs n h = h.next_send_sctp_stream_id ≡ n

  setup_transport-NextIs :
      (n : ℕ) (role : String) (given : Json)
      → Keeps (NextIs n) (setup_transport peer lib role given)
  unfolding setup_transport
  setup_transport-NextIs n role given =
      Keeps-bind (NextIs n) (ask (λ h. local_object peer lib h.pc given)) _ (λ h i. i)
        λ local. Keeps-lift (NextIs n) (extract_dtls_parameters local) _ λ dtls.
          Keeps-lift (NextIs n) (assign_member "role" (some (str role)) dtls) _ λ dtls'.
            Keeps-bind (NextIs n)
              (on_sdp (update_dtls_role (if role == "client" then "server" else "client"))) _
              (λ h i. i)
              λ u. Keeps-bind (NextIs n) (on_pc (peer.on_connect dtls')) _ (λ h i. i) λ v h i. i

  steps-NextIs : (n : ℕ) → Steps peer lib (NextIs n)
  unfolding ensure_transport
  steps-NextIs n = record {
    offered = λ b h i. i;
    answered = λ h i. i;
    local_set = λ t text h i. i;
    remote_set = λ t text h i. i;
    printed = λ h i. i;
    ensured = λ own local h i.
        if-cases (λ (out : Result (Unit {0}) × Handler P). NextIs n out.1) h.transport_ready
          (λ e. i)
          λ e.
            let out = setup_transport peer lib (dtls_role own h) local h in
            Keeps-lift (NextIs n) out.0 (λ unused. pure tt) (λ unused t j. j) out.1
              (setup_transport-NextIs n (dtls_role own h) local h i);
  }

  send_section-NextIs : (n : ℕ) → Keeps (NextIs n) (send_section peer lib)
  unfolding send_section
  send_section-NextIs n =
      Keeps-bind (NextIs n) (on_pc (peer.create_offer false)) _ (λ h i. i)
        λ text. Keeps-lift (NextIs n) (lib.parse text) _ λ local.
          Keeps-bind (NextIs n) (ask (λ h. get_next_media_section_idx h.remote_sdp)) _ (λ h i. i)
            λ idx. Keeps-lift (NextIs n) (application_of local) _ λ media.
              Keeps-bind (NextIs n) (ensure_transport peer lib "server" local) _
                ((steps-NextIs n).ensured "server" local)
                λ u.
                  Keeps-bind (NextIs n) (on_pc (peer.set_local_description offer text)) _ (λ h i. i)
                    λ v.
                      Keeps-bind (NextIs n) (on_sdp (send_sctp_association lib.show_float media)) _
                        (λ h j. j)
                        λ w.
                          Keeps-bind (NextIs n) (answer_offer peer lib) _
                            (answer_offer-Keeps peer lib (NextIs n) (steps-NextIs n)) λ x h j. j

  after_channel-NextIs :
      (n : ℕ) (channel : DataChannel D)
      → Keeps (NextIs n) (unless_section peer lib (send_section peer lib) >> pure channel)
  after_channel-NextIs n channel =
      Keeps-bind (NextIs n) (unless_section peer lib (send_section peer lib)) _
        (λ h i.
          if-cases (λ (out : Result (Unit {0}) × Handler P). NextIs n out.1)
            h.has_data_channel_media_section (λ e. i) λ e. send_section-NextIs n h i)
        λ u h i. i

  -- The channel that is asked for.
  abbrev pub asked_channel : DataChannelInit → Handler P → ChannelConfig
  asked_channel init h = record {
    negotiated = true;
    id = pos (h.next_send_sctp_stream_id % 2 ^ 16);
    init = init;
  }

  abbrev pub channel_made : String → DataChannelInit → Handler P → Result D × P
  channel_made label init h = peer.create_data_channel label (asked_channel init h) h.pc

  -- The limits of the channel are allowed, and the peer connection makes it.
  abbrev pub is_made : String → DataChannelInit → Handler P → Bool
  is_made label init h = allowed_init init && returned (channel_made label init h).0

  send_channel-NextIs :
      (label : String) (init : DataChannelInit) (h : Handler P)
      → (send_channel peer lib label init h).1.next_send_sctp_stream_id ≡ (
          if is_made label init h
          then next_stream_id h.next_send_sctp_stream_id
          else h.next_send_sctp_stream_id)
  unfolding send_channel
  send_channel-NextIs label init h =
      elim (Result-cases (
        validate_sctp_stream_parameters
          (obj (stream_parameters (h.next_send_sctp_stream_id % 2 ^ 16) init)))) [
            | inl (x, q) ↦
                let refused : allowed_init init ≡ false =
                  sym (stream_allowed (h.next_send_sctp_stream_id % 2 ^ 16) init) ∙ ap returned q in
                rw (send_channel, q, refused) refl
            | inr (parameters, q) ↦
                let allowed : allowed_init init ≡ true =
                  sym (stream_allowed (h.next_send_sctp_stream_id % 2 ^ 16) init) ∙ ap returned q in
                elim (Result-cases (channel_made label init h).0) [
                  | inl (x, t) ↦ rw (send_channel, q, t, allowed) refl
                  | inr (d, t) ↦
                      rw (send_channel, q, t, allowed)
                        (after_channel-NextIs (next_stream_id h.next_send_sctp_stream_id)
                          (record { data_channel = d; sctp_stream_parameters = parameters })
                          (record h {
                            pc = (channel_made label init h).1;
                            next_send_sctp_stream_id = next_stream_id h.next_send_sctp_stream_id;
                          })
                          refl)
                ]
          ]

  -- Channels asked for one after the other: the handler at the end, and how many were made.
  abbrev pub after_sends : List (String × DataChannelInit) → Handler P → Handler P
  after_sends [] h = h
  after_sends ((label, init) ∷ rest) h = after_sends rest (send_channel peer lib label init h).1

  abbrev one_if : Bool → ℕ
  one_if true = 1
  one_if false = 0

  abbrev pub made : List (String × DataChannelInit) → Handler P → ℕ
  made [] h = 0
  made ((label, init) ∷ rest) h =
      one_if (is_made label init h) + made rest (send_channel peer lib label init h).1

  stepped :
      (b : Bool) (n n' : ℕ)
      → n < num_streams
      → n' ≡ (if b then next_stream_id n else n)
      → (n' ≡ (n + one_if b) % num_streams) × (n' < num_streams)
  unfolding next_stream_id
  stepped true n n' h e = (ground (arith, h, e), ground (arith, h, e))
  stepped false n n' h e = (ground (arith, h, e), ground (arith, h, e))

  add_cycled :
      (n o m n' : ℕ)
      → n' ≡ (n + o) % num_streams
      → (n' + m) % num_streams ≡ (n + (o + m)) % num_streams
  add_cycled n o m n' h = omega arith

  -- From a next stream id below 1024, after any SendDataChannel calls, returning or throwing, the next id
  -- is that id and the number of the channels made, modulo 1024. A channel is made if the peer connection
  -- returns one, and its limits are allowed: no two limits, and none if it is ordered. Whether the
  -- negotiation of the first channel's section then returns or throws makes no difference.
  pub ids_follow_channels :
      (calls : List (String × DataChannelInit)) (h : Handler P)
      → h.next_send_sctp_stream_id < num_streams
      → (after_sends calls h).next_send_sctp_stream_id
        ≡ (h.next_send_sctp_stream_id + made calls h) % num_streams
  ids_follow_channels [] h b = ground (arith, b)
  ids_follow_channels ((label, init) ∷ rest) h b =
      let h' = (send_channel peer lib label init h).1 in
      let (moved, bound) =
        stepped (is_made label init h) h.next_send_sctp_stream_id h'.next_send_sctp_stream_id b
          (send_channel-NextIs label init h) in
      ids_follow_channels rest h' bound
      ∙ add_cycled h.next_send_sctp_stream_id (one_if (is_made label init h)) (made rest h')
          h'.next_send_sctp_stream_id moved
