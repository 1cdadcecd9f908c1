-- ===== src/Handler/DataLimits.antt =====
-- When SendTransport::ProduceData of src/Transport.cpp returns, by what SendHandler::SendDataChannel of
-- src/Handler.cpp does for it.
use libmediasouphandler.Base.{
  ℤ, ◌%◌, ◌^◌, String, Bool, true, false, not, ◌&&◌, ◌||◌, ◌≡◌, refl, sym, ap, ◌∙◌, arith, inl, inr,
  Bool-cases, if◌then◌else◌,
}
use libmediasouphandler.Base.Result.{Result, ok, err, Result-cases}
use libmediasouphandler.Base.State.{◌>>◌, pure}
use libmediasouphandler.Json.{obj}
use libmediasouphandler.Ortc.Validate.Sctp.{validate_sctp_stream_parameters}
use libmediasouphandler.SendTransport.{
  DataChannelInit, channel_init, stream_parameters, next_stream_id, is_zero, is_minus_one,
  unless_zero,
}
use libmediasouphandler.SendTransport.Limits.{
  returned, allowed, given, allowed_init, stream_allowed, given-unless_zero,
}
use libmediasouphandler.Handler.{Handler}
use libmediasouphandler.Handler.Connection.{Peer, SdpTransform}
use libmediasouphandler.Handler.Channels.{
  DataChannel, produce_data, send_channel, send_section, unless_section,
}
use libmediasouphandler.Handler.StreamIds.{channel_made}

-- What ProduceData asks for.
abbrev pub asked_init : String → Bool → ℤ → ℤ → DataChannelInit
asked_init protocol ordered r l = record {
  protocol = protocol;
  ordered = ordered;
  max_retransmits = unless_zero r;
  max_retransmit_time = unless_zero l;
}

asked-allowed :
    (protocol : String) (ordered : Bool) (r l : ℤ)
    → allowed_init (asked_init protocol ordered r l)
      ≡ allowed ordered (not (is_zero l)) (not (is_zero r))
asked-allowed protocol ordered r l =
    ap (λ g. allowed ordered g (given (unless_zero r))) (given-unless_zero l)
    ∙ ap (λ g. allowed ordered (not (is_zero l)) g) (given-unless_zero r)

both_given : (m z x y : Bool) → (not m && not z) ≡ true → false ≡ ((z && x) && y)
both_given m z x y e = ground (arith, e)

no_lifetime :
    (ordered z : Bool) (r : ℤ)
    → (not (is_minus_one r) && not z) ≡ false
    → allowed ordered (not z) (not (is_zero r)) ≡ (z && (is_zero r || not ordered))
no_lifetime ordered z r e = ground (arith, e)

module _ {P D C Y Q : Type 0} (peer : Peer P D C Y Q) (lib : SdpTransform) where
  -- The handler when the channel is made.
  abbrev pub with_channel : String → DataChannelInit → Handler P → Handler P
  with_channel label init h = record h {
    pc = (channel_made peer lib label init h).1;
    next_send_sctp_stream_id = next_stream_id h.next_send_sctp_stream_id;
  }

  -- The peer connection makes the channel, and its section is there or is negotiated.
  abbrev pub is_settled : String → DataChannelInit → Handler P → Bool
  is_settled label init h =
      returned (channel_made peer lib label init h).0
      && (h.has_data_channel_media_section
          || returned (send_section peer lib (with_channel label init h)).0)

  after_channel :
      (channel : DataChannel D) (h : Handler P)
      → returned ((unless_section peer lib (send_section peer lib) >> pure channel) h).0
        ≡ (h.has_data_channel_media_section || returned (send_section peer lib h).0)
  after_channel channel h = branches h.has_data_channel_media_section (send_section peer lib h)
    where
      branches :
          (b : Bool) (out : Result (Unit {0}) × Handler P)
          → returned (((λ s. if b then (ok tt, s) else out) >> pure channel) h).0
            ≡ (b || returned out.0)
      branches true out = refl
      branches false (ok u, s) = refl
      branches false (err x, s) = refl

  send_channel-returned :
      (label : String) (init : DataChannelInit) (h : Handler P)
      → returned (send_channel peer lib label init h).0
        ≡ (allowed_init init && is_settled label init h)
  unfolding send_channel
  send_channel-returned label init h =
      elim (Result-cases (
        validate_sctp_stream_parameters
          (obj (stream_parameters (h.next_send_sctp_stream_id % 2 ^ 16) init)))) [
            | inl (x, q) ↦
                let refused : allowed_init init ≡ false =
                  sym (stream_allowed (h.next_send_sctp_stream_id % 2 ^ 16) init) ∙ ap returned q in
                rw (send_channel, q, refused) refl
            | inr (parameters, q) ↦
                let fits : allowed_init init ≡ true =
                  sym (stream_allowed (h.next_send_sctp_stream_id % 2 ^ 16) init) ∙ ap returned q in
                elim (Result-cases (channel_made peer lib label init h).0) [
                  | inl (x, t) ↦ rw (send_channel, q, t, fits) refl
                  | inr (d, t) ↦
                      rw (send_channel, q, t, fits)
                        (after_channel
                          (record { data_channel = d; sctp_stream_parameters = parameters })
                          (with_channel label init h))
                ]
          ]

  -- ProduceData of a transport with SCTP returns if and only if maxPacketLifeTime is 0, maxRetransmits
  -- is 0 or the channel is not ordered, the peer connection makes the channel, and the section of the
  -- data channels is there already or its negotiation returns; so no lifetime is ever accepted.
  pub produce_data_iff :
      (label protocol : String) (ordered : Bool) (r l : ℤ) (h : Handler P)
      → returned (produce_data peer lib true label protocol ordered r l h).0 ≡ (
          (is_zero l && (is_zero r || not ordered))
          && is_settled label (asked_init protocol ordered r l) h)
  unfolding produce_data channel_init
  produce_data_iff label protocol ordered r l h =
      elim (Bool-cases (not (is_minus_one r) && not (is_zero l))) [
        | inl b ↦ rw b (both_given (is_minus_one r) (is_zero l) _ _ b)
        | inr b ↦ rw b (
            send_channel-returned label (asked_init protocol ordered r l) h
            ∙ ap (λ a. a && is_settled label (asked_init protocol ordered r l) h)
                (asked-allowed protocol ordered r l ∙ no_lifetime ordered (is_zero l) r b))
      ]
