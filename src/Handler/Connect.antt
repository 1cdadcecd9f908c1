-- ===== src/Handler/Connect.antt =====
-- When the handlers of src/Handler.cpp ask the application to connect: a log has the outcomes of all
-- calls of Handler::PrivateListener's OnConnect, the latest first.
use libmediasouphandler.Base.{
  ℕ, ◌==◌, if-cases, String, Bool, true, false, Option, some, List, [], ◌∷◌, ◌≡◌, refl, sym, subst,
  if◌then◌else◌, inl, inr,
}
use libmediasouphandler.Base.Result.{Result, ok, err, Result-cases}
use libmediasouphandler.Base.State.{
  Method, ◌>>=◌, lift, pure, modify, Keeps, Keeps-lift, Leads, Leads-bind,
}
use libmediasouphandler.Json.{Json, str, assign_member}
use libmediasouphandler.Sdp.RemoteSdp.{update_dtls_role, get_sdp}
use libmediasouphandler.Sdp.RemoteSdp.State.{RemoteSdp}
use libmediasouphandler.Sdp.Utils.{extract_dtls_parameters}
use libmediasouphandler.Handler.{
  Handler, on_pc, on_sdp, ask, dtls_role, setup_transport, ensure_transport,
}
use libmediasouphandler.Handler.State.{local_object}
use libmediasouphandler.Handler.Connection.{
  Peer, SdpTransform, SdpType, RtpEncoding, SenderParameters, Configuration, ChannelConfig,
}
use libmediasouphandler.Handler.Steps.{Steps}

abbrev pub AllFalse : List Bool → Type 0
AllFalse [] = Unit {0}
AllFalse (b ∷ bs) = (b ≡ false) × AllFalse bs

-- Not ready: every call so far has thrown. Ready: the latest has returned, and all before have thrown.
abbrev pub Told : Bool → List Bool → Type 0
Told false log = AllFalse log
Told true [] = ⊥
Told true (b ∷ bs) = (b ≡ true) × AllFalse bs

abbrev pub returned : Result (Unit {0}) → Bool
returned (ok u) = true
returned (err e) = false

module _ {P D C Y Q : Type 0} (peer : Peer P D C Y Q) (log : P → List Bool) where
  abbrev pub Quiet : {A : Type 0} → Method P A → Type 0
  Quiet call = (p : P) → log (call p).1 ≡ log p

  -- OnConnect's outcome is logged, and no other call is.
  pub record LogsConnects : Type 0 where
    pub on_connect :
        (dtls : Json) (p : P)
        → log (peer.on_connect dtls p).1 ≡ returned (peer.on_connect dtls p).0 ∷ log p
    pub get_stats : Quiet peer.get_stats
    pub get_sender_stats : (s : ℕ) → Quiet (peer.get_sender_stats s)
    pub get_receiver_stats : (r : ℕ) → Quiet (peer.get_receiver_stats r)
    pub set_configuration : (c : Configuration C) → Quiet (peer.set_configuration c)
    pub add_track : (t : ℕ) (es : List (RtpEncoding Y)) → Quiet (peer.add_track t es)
    pub create_offer : (b : Bool) → Quiet (peer.create_offer b)
    pub create_answer : Quiet peer.create_answer
    pub set_local_description :
        (t : SdpType) (text : String) → Quiet (peer.set_local_description t text)
    pub set_remote_description :
        (t : SdpType) (text : String) → Quiet (peer.set_remote_description t text)
    pub remove_track : (s : ℕ) (p : P) → log (peer.remove_track s p) ≡ log p
    pub set_inactive : (t : ℕ) (p : P) → log (peer.set_inactive t p) ≡ log p
    pub set_track : (s : ℕ) (t : Option ℕ) (p : P) → log (peer.set_track s t p) ≡ log p
    pub set_parameters :
        (s : ℕ) (q : SenderParameters Y Q) (p : P) → log (peer.set_parameters s q p).1 ≡ log p
    pub create_data_channel :
        (label : String) (c : ChannelConfig) → Quiet (peer.create_data_channel label c)
    pub close : (p : P) → log (peer.close p) ≡ log p

  -- The transport is ready exactly when the application has connected, which it has done once at most.
  abbrev pub ConnectedOnce : Handler P → Type 0
  ConnectedOnce h = Told h.transport_ready (log h.pc)

  -- A call that leaves both alone.
  pub same_log :
      (h : Handler P) (p : P) (sdp : RemoteSdp)
      → log p ≡ log h.pc
      → ConnectedOnce h
      → ConnectedOnce (record h { pc = p; remote_sdp = sdp })
  same_log h p sdp e i = subst (Told h.transport_ready) (sym e) i

  pub on_pc-ConnectedOnce :
      {A : Type 0} (call : Method P A) → Quiet call → Keeps ConnectedOnce (on_pc call)
  on_pc-ConnectedOnce call q h i = same_log h (call h.pc).1 h.remote_sdp (q h.pc) i

  pub on_sdp-ConnectedOnce :
      {A : Type 0} (call : Method RemoteSdp A) → Keeps ConnectedOnce (on_sdp call)
  on_sdp-ConnectedOnce call h i = i

  module _ (lib : SdpTransform) (logs : LogsConnects) where
    abbrev Waiting : Handler P → Type 0
    Waiting h = (h.transport_ready ≡ false) × AllFalse (log h.pc)

    Waiting-ConnectedOnce : (h : Handler P) → Waiting h → ConnectedOnce h
    Waiting-ConnectedOnce h (e, f) = subst (λ b. Told b (log h.pc)) (sym e) f

    connect_told :
        (dtls local : Json)
        → Leads Waiting ConnectedOnce (
            on_pc (peer.on_connect dtls) >>= λ u.
            modify (λ h. record h { transport_ready = true }) >>= λ v. pure local)
    connect_told dtls local h (e, f) = elim (Result-cases (peer.on_connect dtls h.pc).0) [
      | inl (x, q) ↦ rw (q, e) (rw (logs.on_connect dtls h.pc, q) (refl, f))
      | inr (u, q) ↦ rw q (rw (logs.on_connect dtls h.pc, q) (refl, f))
    ]

    setup_told :
        (role : String) (given : Json)
        → Leads Waiting ConnectedOnce (setup_transport peer lib role given)
    unfolding setup_transport
    setup_told role given =
        Leads-bind Waiting ConnectedOnce (ask (λ h. local_object peer lib h.pc given)) _
          Waiting-ConnectedOnce (λ h w. w)
          λ local.
            Leads-bind Waiting ConnectedOnce (lift (extract_dtls_parameters local)) _
              Waiting-ConnectedOnce (λ h w. w)
              λ dtls.
                Leads-bind Waiting ConnectedOnce
                  (lift (assign_member "role" (some (str role)) dtls)) _ Waiting-ConnectedOnce
                  (λ h w. w)
                  λ dtls'.
                    Leads-bind Waiting ConnectedOnce
                      (on_sdp (update_dtls_role (if role == "client" then "server" else "client")))
                      _ Waiting-ConnectedOnce (λ h w. w) λ set. connect_told dtls' local

    ensure_transport-ConnectedOnce :
        (own : String) (local : Json) → Keeps ConnectedOnce (ensure_transport peer lib own local)
    unfolding ensure_transport
    ensure_transport-ConnectedOnce own local h i =
        if-cases (λ (out : Result (Unit {0}) × Handler P). ConnectedOnce out.1) h.transport_ready
          (λ ready. i)
          λ waiting.
            let out = setup_transport peer lib (dtls_role own h) local h in
            Keeps-lift ConnectedOnce out.0 (λ unused. pure tt) (λ unused t j. j) out.1
              (setup_told (dtls_role own h) local h
                (waiting, subst (λ b. Told b (log h.pc)) waiting i))

    pub steps-ConnectedOnce : Steps peer lib ConnectedOnce
    steps-ConnectedOnce = record {
      offered = λ b. on_pc-ConnectedOnce (peer.create_offer b) (logs.create_offer b);
      answered = on_pc-ConnectedOnce peer.create_answer logs.create_answer;
      local_set = λ t text.
          on_pc-ConnectedOnce (peer.set_local_description t text)
            (logs.set_local_description t text);
      remote_set = λ t text.
          on_pc-ConnectedOnce (peer.set_remote_description t text)
            (logs.set_remote_description t text);
      printed = on_sdp-ConnectedOnce (get_sdp lib.write);
      ensured = ensure_transport-ConnectedOnce;
    }
