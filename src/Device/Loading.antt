-- ===== src/Device/Loading.antt =====
-- Load: a device is loaded once, and what it then says agrees with its extended capabilities.
use libmediasouphandler.Base.{
  String, Bool, true, false, ◌≡◌, refl, sym, ap, subst, ◌==◌, if◌then◌else◌,
}
use libmediasouphandler.Base.Result.{Error, Result, ok, err, type_error, invalid_state_error}
use libmediasouphandler.Base.State.{Method, ◌>>=◌, lift}
use libmediasouphandler.Json.{Json}
use libmediasouphandler.Ortc.Match.{H264}
use libmediasouphandler.Ortc.Extended.{get_extended_rtp_capabilities}
use libmediasouphandler.Ortc.Recv.{get_recv_rtp_capabilities}
use libmediasouphandler.Ortc.Send.{can_send}
use libmediasouphandler.Ortc.Validate.Params.{validate_rtp_capabilities}
use libmediasouphandler.Ortc.Validate.Sctp.{validate_sctp_capabilities}
use libmediasouphandler.Device.{Device, load, load_router, can_produce, native_sctp_capabilities}

-- A predicate on what a method returns and leaves.
abbrev Outcome : Type 1
Outcome = Result (Unit {0}) × Device → Type 0

-- One call after another, by what the first returns.
lift_cases :
    {A : Type 0} (P : Outcome) (r : Result A) (f : A → Method Device (Unit {0})) (d : Device)
    → ((e : Error) → r ≡ err e → P (err e, d))
    → ((a : A) → r ≡ ok a → P (f a d))
    → P ((lift r >>= f) d)
lift_cases P (ok a) f d fails goes = goes a refl
lift_cases P (err e) f d fails goes = fails e refl

-- What a device that is loaded says of itself, by its extended capabilities.
abbrev pub Consistent : Device → Type 0
Consistent d =
    (recv : Json) × (can_send "audio" d.extended_rtp_capabilities ≡ ok d.can_produce_audio)
    × (can_send "video" d.extended_rtp_capabilities ≡ ok d.can_produce_video)
    × (get_recv_rtp_capabilities d.extended_rtp_capabilities ≡ ok recv)
    × (validate_rtp_capabilities recv ≡ ok d.recv_rtp_capabilities)
    × (validate_sctp_capabilities native_sctp_capabilities ≡ ok d.sctp_capabilities)

module _ (h264 : H264) (native_rtp : Result Json) where
  -- A failed load leaves the flag as it was; one that returns leaves a consistent device.
  abbrev Loads : Json → Device → Outcome
  Loads router d (ok u, d') =
      (d'.loaded ≡ true)
      × ((local : Json) × (remote : Json) × (native : Json) × (native_rtp ≡ ok native)
          × (validate_rtp_capabilities native ≡ ok local)
          × (validate_rtp_capabilities router ≡ ok remote)
          × (get_extended_rtp_capabilities h264 local remote ≡ ok d'.extended_rtp_capabilities))
      × Consistent d'
  Loads router d (err e, d') = d'.loaded ≡ d.loaded

  load_router-Loads :
      (router : Json) (d : Device) → Loads router d (load_router h264 native_rtp router d)
  unfolding load_router
  load_router-Loads router d =
      let P = Loads router d in
      lift_cases P (validate_rtp_capabilities router) _ _ (λ e _. refl)
        λ remote r.
          lift_cases P native_rtp _ _ (λ e _. refl)
            λ native n.
              lift_cases P (validate_rtp_capabilities native) _ _ (λ e _. refl)
                λ local l.
                  lift_cases P (get_extended_rtp_capabilities h264 local remote) _ _ (λ e _. refl)
                    λ extended x.
                      lift_cases P (can_send "audio" extended) _ _ (λ e _. refl)
                        λ audio a.
                          lift_cases P (can_send "video" extended) _ _ (λ e _. refl)
                            λ video v.
                              lift_cases P (get_recv_rtp_capabilities extended) _ _ (λ e _. refl)
                                λ recv c.
                                  lift_cases P (validate_rtp_capabilities recv) _ _ (λ e _. refl)
                                    λ recv' c'.
                                      lift_cases P
                                        (validate_sctp_capabilities native_sctp_capabilities) _ _
                                        (λ e _. refl)
                                        λ sctp s. (
                                          refl,
                                          (local, remote, native, n, l, r, x),
                                          (recv, a, v, c, c', s),
                                        )

  -- What a successful Load leaves: the device was not loaded before and is loaded now; its extended
  -- capabilities are those of the validated native and router capabilities, and what it says of itself
  -- is consistent with them.
  abbrev pub LoadSpec : Json → Device → Device → Type 0
  LoadSpec router d d' =
      (d.loaded ≡ false)
      × (d'.loaded ≡ true)
      × ((local : Json) × (remote : Json) × (native : Json) × (native_rtp ≡ ok native)
          × (validate_rtp_capabilities native ≡ ok local)
          × (validate_rtp_capabilities router ≡ ok remote)
          × (get_extended_rtp_capabilities h264 local remote ≡ ok d'.extended_rtp_capabilities))
      × Consistent d'

  by_flag :
      (router : Json) (d d' : Device) (b : Bool)
      → d.loaded ≡ b
      → (if b
          then (err (invalid_state_error "already loaded"), d)
          else load_router h264 native_rtp router d)
        ≡ (ok tt, d')
      → (d.loaded ≡ false) × (load_router h264 native_rtp router d ≡ (ok tt, d'))
  by_flag router d d' true h e = cc
  by_flag router d d' false h e = (h, e)

  -- If Load returns, the device was not loaded before and is loaded now, its extended capabilities are
  -- those that getExtendedRtpCapabilities gives for the validated native and router capabilities, and
  -- whether it can produce audio or video, its receiving capabilities, validated, and its SCTP
  -- capabilities are what canSend, getRecvRtpCapabilities and the SCTP validator give for them.
  pub load_consistent :
      (router : Json) (d d' : Device)
      → load h264 native_rtp router d ≡ (ok tt, d')
      → LoadSpec router d d'
  unfolding load
  load_consistent router d d' e =
      let (closed, e') = by_flag router d d' d.loaded refl e in
      let (on, from, consistent) = subst (Loads router d) e' (load_router-Loads router d) in
      (closed, on, from, consistent)

  failed_flag :
      (router : Json) (d : Device) (b : Bool)
      → (r : Result (Unit {0}) × Device)
      → (if b
          then (err (invalid_state_error "already loaded"), d)
          else load_router h264 native_rtp router d)
        ≡ r
      → Loads router d (load_router h264 native_rtp router d)
      → (x : Error) → r.0 ≡ err x
      → r.1.loaded ≡ d.loaded
  failed_flag router d true r e l x f = ap (λ s. s.1.loaded) (sym e)
  failed_flag router d false (ok u, d') e l x f = cc
  failed_flag router d false (err y, d') e l x f = subst (Loads router d) e l

  -- If Load throws, the device is loaded afterwards exactly if it was before: no error, of either side's
  -- capabilities, of the matching or of the native code, leaves a device that counts as loaded.
  pub load_fails :
      (router : Json) (d : Device) (x : Error)
      → (load h264 native_rtp router d).0 ≡ err x
      → (load h264 native_rtp router d).1.loaded ≡ d.loaded
  unfolding load
  load_fails router d x f = failed_flag router d d.loaded _ refl (load_router-Loads router d) x f

-- A loaded device whose state is consistent answers CanProduce for audio and for video as canSend does
-- for its extended capabilities, and throws a type error for any other kind.
pub can_produce-Consistent :
    (d : Device) (kind : String)
    → d.loaded ≡ true
    → Consistent d
    → can_produce kind d ≡ (
        if kind == "audio"
        then can_send "audio" d.extended_rtp_capabilities
        else if kind == "video"
        then can_send "video" d.extended_rtp_capabilities
        else err (type_error "invalid kind"))
unfolding can_produce
can_produce-Consistent d kind h c = rw (h, c.1, c.2)
