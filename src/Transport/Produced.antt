-- ===== src/Transport/Produced.antt =====
-- What SendTransport::Produce leaves behind when it throws.
use libmediasouphandler.Base.{
  ℕ, String, Bool, true, false, Option, none, some, List, ◌≡◌, refl, sym, ◌∙◌, ap, ◌⊎◌, inl, inr,
  Bool-cases,
}
use libmediasouphandler.Base.Result.{Error, Result, ok, err, Result-cases}
use libmediasouphandler.Base.State.{◌>>=◌}
use libmediasouphandler.Json.{Json}
use libmediasouphandler.Track.{Tracks}
use libmediasouphandler.Ortc.Validate.Params.{validate_rtp_parameters}
use libmediasouphandler.Transport.{
  Transport, produce, normalize_all, settle, on_handler, is_client_error, valid_options,
}
use libmediasouphandler.Transport.Handlers.{SendOps, SendResult, Encoding}

abbrev thrown : Error → Result SendResult
thrown e = err e

same_error : (x y : Error) → thrown x ≡ thrown y → x ≡ y
same_error x y h = cc

module _ {H F X : Type 0} (fresh : X) (ops : SendOps H (Encoding F X)) where
  -- Nothing was sent, Send has thrown, or what it has sent was given to StopSending; each with the handler
  -- as that has left it.
  abbrev pub Undone : ℕ → List (Encoding F X) → Option Json → Option Json → Error → H → H → Type 0
  Undone track encodings options codec e h h' =
      let sent = ops.send track (normalize_all fresh ops encodings) options codec h in
      (sent ≡ (err e, h'))
      ⊎ (r : SendResult) × (x : Error) × (sent.0 ≡ ok r)
        × (validate_rtp_parameters r.rtp_parameters ≡ err x)
        × (is_client_error x ≡ true)
        × (h' ≡ (ops.stop_sending r.local_id sent.1).1)
        × ((e ≡ x) ⊎ ((ops.stop_sending r.local_id sent.1).0 ≡ err e))

  settle-throws :
      (t : Transport H) (r : SendResult) (v : Result Json) (e : Error)
      → (settle fresh ops r v t).0 ≡ err e
      → is_client_error e ≡ true
      → (x : Error) × (v ≡ err x)
        × (is_client_error x ≡ true)
        × ((settle fresh ops r v t).1.handler ≡ (ops.stop_sending r.local_id t.handler).1)
        × ((e ≡ x) ⊎ ((ops.stop_sending r.local_id t.handler).0 ≡ err e))
  settle-throws t r (ok p) e q c = cc
  settle-throws t r (err x) e q c = elim (Bool-cases (is_client_error x)) [
    | inr d ↦
        let same : thrown x ≡ thrown e = rw d at q in let equal : x ≡ e = same_error x e same in cc
    | inl d ↦ elim (Result-cases (ops.stop_sending r.local_id t.handler).0) [
      | inl (y, p) ↦
          let same : thrown y ≡ thrown e = rw (d, p) at q in
          (x, refl, d, rw (d, p) refl, inr (p ∙ ap err (same_error y e same)))
      | inr (u, p) ↦
          let same : thrown x ≡ thrown e = rw (d, p) at q in
          (x, refl, d, rw (d, p) refl, inl (sym (same_error x e same)))
    ]
  ]

  sent-Undone :
      (t : Transport H) (n : ℕ) (encodings : List (Encoding F X)) (options codec : Option Json)
      (e : Error)
      → let out =
          (on_handler (ops.send n (normalize_all fresh ops encodings) options codec) >>= λ r.
          settle fresh ops r (validate_rtp_parameters r.rtp_parameters))
            t in
        out.0 ≡ err e
        → is_client_error e ≡ true
        → Undone n encodings options codec e t.handler out.1.handler
  sent-Undone t n encodings options codec e q c = elim (Result-cases sent.0) [
    | inl (x, p) ↦
        let same : thrown x ≡ thrown e = rw p at q in rw p (inl (ap (λ y. (y, sent.1)) same))
    | inr (r, p) ↦
        let q' = rw p at q in
        let (x, v, d, h, w) =
          settle-throws (record t { handler = sent.1 }) r (validate_rtp_parameters r.rtp_parameters)
            e q' c in
        rw p (inr (r, x, refl, v, d, h, w))
  ]
    where
      sent : Result SendResult × H
      sent = ops.send n (normalize_all fresh ops encodings) options codec t.handler

  -- Where Produce throws an exception of the program's own classes, the transport is as it was, or the
  -- track and the options passed the tests, and Send was called for that track with the encodings
  -- normalized, the validated options and the codec. Then either Send has thrown the exception, and the
  -- handler is as Send has left it; or Send has returned RTP parameters that are refused with such an
  -- exception, StopSending was called with the local id that Send returned, the handler is as that call
  -- has left it, and what is thrown is the refusal, unless StopSending has thrown.
  pub produce_undoes :
      (tracks : Tracks) (can : String → Bool) (track : Option ℕ) (encodings : List (Encoding F X))
      (options codec : Option Json) (t : Transport H) (e : Error)
      → let out = produce fresh ops tracks can track encodings options codec t in
        out.0 ≡ err e
        → is_client_error e ≡ true
        → (out.1 ≡ t)
          ⊎ (n : ℕ) × (options' : Option Json) × (track ≡ some n)
            × (valid_options options ≡ ok options')
            × Undone n encodings options' codec e t.handler out.1.handler
  unfolding produce
  produce_undoes tracks can none encodings options codec t e q c = elim (Bool-cases t.closed) [
    | inl d ↦ rw d (inl refl)
    | inr d ↦ rw d (inl refl)
  ]
  produce_undoes tracks can (some n) encodings options codec t e q c = elim (Bool-cases t.closed) [
    | inl d ↦ rw d (inl refl)
    | inr d ↦ elim (Bool-cases (tracks.ended n)) [
      | inl f ↦ rw (d, f) (inl refl)
      | inr f ↦ elim (Bool-cases (can (tracks.kind n))) [
        | inr k ↦ rw (d, f, k) (inl refl)
        | inl k ↦ elim (Result-cases (valid_options options)) [
          | inl (x, o) ↦ rw (d, f, k, o) (inl refl)
          | inr (options', o) ↦
              let q' = rw (d, f, k, o) at q in
              rw (d, f, k, o)
                (inr (
                  n,
                  options',
                  refl,
                  refl,
                  sent-Undone (record t { closed = false }) n encodings options' codec e q' c,
                ))
        ]
      ]
    ]
  ]
