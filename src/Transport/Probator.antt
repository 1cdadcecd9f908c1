-- ===== src/Transport/Probator.antt =====
-- RecvTransport makes the consumer for RTP probation at most once.
use libmediasouphandler.Base.{
  ℕ, suc, String, false, not, ◌&&◌, ◌||◌, Option, List, [], ◌∷◌, ◌≡◌, refl, ◌∙◌, ap, ◌==◌, inl, inr,
  if-cases, if◌then◌else◌, arith,
}
use libmediasouphandler.Base.Text.{is_empty}
use libmediasouphandler.Base.Result.{Result, ok, err, Result-cases}
use libmediasouphandler.Base.State.{Keeps, Keeps-bind, Keeps-lift, Keeps-guard}
use libmediasouphandler.Json.{Json, is_object}
use libmediasouphandler.Ortc.Receive.{can_receive, generate_probator_rtp_parameters}
use libmediasouphandler.Transport.{
  Transport, consume, ensure_probator, create_probator, on_handler, unless_closed,
  present_parameters, is_runtime_error, caught,
}
use libmediasouphandler.Transport.Handlers.{RecvOps}

-- How often an id stands in a list.
abbrev pub count : String → List String → ℕ
count id [] = 0
count id (x ∷ xs) = if x == id then suc (count id xs) else count id xs

abbrev logged : {R : Type 0} → String → List String → Result R → List String
logged id ids (ok r) = id ∷ ids
logged id ids (err e) = ids

module _ {H R D : Type 0} (ops : RecvOps H R D) (received : H → List String) where
  -- `received` lists the ids for which Receive has returned.
  pub record Logged : Type 0 where
    pub receives :
        (id kind : String) (parameters : Json) (h : H)
        → received (ops.receive id kind parameters h).1
          ≡ logged id (received h) (ops.receive id kind parameters h).0

  -- The probator was received once if the transport says so, and never otherwise.
  abbrev pub ProbatorOnce : Transport H → Type 0
  ProbatorOnce t =
      count "probator" (received t.handler) ≡ (if t.probator_consumer_created then 1 else 0)

  abbrev After : Result (Unit {0}) × Transport H → Type 0
  After out = ProbatorOnce out.1

  count-logged :
      (id : String) (ids : List String) (r : Result R)
      → (id == "probator") ≡ false
      → count "probator" (logged id ids r) ≡ count "probator" ids
  count-logged id ids (ok r) n = rw n refl
  count-logged id ids (err e) n = refl

  receive-Keeps :
      (id kind : String) (parameters : Json)
      → Logged
      → (id == "probator") ≡ false
      → Keeps ProbatorOnce (on_handler (ops.receive id kind parameters))
  receive-Keeps id kind parameters laws n t i =
      ap (count "probator") (laws.receives id kind parameters t.handler)
      ∙ count-logged id (received t.handler) (ops.receive id kind parameters t.handler).0 n
      ∙ i

  unless_closed-Keeps : (message : String) → Keeps ProbatorOnce (unless_closed message)
  unless_closed-Keeps message t i = if-cases After t.closed (λ e. i) λ e. i

  caught-once :
      (t : Transport H) (out : Result (Unit {0}) × Transport H)
      → ProbatorOnce out.1
      → ProbatorOnce (caught (λ s. out) t).1
  caught-once t (ok u, s) i = i
  caught-once t (err e, s) i = if-cases After (is_runtime_error e) (λ c. i) λ c. i

  create_probator-once :
      (kind : String) (parameters : Json) (t : Transport H)
      → Logged
      → t.probator_consumer_created ≡ false
      → ProbatorOnce t
      → ProbatorOnce (create_probator ops kind parameters t).1
  unfolding create_probator
  create_probator-once kind parameters t laws c i =
      elim (Result-cases (generate_probator_rtp_parameters parameters)) [
        | inl (x, q) ↦ rw q i
        | inr (p, q) ↦ elim (Result-cases (ops.receive "probator" kind p t.handler).0) [
          | inl (x, r) ↦ rw (q, r) (rw (laws.receives "probator" kind p t.handler, r) i)
          | inr (y, r) ↦
              rw (q, r) (rw (laws.receives "probator" kind p t.handler, r) (ap suc (i ∙ rw c refl)))
        ]
      ]

  ensure_probator-Keeps :
      (kind : String) (parameters : Json)
      → Logged
      → Keeps ProbatorOnce (ensure_probator ops kind parameters)
  unfolding ensure_probator
  ensure_probator-Keeps kind parameters laws t i =
      if-cases After (not t.probator_consumer_created && kind == "video")
        (λ e.
          caught-once t (create_probator ops kind parameters t)
            (create_probator-once kind parameters t laws (ground (arith, e)) i))
        λ e. i

  -- On a transport that has received the probator once if it says so and never otherwise, that is so after
  -- any Consume of another id, whether it returns or throws, for whichever reason.
  pub consume-ProbatorOnce :
      (extended : Json) (id producer_id kind : String) (parameters : Option Json) (app_data : Json)
      (t : Transport H)
      → Logged
      → (id == "probator") ≡ false
      → ProbatorOnce t
      → ProbatorOnce (consume ops extended id producer_id kind parameters app_data t).1
  unfolding consume
  consume-ProbatorOnce extended id producer_id kind parameters app_data t laws n =
      Keeps-bind ProbatorOnce (unless_closed "RecvTransport closed") _
        (unless_closed-Keeps "RecvTransport closed")
        (λ u. Keeps-guard ProbatorOnce (not (is_empty id)) _ _ (
          Keeps-guard ProbatorOnce (not (is_empty producer_id)) _ _ (
            Keeps-guard ProbatorOnce (kind == "audio" || kind == "video") _ _ (
              Keeps-lift ProbatorOnce (present_parameters parameters) _ λ given.
                Keeps-guard ProbatorOnce (is_object app_data) _ _ (
                  Keeps-lift ProbatorOnce (can_receive given extended) _ λ v.
                    Keeps-guard ProbatorOnce v.0 _ _ (
                      Keeps-bind ProbatorOnce (on_handler (ops.receive id kind v.1)) _
                        (receive-Keeps id kind v.1 laws n)
                        λ r.
                          Keeps-bind ProbatorOnce (ensure_probator ops kind v.1) _
                            (ensure_probator-Keeps kind v.1 laws) λ w s i. i))))))
        t
