-- ===== src/Tests/PeerConnections.antt =====
-- A small WebRTC, and the peer connection on it.
use libmediasouphandler.Base.{
  ℕ, suc, String, Bool, true, false, none, some, List, [], ◌∷◌, ◌≡◌, refl, inl, inr, if◌then◌else◌,
}
use libmediasouphandler.Base.Text.{is_empty}
use libmediasouphandler.Base.Result.{Result, ok, err, error, std_error, invalid_state_error}
use libmediasouphandler.Json.{Json, object}
use libmediasouphandler.Handler.Connection.{SdpType, offer}
use libmediasouphandler.PeerConnection.Create.{
  Factories, RtcConfiguration, new_peer_connection, given_config, factory_of,
}
use libmediasouphandler.PeerConnection.{
  Webrtc, sdp_type_to_string, set_description, create_offer, create_answer, set_local_description,
  set_remote_description, get_stats, get_sender_stats, get_receiver_stats,
}
use libmediasouphandler.PeerConnection.Observers.{
  terminated, done, Callback, on_success, on_failure, await, get, set_promise, reject, abandon,
  await_held, handle, handle_all,
}
use libmediasouphandler.PeerConnection.Returns.{
  AnswersOnce, Returns, held_outcome, settled_by, waiting-Returns, described-outcome,
}

-- The state counts the calls; an offer has the callbacks given, and an empty text is no description.
abbrev small : List (Callback String) → Webrtc ℕ String (Unit {0}) ℕ (Unit {0})
small callbacks = record {
  close = λ s. 0;
  get_configuration = λ s. record { servers = []; others = tt };
  set_configuration = λ c s. (none, s);
  create_offer = λ b s. (record { callbacks = callbacks; released = true }, suc s);
  create_answer = λ s. (record { callbacks = on_success "answer" ∷ []; released = true }, suc s);
  create_session_description = λ type text. if is_empty text then inl "no text" else inr text;
  to_string = λ x. x;
  set_local_description = λ x s. (on_success tt ∷ [], suc s);
  set_remote_description = λ x s. (on_failure "wrong state" ∷ [], suc s);
  local_description = λ s. none;
  remote_description = λ s. none;
  get_transceivers = λ s. [];
  get_senders = λ s. [];
  add_media = λ kind s. (inl "closed", s);
  add_track = λ track init s. (inr 0, s);
  remove_track_or_error = λ sender s. (none, s);
  get_stats = λ s. ("" ∷ [], s);
  get_sender_stats = λ n s. ("{}" ∷ [], s);
  get_receiver_stats = λ n s. ("" ∷ [], s);
  create_data_channel = λ label c s. (none, s);
}

abbrev parse : String → Result Json
parse text = ok (object [])

abbrev offering : Webrtc ℕ String (Unit {0}) ℕ (Unit {0})
offering = small (on_success "offer" ∷ [])

once : AnswersOnce offering parse
once = record {
  create_offer = λ b s. tt;
  create_answer = λ s. tt;
  set_local_description = λ x s. tt;
  set_remote_description = λ x s. tt;
  get_stats = λ s. ("", refl, inl refl);
  get_sender_stats = λ n s. ("{}", refl, inr (object [], refl));
  get_receiver_stats = λ n s. ("", refl, inl refl);
}

waiting-Returns_example :
    ((b : Bool) → Returns (create_offer offering parse b))
    × Returns (create_answer offering parse)
    × ((t : SdpType) (sdp : String) → Returns (set_local_description offering parse t sdp))
    × ((t : SdpType) (sdp : String) → Returns (set_remote_description offering parse t sdp))
    × Returns (get_stats offering parse)
    × ((n : ℕ) → Returns (get_sender_stats offering parse n))
    × ((n : ℕ) → Returns (get_receiver_stats offering parse n))
waiting-Returns_example = waiting-Returns offering parse once

abbrev silent : Webrtc ℕ String (Unit {0}) ℕ (Unit {0})
silent = small []

described-outcome_example :
    ((b : Bool) (s : ℕ)
      → create_offer silent parse b s ≡ (
        held_outcome silent.to_string
            (silent.create_offer b s).0.callbacks
            (silent.create_offer b s).0.released,
        (silent.create_offer b s).1,
      ))
    × ((s : ℕ)
        → create_answer silent parse s ≡ (
          held_outcome silent.to_string
              (silent.create_answer s).0.callbacks
              (silent.create_answer s).0.released,
          (silent.create_answer s).1,
        ))
    × ((t : SdpType) (sdp : String) (s : ℕ)
        → set_local_description silent parse t sdp s
          ≡ settled_by
              (silent.create_session_description (sdp_type_to_string t) sdp)
              silent.set_local_description
              s)
    × ((t : SdpType) (sdp : String) (s : ℕ)
        → set_remote_description silent parse t sdp s
          ≡ settled_by
              (silent.create_session_description (sdp_type_to_string t) sdp)
              silent.set_remote_description
              s)
described-outcome_example = described-outcome silent parse

-- An offer that is made, none, and two.
offer_made : create_offer offering parse false 0 ≡ (done (ok "offer"), 1)
unfolding create_offer await_held abandon await handle_all handle set_promise get
offer_made = refl

-- WebRTC lets go of an observer that it has not called.
offer_abandoned : create_offer silent parse false 0 ≡ (done (err (std_error "future_error")), 1)
unfolding create_offer await_held abandon await handle_all get
offer_abandoned = refl

offered_twice :
    create_offer (small (on_success "offer" ∷ on_failure "late" ∷ [])) parse false 0
    ≡ (terminated (std_error "future_error"), 1)
unfolding create_offer await_held abandon await handle_all handle set_promise reject
offered_twice = refl

-- A text that is refused, and a description that is.
text_refused : set_remote_description offering parse offer "" 0 ≡ (done (err (error "no text")), 0)
unfolding set_remote_description set_description await reject set_promise get
text_refused = refl

description_refused :
    set_remote_description offering parse offer "v=0" 0 ≡ (done (err (error "wrong state")), 1)
unfolding set_remote_description set_description await handle_all handle reject set_promise get
description_refused = refl

abbrev factories : Factories (RtcConfiguration (Unit {0}) × ℕ) (Unit {0}) ℕ
factories = record {
  default_config = record { sdp_semantics = "plan-b"; others = tt };
  network_starts = true;
  signaling_starts = false;
  worker_starts = true;
  builtin = 0;
  create_peer_connection = λ f c. some (c, f);
}

-- A thread does not start, unless a factory is given.
thread_errored :
    new_peer_connection factories none ≡ err (invalid_state_error "thread start errored")
unfolding new_peer_connection given_config factory_of
thread_errored = refl

factory_given :
    new_peer_connection factories (
      some (record { config = record { sdp_semantics = "plan-b"; others = tt }; factory = some 7 }))
    ≡ ok (some (record { sdp_semantics = "unified-plan"; others = tt }, 7))
unfolding new_peer_connection given_config factory_of
factory_given = refl
