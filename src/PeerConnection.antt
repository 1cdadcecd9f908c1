-- ===== src/PeerConnection.antt =====
-- src/PeerConnection.cpp: the methods, over WebRTC's peer connection as a parameter; Create has the
-- constructor. The methods of PrivateListener only log.
pub mod Observers
pub mod Create
pub mod Returns
pub mod Peers
use libmediasouphandler.Base.{
  ℕ, String, Bool, true, false, ◌&&◌, Option, none, some, List, [], ◌∷◌, ◌++◌, ◌⊎◌, inl, inr,
}
use libmediasouphandler.Base.Result.{
  Result, ok, err, error, invalid_state_error, undefined, guard, ◌>>=◌, ◌>>◌,
}
use libmediasouphandler.Base.State.{Method}
use libmediasouphandler.Json.{Json}
use libmediasouphandler.Handler.Connection.{
  SdpType, offer, pranswer, answer, RtpEncoding, Configuration, ChannelConfig,
}
use Observers.{
  Promise, pending, Waited, Callback, reject, await, handle_all, deliver_all, Held, await_held,
}

-- webrtc::RtpTransceiverInit.
pub record TransceiverInit (Y : Type 0) : Type 0 where
  pub direction : String
  pub stream_ids : List String
  pub send_encodings : List (RtpEncoding Y)

-- webrtc::PeerConnectionInterface with state `W`: a call with an observer gives, with the state, what is
-- ever called on the observer (`Held`, where the caller keeps no reference to it). An RTCError is its message, and none where it is ok. Descriptions are of
-- type `X`.
pub record Webrtc (W X C D Y : Type 0) : Type 0 where
  pub close : W → W
  pub get_configuration : W → Configuration C
  pub set_configuration : Configuration C → W → Option String × W
  pub create_offer : Bool → W → Held X × W
  pub create_answer : W → Held X × W
  -- CreateSessionDescription, or the description of the error.
  pub create_session_description : String → String → String ⊎ X
  pub to_string : X → String
  pub set_local_description : X → W → List (Callback (Unit {0})) × W
  pub set_remote_description : X → W → List (Callback (Unit {0})) × W
  pub local_description : W → Option X
  pub remote_description : W → Option X
  pub get_transceivers : W → List ℕ
  pub get_senders : W → List ℕ
  pub add_media : String → W → (String ⊎ ℕ) × W
  pub add_track : ℕ → TransceiverInit Y → W → (String ⊎ ℕ) × W
  pub remove_track_or_error : ℕ → W → Option String × W
  pub get_stats : W → List String × W
  pub get_sender_stats : ℕ → W → List String × W
  pub get_receiver_stats : ℕ → W → List String × W
  pub create_data_channel : String → ChannelConfig → W → Option D × W

-- A call that waits for a future.
abbrev pub Waiting : Type 0 → Type 0 → Type 0
Waiting W A = W → Waited A × W

unfoldable pub sdp_type_to_string : SdpType → String
sdp_type_to_string offer = "offer"
sdp_type_to_string pranswer = "pranswer"
sdp_type_to_string answer = "answer"

unfoldable pub is_ok : Option String → Bool
is_ok none = true
is_ok (some message) = false

-- RTCErrorOr's value, or the null pointer.
unfoldable pub value_or_null : String ⊎ ℕ → Option ℕ
value_or_null (inl message) = none
value_or_null (inr n) = some n

unfoldable pub present_channel : {D : Type 0} → Option D → Result D
present_channel none = err (error "Failed creating data channel")
present_channel (some channel) = ok channel

unfoldable pub description_text : {X : Type 0} → (X → String) → Option X → Result String
description_text to_string none = err undefined
description_text to_string (some x) = ok (to_string x)

-- The text is made a description, which `set` is called with; where it is none the observer is
-- rejected, and WebRTC is not called.
unfoldable pub set_description :
    {W X : Type 0} → String ⊎ X → (X → W → List (Callback (Unit {0})) × W) → Waiting W (Unit {0})
unfolding reject await handle_all
set_description (inl description) set s = (await (reject description pending), s)
set_description (inr x) set s =
    let (callbacks, s') = set x s in (await (handle_all (λ u. u) callbacks pending), s')

module _ {W X C D Y : Type 0} (webrtc : Webrtc W X C D Y) (parse : String → Result Json) where
  unfoldable pub close : W → W
  close = webrtc.close

  unfoldable pub get_configuration : W → Configuration C
  get_configuration = webrtc.get_configuration

  unfoldable pub set_configuration : Configuration C → Method W Bool
  unfolding is_ok
  set_configuration config s =
      let (failure, s') = webrtc.set_configuration config s in (ok (is_ok failure), s')

  -- Of the options, only iceRestart is ever set.
  unfoldable pub create_offer : Bool → Waiting W String
  unfolding await_held
  create_offer ice_restart s =
      let (held, s') = webrtc.create_offer ice_restart s in (await_held webrtc.to_string held, s')

  unfoldable pub create_answer : Waiting W String
  unfolding await_held
  create_answer s =
      let (held, s') = webrtc.create_answer s in (await_held webrtc.to_string held, s')

  unfoldable pub set_local_description : SdpType → String → Waiting W (Unit {0})
  unfolding sdp_type_to_string set_description
  set_local_description type sdp =
      set_description (webrtc.create_session_description (sdp_type_to_string type) sdp)
        webrtc.set_local_description

  unfoldable pub set_remote_description : SdpType → String → Waiting W (Unit {0})
  unfolding sdp_type_to_string set_description
  set_remote_description type sdp =
      set_description (webrtc.create_session_description (sdp_type_to_string type) sdp)
        webrtc.set_remote_description

  -- The null pointer of a description that is not set is read.
  unfoldable pub get_local_description : W → Result String
  unfolding description_text
  get_local_description s = description_text webrtc.to_string (webrtc.local_description s)

  unfoldable pub get_remote_description : W → Result String
  unfolding description_text
  get_remote_description s = description_text webrtc.to_string (webrtc.remote_description s)

  unfoldable pub get_transceivers : W → List ℕ
  get_transceivers = webrtc.get_transceivers

  unfoldable pub get_senders : W → List ℕ
  get_senders = webrtc.get_senders

  -- AddTransceiver of a media type.
  unfoldable pub add_media : String → W → Option ℕ × W
  unfolding value_or_null
  add_media kind s = let (made, s') = webrtc.add_media kind s in (value_or_null made, s')

  -- AddTransceiver of a track, with a stream id more.
  unfoldable pub add_track : ℕ → TransceiverInit Y → W → Option ℕ × W
  unfolding value_or_null
  add_track track init s =
      let (made, s') =
        webrtc.add_track track (record init { stream_ids = init.stream_ids ++ ("0" ∷ []) }) s in
      (value_or_null made, s')

  unfoldable pub remove_track : ℕ → W → Bool × W
  unfolding is_ok
  remove_track sender s =
      let (failure, s') = webrtc.remove_track_or_error sender s in (is_ok failure, s')

  unfoldable pub get_stats : Waiting W Json
  unfolding await deliver_all
  get_stats s =
      let (texts, s') = webrtc.get_stats s in (await (deliver_all parse texts pending), s')

  unfoldable pub get_sender_stats : ℕ → Waiting W Json
  unfolding await deliver_all
  get_sender_stats sender s =
      let (texts, s') = webrtc.get_sender_stats sender s in
      (await (deliver_all parse texts pending), s')

  unfoldable pub get_receiver_stats : ℕ → Waiting W Json
  unfolding await deliver_all
  get_receiver_stats receiver s =
      let (texts, s') = webrtc.get_receiver_stats receiver s in
      (await (deliver_all parse texts pending), s')

  unfoldable pub create_data_channel : String → ChannelConfig → Method W D
  unfolding present_channel
  create_data_channel label config s =
      let (made, s') = webrtc.create_data_channel label config s in (present_channel made, s')
