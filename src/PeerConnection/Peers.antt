-- ===== src/PeerConnection/Peers.antt =====
-- src/PeerConnection.cpp as the peer connection of src/Handler.cpp, where WebRTC calls each observer once.
use libmediasouphandler.Base.{String, List, []}
use libmediasouphandler.Base.Result.{Result, ok}
use libmediasouphandler.Base.State.{Method}
use libmediasouphandler.Json.{Json}
use libmediasouphandler.Handler.Connection.{Peer, RtpEncoding}
use libmediasouphandler.PeerConnection.{
  Webrtc, Waiting, TransceiverInit, close, get_configuration, set_configuration, create_offer,
  create_answer, set_local_description, set_remote_description, get_local_description,
  get_transceivers, add_media, add_track, remove_track, get_stats, get_sender_stats,
  get_receiver_stats, create_data_channel,
}
use libmediasouphandler.PeerConnection.Returns.{AnswersOnce, Returns, waiting-Returns}

-- A call that returns or throws, as a method.
abbrev pub as_method : {W A : Type 0} (call : Waiting W A) → Returns call → Method W A
as_method call returns s = ((returns s).0, (call s).1)

-- Send's transceiver.
abbrev pub sending : {Y : Type 0} → List (RtpEncoding Y) → TransceiverInit Y
sending encodings = record { direction = "sendonly"; stream_ids = []; send_encodings = encodings }

-- The transceivers, senders and receivers, and the application, are those of `rest`.
unfoldable pub peer_of :
    {W X C D Y Q : Type 0} (webrtc : Webrtc W X C D Y) (parse : String → Result Json)
    → AnswersOnce webrtc parse
    → Peer W D C Y Q
    → Peer W D C Y Q
unfolding close get_configuration set_configuration create_offer create_answer set_local_description
    set_remote_description get_local_description get_transceivers add_media add_track remove_track
    get_stats get_sender_stats get_receiver_stats create_data_channel
peer_of webrtc parse once rest =
    let (offers, answers, sets_local, sets_remote, stats, sender_stats, receiver_stats) =
      waiting-Returns webrtc parse once in
    record rest {
      close = close webrtc parse;
      get_stats = as_method (get_stats webrtc parse) stats;
      get_sender_stats = λ n. as_method (get_sender_stats webrtc parse n) (sender_stats n);
      get_receiver_stats = λ n. as_method (get_receiver_stats webrtc parse n) (receiver_stats n);
      get_configuration = get_configuration webrtc parse;
      set_configuration = set_configuration webrtc parse;
      add_media = λ kind s. (add_media webrtc parse kind s).1;
      add_track = λ track encodings s.
          let (made, s') = add_track webrtc parse track (sending encodings) s in (ok made, s');
      create_offer = λ b. as_method (create_offer webrtc parse b) (offers b);
      create_answer = as_method (create_answer webrtc parse) answers;
      set_local_description =
          λ t sdp. as_method (set_local_description webrtc parse t sdp) (sets_local t sdp);
      set_remote_description =
          λ t sdp. as_method (set_remote_description webrtc parse t sdp) (sets_remote t sdp);
      get_local_description = get_local_description webrtc parse;
      get_transceivers = get_transceivers webrtc parse;
      remove_track = λ sender s. (remove_track webrtc parse sender s).1;
      create_data_channel = create_data_channel webrtc parse;
    }
