-- ===== src/Handler/Ops.antt =====
-- The handlers of src/Handler.cpp as the operations that the transports of src/Transport.cpp call.
use libmediasouphandler.Base.{true, false, none, some}
use libmediasouphandler.Base.Int.{pos}
use libmediasouphandler.Ortc.Match.{H264}
use libmediasouphandler.Transport.Handlers.{SendOps, RecvOps}
use libmediasouphandler.Handler.{Handler, close, get_transport_stats, update_ice_servers}
use libmediasouphandler.Handler.Connection.{Peer, SdpTransform, RtpEncoding}
use libmediasouphandler.Handler.Send.{SendHandler, on_base, send_track}
use libmediasouphandler.Handler.Senders.{
  stop_sending, replace_track, set_max_spatial_layer, get_sender_stats, restart_sending_ice,
}
use libmediasouphandler.Handler.Recv.{
  RecvResult, receive_track, stop_receiving, get_receiver_stats, restart_receiving_ice,
}
use libmediasouphandler.Handler.Channels.{DataChannel, receive_channel}

module _ {P D C Y Q : Type 0} (peer : Peer P D C Y Q) (lib : SdpTransform) where
  unfoldable pub send_ops : H264 → SendOps (SendHandler P) (RtpEncoding Y)
  unfolding close get_transport_stats update_ice_servers restart_sending_ice send_track stop_sending
      replace_track set_max_spatial_layer get_sender_stats
  send_ops h264 = record {
    base = record {
      close = λ s. record s { base = close peer lib s.base };
      get_transport_stats = on_base (get_transport_stats peer lib);
      restart_ice = λ ice. on_base (restart_sending_ice peer lib ice);
      update_ice_servers = λ uris. on_base (update_ice_servers peer lib uris);
    };
    send = λ track encodings. send_track peer lib h264 (some track) encodings;
    stop_sending = λ local_id. on_base (stop_sending peer lib local_id);
    replace_track = λ local_id track. on_base (replace_track peer lib local_id track);
    set_layer = λ local_id layer. on_base (set_max_spatial_layer peer lib local_id layer);
    get_sender_stats = λ local_id. on_base (get_sender_stats peer lib local_id);
  }

  -- A data channel that is consumed is ordered, which is WebRTC's default, and sets no other limit.
  unfoldable pub recv_ops : RecvOps (Handler P) RecvResult (DataChannel D)
  unfolding close get_transport_stats update_ice_servers restart_receiving_ice receive_track
      stop_receiving get_receiver_stats receive_channel
  recv_ops = record {
    base = record {
      close = close peer lib;
      get_transport_stats = get_transport_stats peer lib;
      restart_ice = restart_receiving_ice peer lib;
      update_ice_servers = update_ice_servers peer lib;
    };
    receive = receive_track peer lib;
    stop_receiving = stop_receiving peer lib;
    get_receiver_stats = get_receiver_stats peer lib;
    receive_data_channel = λ label request. receive_channel peer lib label (record {
      negotiated = false;
      id = pos request.id;
      init = record {
        protocol = request.protocol;
        ordered = true;
        max_retransmits = none;
        max_retransmit_time = none;
      };
    });
  }
