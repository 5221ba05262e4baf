-- ===== src/Session/Tests.antt =====
-- Calls of src/session/session.c on a channel of a stream, and a peer that has the channel.
use elastos_net_carrier_nati.Base.{◌≡◌, refl, [], ◌∷◌, true, false, none, some, arith}
use elastos_net_carrier_nati.Mux.Channel.{ok, Channel, ChannelType, user, open_}
use elastos_net_carrier_nati.Mux.Handler.{
  MultiplexHandler, ChannelCallbacks, channels_get, update_remote_timestamp,
}
use elastos_net_carrier_nati.Mux.Local.{
  update_local_timestamp, multiplex_handler_open_channel, multiplex_handler_close_channel,
  multiplex_handler_write_channel, multiplex_handler_pend_channel, multiplex_handler_resume_channel,
}
use elastos_net_carrier_nati.Mux.Receive.{multiplex_handler_notify_packet}
use elastos_net_carrier_nati.Mux.Stream.{exact}
use elastos_net_carrier_nati.Mux.Simple.{simple, get}
use elastos_net_carrier_nati.FileTransfer.Data.{StreamState}
use elastos_net_carrier_nati.Session.{
  pos, ElaStream, get_stream, put_mux, data_buffer, ela_stream_open_channel,
  ela_stream_close_channel, ela_stream_write_channel, ela_stream_pend_channel,
  ela_stream_resume_channel,
}
use elastos_net_carrier_nati.Session.Effects.{Effect, same, zeroed, calls-Effect}
use elastos_net_carrier_nati.Session.Writing.{data_packet, ela_stream_write_channel-notify_packet}

-- Channel 5 here is channel 9 there.
abbrev near : Channel
near = record {
  id = 5;
  remote_id = 9;
  type = user;
  status = open_;
  local_timestamp = record { sec = 0; usec = 0 };
  remote_timestamp = record { sec = 0; usec = 0 };
  last_activity = record { sec = 0; usec = 0 };
  timeout = 0;
  sock = 0;
}

abbrev far : Channel
far = record near { id = 9; remote_id = 5 }

abbrev listening : ChannelType → ChannelCallbacks simple
listening type = record {
  channel_open = none;
  channel_opened = none;
  channel_close = none;
  channel_data = some (λ ch bs w. (true, bs ∷ w));
  channel_pending = none;
  channel_resume = none;
}

abbrev with_channel : Channel → MultiplexHandler simple
with_channel ch = record {
  reliable = false;
  has_worker = true;
  has_timer = true;
  callbacks = listening;
  channels = (ch.id, ch) ∷ [];
  channel_ids = ch.id ∷ [];
  world = [];
}

abbrev stream : ElaStream simple
stream = record { id = 1; state = StreamState.connected; mux = some (with_channel near) }

ela_stream_write_channel-notify_packet_example :
    (ela_stream_write_channel (stream ∷ []) 1 (pos 5) (some (104 ∷ 105 ∷ [])) 2 ≡ (
      ok 2,
      put_mux (stream ∷ []) 1 (
          update_local_timestamp
            (record (with_channel near) { world = data_packet near (104 ∷ 105 ∷ []) ∷ [] })
            near),
    ))
    × (multiplex_handler_notify_packet
          (with_channel far)
          (exact (data_packet near (104 ∷ 105 ∷ [])))
        ≡ update_remote_timestamp (record (with_channel far) { world = (104 ∷ 105 ∷ []) ∷ [] }) far)
unfolding get_stream channels_get get
ela_stream_write_channel-notify_packet_example =
    ela_stream_write_channel-notify_packet (stream ∷ []) 1 5 stream (with_channel near)
      (with_channel far) near far (some (104 ∷ 105 ∷ [])) (104 ∷ 105 ∷ []) 1
      (data_packet near (104 ∷ 105 ∷ []) ∷ []) (λ ch bs w. (true, bs ∷ w)) true
      ((104 ∷ 105 ∷ []) ∷ []) refl refl refl refl refl refl refl refl refl (omega arith)
      (omega arith) refl refl (omega arith) refl refl refl refl refl

-- The five calls on the one stream there is, whose channel is 5.
calls-Effect_example :
    Effect
      (stream ∷ [])
      1
      false
      true
      (λ h. multiplex_handler_open_channel h user none 0 0)
      same
      (ela_stream_open_channel (stream ∷ []) 1 none)
    × Effect
        (stream ∷ [])
        1
        false
        false
        (λ h. multiplex_handler_close_channel h 5)
        zeroed
        (ela_stream_close_channel (stream ∷ []) 1 5)
    × Effect
        (stream ∷ [])
        1
        false
        true
        (λ h. multiplex_handler_write_channel h 5 (data_buffer (104 ∷ [])))
        same
        (ela_stream_write_channel (stream ∷ []) 1 (pos 5) (some (104 ∷ [])) 1)
    × Effect
        (stream ∷ [])
        1
        false
        false
        (λ h. multiplex_handler_pend_channel h 5)
        zeroed
        (ela_stream_pend_channel (stream ∷ []) 1 5)
    × Effect
        (stream ∷ [])
        1
        false
        false
        (λ h. multiplex_handler_resume_channel h 5)
        zeroed
        (ela_stream_resume_channel (stream ∷ []) 1 5)
calls-Effect_example = calls-Effect (stream ∷ []) 1 5 (pos 5) none (some (104 ∷ [])) 1
