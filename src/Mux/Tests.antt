-- ===== src/Mux/Tests.antt =====
-- Runs of the multiplexer of src/session/multiplex_handler.c over the system of Mux/Simple.
use elastos_net_carrier_nati.Base.{
  ℕ, ◌+◌, ◌-◌, ◌*◌, ◌<◌, ◌≡◌, refl, List, [], ◌∷◌, true, false, none, some, arith, length,
  length-replicate, ◌++◌,
}
use elastos_net_carrier_nati.FlexBuffer.{FlexBuffer, flex_buffer_max_len, flex_buffer_init}
use elastos_net_carrier_nati.FlexBuffer.Refine.{IsValid}
use elastos_net_carrier_nati.Mux.PacketType
use elastos_net_carrier_nati.Mux.Protocol.{
  ProtocolBuffer, header_bytes, parse_header, parse_header-header_bytes,
}
use elastos_net_carrier_nati.Mux.Channel.{Channel, user, opening, normal, Timeval, ok}
use elastos_net_carrier_nati.Mux.Handler.{MultiplexHandler, send_buffer, channels_get}
use elastos_net_carrier_nati.Mux.Receive.{
  zero_time, receive_open, dispatch, handle_packet, multiplex_handler_notify_packet,
}
use elastos_net_carrier_nati.Mux.Reassembly.{StreamHandler}
use elastos_net_carrier_nati.Mux.Local.{multiplex_handler_open_channel}
use elastos_net_carrier_nati.Mux.Checkpoint.{
  interval_bits, reaches, check_channel, multiplex_handler_close_channels,
}
use elastos_net_carrier_nati.Mux.Lifecycle.{
  no_callbacks, multiplex_handler_create, multiplex_handler_set_channel_callbacks,
}
use elastos_net_carrier_nati.Mux.Transitions.{Holds, Steps, dispatch-Steps}
use elastos_net_carrier_nati.Mux.Consistency.{IsConsistent}
use elastos_net_carrier_nati.Mux.Opening.{
  OpenEffect, receive_open-OpenEffect, notify_packet-IsConsistent,
}
use elastos_net_carrier_nati.Mux.Requests.{OpenResult, open_channel-OpenResult}
use elastos_net_carrier_nati.Mux.Walks.{close_channels_lem}
use elastos_net_carrier_nati.Mux.Stream.{exact, AllFrames, concat, deliver_all, HasPending}
use elastos_net_carrier_nati.Mux.Feed.{AllValid, bytes, feed, feed_lem}
use elastos_net_carrier_nati.Mux.Sending.{
  packet, send_buffer_lem, packet-IsFrame, notify_packet-packet,
}
use elastos_net_carrier_nati.Mux.History.{Event, run, create-IsConsistent, run-create-IsConsistent}
use elastos_net_carrier_nati.Mux.Timing.{
  micros, reaches_after, reaches_only_after, check_channel_silent,
}
use elastos_net_carrier_nati.Mux.Simple.{simple, simple-IsLawful, get, member}

abbrev now : Timeval
now = record { sec = 1600000000; usec = 0 }

-- The reliable stream's handler as it is created.
abbrev created : StreamHandler simple
created = multiplex_handler_create true false no_callbacks []

abbrev fresh : MultiplexHandler simple
fresh = created.handler

fresh-IsConsistent : IsConsistent fresh
fresh-IsConsistent = create-IsConsistent simple-IsLawful true false no_callbacks []

-- A handler with one channel, which waits for its confirmation.
abbrev waiting : Channel
waiting = record {
  id = 1;
  remote_id = 0;
  type = user;
  status = opening;
  local_timestamp = zero_time;
  remote_timestamp = now;
  last_activity = now;
  timeout = 0;
  sock = 0;
}

abbrev busy : MultiplexHandler simple
busy = record {
  reliable = true;
  has_worker = false;
  has_timer = false;
  callbacks = λ t. no_callbacks;
  channels = (1, waiting) ∷ [];
  channel_ids = 1 ∷ [];
  world = [];
}

busy-Holds : Holds busy waiting
unfolding channels_get get member
busy-Holds = record { found = refl; used = refl; positive = omega arith }

busy-IsConsistent : IsConsistent busy
unfolding channels_get get member
busy-IsConsistent = record { agree = λ k. ground arith; named = λ k c e. ground arith }

-- A packet of the stream's own data, and the pieces in which two of them arrive.
abbrev hello : List ℕ
hello = packet PacketType.channel_data 0 0 0 (104 ∷ 105 ∷ [])

abbrev pieces : List FlexBuffer
pieces =
    exact (3 ∷ 0 ∷ 0 ∷ [])
    ∷ exact (0 ∷ 0 ∷ 0 ∷ 0 ∷ 2 ∷ 104 ∷ 105 ∷ 3 ∷ [])
    ∷ exact (0 ∷ 0 ∷ 0 ∷ 0 ∷ 0 ∷ 0 ∷ 2 ∷ 104 ∷ 105 ∷ [])
    ∷ []

exact-IsValid : (bs : List ℕ) → length bs < 100 → IsValid (exact bs)
exact-IsValid bs h = record { block = refl; inside = omega arith; small = omega arith }

pieces-AllValid : AllValid pieces
pieces-AllValid = (
  exact-IsValid _ (omega arith),
  (exact-IsValid _ (omega arith), (exact-IsValid _ (omega arith), tt)),
)

hello-AllFrames : AllFrames (hello ∷ hello ∷ [])
hello-AllFrames =
    let f =
      packet-IsFrame PacketType.channel_data 0 0 0 (104 ∷ 105 ∷ []) (omega arith) (omega arith)
        (omega arith) in
    (f, (f, tt))

created-HasPending : HasPending created []
unfolding multiplex_handler_create flex_buffer_init
created-HasPending = record {
  holds = refl;
  valid = record {
    block = length-replicate {A = ℕ} flex_buffer_max_len 0;
    inside = omega arith;
    small = omega arith;
  };
  offset = refl;
  capacity = refl;
}

bytes-hello : bytes pieces ≡ concat (hello ∷ hello ∷ [])
unfolding header_bytes
bytes-hello = refl

feed_lem_example :
    (t : StreamHandler simple) × (feed created pieces ≡ some t)
    × (t.handler ≡ deliver_all fresh (hello ∷ hello ∷ []))
    × HasPending t []
feed_lem_example =
    feed_lem created pieces (hello ∷ hello ∷ []) pieces-AllValid created-HasPending hello-AllFrames
      bytes-hello

-- What is handed on: the payload, twice.
delivered :
    (deliver_all fresh (hello ∷ hello ∷ [])).world ≡ (104 ∷ 105 ∷ []) ∷ (104 ∷ 105 ∷ []) ∷ []
unfolding deliver_all multiplex_handler_notify_packet handle_packet header_bytes
    multiplex_handler_create multiplex_handler_set_channel_callbacks
delivered = refl

run-create-IsConsistent_example : IsConsistent (
    run fresh (
      Event.open_channel user none 0 0
      ∷ Event.packet (exact hello)
      ∷ Event.checkpoint
      ∷ Event.close_channel 1
      ∷ []))
run-create-IsConsistent_example =
    run-create-IsConsistent simple-IsLawful true false no_callbacks [] (
      Event.open_channel user none 0 0
      ∷ Event.packet (exact hello)
      ∷ Event.checkpoint
      ∷ Event.close_channel 1
      ∷ [])

abbrev confirmation : ProtocolBuffer
confirmation = record {
  type = PacketType.channel_open_confirmation;
  option = 0;
  local_channel_id = 1;
  remote_channel_id = 7;
  payload_len = 0;
}

dispatch-Steps_example : Steps busy waiting (dispatch busy waiting confirmation [])
dispatch-Steps_example = dispatch-Steps simple-IsLawful busy waiting busy-Holds confirmation []

abbrev request : ProtocolBuffer
request = record {
  type = PacketType.channel_open;
  option = 0;
  local_channel_id = 0;
  remote_channel_id = 7;
  payload_len = 0;
}

receive_open-OpenEffect_example : OpenEffect busy (receive_open busy request none) 7
receive_open-OpenEffect_example =
    receive_open-OpenEffect simple-IsLawful busy request none busy-IsConsistent

notify_packet-IsConsistent_example :
    IsConsistent
      (multiplex_handler_notify_packet busy (exact (packet PacketType.channel_close 0 7 1 [])))
notify_packet-IsConsistent_example =
    notify_packet-IsConsistent simple-IsLawful busy
      (exact (packet PacketType.channel_close 0 7 1 [])) busy-IsConsistent

open_channel-OpenResult_example :
    OpenResult busy (multiplex_handler_open_channel busy user none 0 0)
open_channel-OpenResult_example =
    open_channel-OpenResult simple-IsLawful busy user none 0 0 busy-IsConsistent

close_channels_lem_example :
    IsConsistent (multiplex_handler_close_channels busy normal)
    × ((k : ℕ)
        → (channels_get (multiplex_handler_close_channels busy normal) k ≡ none)
          × (simple.ids_used (multiplex_handler_close_channels busy normal).channel_ids k ≡ false))
close_channels_lem_example = close_channels_lem simple-IsLawful busy normal busy-IsConsistent

-- A payload of two bytes behind room for headers.
abbrev payload : FlexBuffer
payload = record {
  capacity = 12;
  offset = 10;
  size = 2;
  buffer = 0 ∷ 0 ∷ 0 ∷ 0 ∷ 0 ∷ 0 ∷ 0 ∷ 0 ∷ 0 ∷ 0 ∷ 104 ∷ 105 ∷ [];
}

payload-IsValid : IsValid payload
payload-IsValid = record { block = refl; inside = omega arith; small = omega arith }

send_buffer_lem_example :
    ((send_buffer busy PacketType.channel_data 0 1 7 payload).1
      ≡ record busy { world = packet PacketType.channel_data 0 1 7 (104 ∷ 105 ∷ []) ∷ [] })
    × ((send_buffer busy PacketType.channel_data 0 1 7 payload).0 ≡ ok 2)
send_buffer_lem_example =
    send_buffer_lem busy PacketType.channel_data 0 1 7 payload payload-IsValid (omega arith)

notify_packet-packet_example :
    multiplex_handler_notify_packet busy
      (exact (packet PacketType.channel_data 0 7 1 (104 ∷ 105 ∷ [])))
    ≡ handle_packet busy
        (record {
          type = PacketType.channel_data;
          option = 0;
          local_channel_id = 1;
          remote_channel_id = 7;
          payload_len = 2;
        })
        (104 ∷ 105 ∷ [])
notify_packet-packet_example =
    notify_packet-packet busy PacketType.channel_data 0 7 1 (104 ∷ 105 ∷ []) (omega arith)
      (omega arith) (omega arith)

parse_header-header_bytes_example :
    parse_header (header_bytes 3 0 513 7 2 ++ 104 ∷ 105 ∷ []) ≡ record {
      type = 3;
      option = 0;
      local_channel_id = 7;
      remote_channel_id = 513;
      payload_len = 2;
    }
parse_header-header_bytes_example =
    parse_header-header_bytes 3 0 513 7 2 (104 ∷ 105 ∷ []) (omega arith) (omega arith) (omega arith)

abbrev earlier : Timeval
earlier = record { sec = 1599999869; usec = 999999 }

reaches_after_example : reaches (interval_bits now earlier) 130000 ≡ true
reaches_after_example =
    reaches_after now earlier 130000
      (record {
        seconds = omega arith;
        now_micros = omega arith;
        then_micros = omega arith;
        order = omega arith;
        span = omega arith;
        limit_int = omega arith;
      })
      (omega arith)

reached : reaches (interval_bits now earlier) 130000 ≡ true
unfolding reaches interval_bits
reached = refl

reaches_only_after_example : 130000 * 1000 < micros now - micros earlier + 1000
reaches_only_after_example =
    reaches_only_after now earlier 130000
      (record {
        seconds = omega arith;
        now_micros = omega arith;
        then_micros = omega arith;
        order = omega arith;
        span = omega arith;
        limit_int = omega arith;
      })
      reached

heard : reaches (interval_bits now now) 130000 ≡ false
unfolding reaches interval_bits
heard = refl

check_channel_silent_example : check_channel busy now waiting ≡ busy
check_channel_silent_example =
    check_channel_silent busy now waiting refl refl heard (omega arith) (omega arith)
