-- ===== src/Mux/Receive.antt =====
-- `multiplex_handler_notify_packet` of src/session/multiplex_handler.c: what one received packet
-- does. Each kind of packet has a function of its own.
use elastos_net_carrier_nati.Base.{
  ℕ, ◌+◌, List, Bool, true, false, not, ◌&&◌, Option, none, some, ◌==◌, ltb, if◌then◌else◌,
}
use elastos_net_carrier_nati.FlexBuffer.{FlexBuffer, contents, flex_buffer_forward_offset}
use elastos_net_carrier_nati.Mux.PacketType
use elastos_net_carrier_nati.Mux.Protocol.{ProtocolBuffer, parse_header, protocol_head_len}
use elastos_net_carrier_nati.Mux.Channel.{
  Channel, ChannelType, user, udp_portforwarding, tcp_portforwarding, ChannelStatus, opening, open_,
  pending, closing, normal, error, Timeval, ok, err, System,
}
use elastos_net_carrier_nati.Mux.Handler.{
  MultiplexHandler, multiplex_handler_send_packet, notify_channel_open, notify_channel_opened,
  notify_channel_close, notify_channel_data, notify_channel_pending, notify_channel_resume,
  read_clock, channels_put, channels_get, channels_remove, update_remote_timestamp,
}

abbrev pub zero_time : Timeval
zero_time = record { sec = 0; usec = 0 }

-- The byte of the wire as a channel type.
unfoldable pub channel_type : ℕ → Option ChannelType
channel_type n =
    if n == 0
    then some user
    else if n == 1
    then some udp_portforwarding
    else if n == 2
    then some tcp_portforwarding
    else none

-- A channel that may carry data.
abbrev pub is_active : ChannelStatus → Bool
is_active open_ = true
is_active pending = true
is_active opening = false
is_active closing = false

module _ {sys : System} where
  open sys use {Ids, ids_alloc, rc_zalloc, prev_on_data}

  -- Whether the handler takes channels of this type from its peer.
  unfoldable pub accepts_type : MultiplexHandler sys → ChannelType → Bool
  accepts_type h user = true
  accepts_type h udp_portforwarding = h.has_worker
  accepts_type h tcp_portforwarding = h.has_worker && h.reliable

  -- The second part of an open request, once the new channel stands in the table.
  unfoldable pub confirm_open :
      MultiplexHandler sys → Channel → Option (List ℕ) → MultiplexHandler sys
  unfolding notify_channel_open multiplex_handler_send_packet notify_channel_close channels_remove
      channels_put notify_channel_opened update_remote_timestamp
  confirm_open h ch cookie =
      let (agreed, h1) = notify_channel_open h ch cookie in
      let (rc, h2) =
        multiplex_handler_send_packet h1 PacketType.channel_open_confirmation 0
          (if agreed then ch.id else 0) ch.remote_id none in
      let opened = record ch { status = open_ } in
      let h3 = notify_channel_opened (channels_put h2 opened) opened in
      if not agreed then channels_remove h2 ch.id else elim rc [
        | err e ↦ channels_remove (notify_channel_close h2 ch error) ch.id
        | ok n ↦ update_remote_timestamp h3 opened
      ]

  -- The new channel of an open request, under the id that the heap gave out. If it gave none, the
  -- refusal carries the remote id of the channel just allocated, which is still 0.
  unfoldable pub register_channel :
      MultiplexHandler sys
      → ProtocolBuffer
      → ChannelType
      → Option (List ℕ)
      → Option (ℕ × Ids)
      → MultiplexHandler sys
  unfolding confirm_open multiplex_handler_send_packet read_clock channels_put
  register_channel h pb type cookie none =
      (multiplex_handler_send_packet h PacketType.channel_open_confirmation 0 0 0 none).1
  register_channel h pb type cookie (some (cid, ids)) =
      let (now, h1) = read_clock (record h { channel_ids = ids }) in
      let ch : Channel = record {
        id = cid;
        remote_id = pb.remote_channel_id;
        type = type;
        status = opening;
        local_timestamp = zero_time;
        remote_timestamp = now;
        last_activity = now;
        timeout = 0;
        sock = 0;
      } in
      confirm_open (channels_put h1 ch) ch cookie

  unfoldable pub allocate_channel :
      MultiplexHandler sys → ProtocolBuffer → ChannelType → Option (List ℕ) → MultiplexHandler sys
  unfolding register_channel
  allocate_channel h pb type cookie =
      let (allocated, w) = rc_zalloc h.world in
      let h0 = record h { world = w } in
      if allocated then register_channel h0 pb type cookie (ids_alloc h.channel_ids) else h0

  unfoldable pub receive_open_type :
      MultiplexHandler sys
      → ProtocolBuffer
      → Option (List ℕ)
      → Option ChannelType
      → MultiplexHandler sys
  unfolding accepts_type allocate_channel
  receive_open_type h pb cookie none = h
  receive_open_type h pb cookie (some type) =
      if accepts_type h type then allocate_channel h pb type cookie else h

  -- An open request: a channel with an id of its own, or a refusal.
  unfoldable pub receive_open :
      MultiplexHandler sys → ProtocolBuffer → Option (List ℕ) → MultiplexHandler sys
  unfolding channel_type receive_open_type
  receive_open h pb cookie = receive_open_type h pb cookie (channel_type pb.option)

  unfoldable pub receive_open_confirmation :
      MultiplexHandler sys → Channel → ProtocolBuffer → MultiplexHandler sys
  unfolding channels_put notify_channel_opened update_remote_timestamp notify_channel_close
      channels_remove
  receive_open_confirmation h ch pb = elim ch.status [
    | opening ↦
        if pb.remote_channel_id == 0
        then channels_remove (notify_channel_close h ch error) ch.id
        else let opened = record ch { status = open_; remote_id = pb.remote_channel_id } in
          update_remote_timestamp (notify_channel_opened (channels_put h opened) opened) opened
    | _ ↦ h
  ]

  unfoldable pub receive_data : MultiplexHandler sys → Channel → List ℕ → MultiplexHandler sys
  unfolding notify_channel_data notify_channel_close channels_remove update_remote_timestamp
  receive_data h ch payload =
      let (more, h1) = notify_channel_data h ch payload in
      if not (is_active ch.status)
      then h
      else if more
      then update_remote_timestamp h1 ch
      else channels_remove (notify_channel_close h1 ch error) ch.id

  unfoldable pub receive_keep_alive : MultiplexHandler sys → Channel → MultiplexHandler sys
  unfolding read_clock channels_put
  receive_keep_alive h ch =
      let (now, h1) = read_clock h in channels_put h1 (record ch { remote_timestamp = now })

  unfoldable pub receive_pending : MultiplexHandler sys → Channel → MultiplexHandler sys
  unfolding channels_put notify_channel_pending update_remote_timestamp
  receive_pending h ch = elim ch.status [
    | open_ ↦
        let paused = record ch { status = pending } in
        update_remote_timestamp (notify_channel_pending (channels_put h paused) paused) paused
    | _ ↦ h
  ]

  unfoldable pub receive_resume : MultiplexHandler sys → Channel → MultiplexHandler sys
  unfolding channels_put notify_channel_resume update_remote_timestamp
  receive_resume h ch = elim ch.status [
    | pending ↦
        let running = record ch { status = open_ } in
        update_remote_timestamp (notify_channel_resume (channels_put h running) running) running
    | _ ↦ h
  ]

  unfoldable pub receive_close : MultiplexHandler sys → Channel → MultiplexHandler sys
  unfolding notify_channel_close channels_remove
  receive_close h ch = channels_remove (notify_channel_close h ch normal) ch.id

  -- The `switch` over the packets that belong to a channel of the table.
  unfoldable pub dispatch :
      MultiplexHandler sys → Channel → ProtocolBuffer → List ℕ → MultiplexHandler sys
  unfolding receive_open_confirmation receive_data receive_keep_alive receive_pending receive_resume
      receive_close
  dispatch h ch pb payload =
      if pb.type == PacketType.channel_open_confirmation
      then receive_open_confirmation h ch pb
      else if pb.type == PacketType.channel_data
      then receive_data h ch payload
      else if pb.type == PacketType.channel_keep_alive
      then receive_keep_alive h ch
      else if pb.type == PacketType.channel_pending
      then receive_pending h ch
      else if pb.type == PacketType.channel_resume
      then receive_resume h ch
      else if pb.type == PacketType.channel_close
      then receive_close h ch
      else h

  -- A packet for a channel by its id; one that the table does not know is ignored.
  unfoldable pub dispatch_to :
      MultiplexHandler sys → ProtocolBuffer → List ℕ → Option Channel → MultiplexHandler sys
  unfolding dispatch
  dispatch_to h pb payload none = h
  dispatch_to h pb payload (some ch) = dispatch h ch pb payload

  -- A packet whose length is right: data of the stream itself, an open request, or a packet for a
  -- channel.
  unfoldable pub handle_packet :
      MultiplexHandler sys → ProtocolBuffer → List ℕ → MultiplexHandler sys
  unfolding receive_open channels_get dispatch_to
  handle_packet h pb payload =
      if pb.remote_channel_id == 0
        && (pb.local_channel_id == 0 && pb.type == PacketType.channel_data)
      then record h { world = prev_on_data payload h.world }
      else if pb.type == PacketType.channel_open
      then receive_open h pb (if pb.payload_len == 0 then none else some payload)
      else dispatch_to h pb payload (channels_get h pb.local_channel_id)

  -- `multiplex_handler_notify_packet`: packets whose length does not fit their header are ignored. The
  -- payload is what is left in the buffer when it has been moved forward past the header.
  unfoldable pub multiplex_handler_notify_packet :
      MultiplexHandler sys → FlexBuffer → MultiplexHandler sys
  unfolding parse_header flex_buffer_forward_offset handle_packet
  multiplex_handler_notify_packet h buf =
      let pb = parse_header (contents buf) in
      let payload = contents (flex_buffer_forward_offset buf protocol_head_len) in
      if ltb buf.size protocol_head_len
      then h
      else if not (buf.size == pb.payload_len + protocol_head_len)
      then h
      else handle_packet h pb payload
