-- ===== src/Mux/Local.antt =====
-- What the application may ask of src/session/multiplex_handler.c: open, close, write, pend and
-- resume a channel. Each returns the code of the source and the new handler.
use elastos_net_carrier_nati.Base.{
  ℕ, ◌+◌, List, [], ◌∷◌, ◌++◌, not, Option, none, some, replicate, length, ◌==◌, if◌then◌else◌,
}
use elastos_net_carrier_nati.Elaerr
use elastos_net_carrier_nati.FlexBuffer.{FlexBuffer, flex_padding_len, flex_buffer_from}
use elastos_net_carrier_nati.Mux.PacketType
use elastos_net_carrier_nati.Mux.Channel.{
  Channel, ChannelType, user, udp_portforwarding, tcp_portforwarding, opening, normal, Rc, ok, err,
  System,
}
use elastos_net_carrier_nati.Mux.Handler.{
  MultiplexHandler, multiplex_handler_send_packet, notify_channel_close, read_clock, channels_put,
  channels_get, channels_remove,
}
use elastos_net_carrier_nati.Mux.Receive.{is_active, zero_time}

-- The number that the wire has for a channel type.
abbrev pub type_number : ChannelType → ℕ
type_number user = 0
type_number udp_portforwarding = 1
type_number tcp_portforwarding = 2

-- The buffer of a cookie: its bytes with the zero that ends them.
unfoldable pub cookie_buffer : List ℕ → FlexBuffer
unfolding flex_buffer_from
cookie_buffer cookie =
    let src = cookie ++ 0 ∷ [] in
    flex_buffer_from (replicate (length src + flex_padding_len) 0) flex_padding_len src

abbrev pub cookie_payload : Option (List ℕ) → Option FlexBuffer
cookie_payload none = none
cookie_payload (some cookie) = some (cookie_buffer cookie)

module _ {sys : System} where
  open sys use {Ids, ids_alloc, rc_zalloc}

  -- The end of `multiplex_handler_open_channel`, with the new channel in the table.
  unfoldable pub request_open :
      MultiplexHandler sys → Channel → Option (List ℕ) → Rc × MultiplexHandler sys
  unfolding multiplex_handler_send_packet channels_remove cookie_buffer
  request_open h ch cookie =
      let (rc, h1) =
        multiplex_handler_send_packet h PacketType.channel_open (type_number ch.type) ch.id
          ch.remote_id (cookie_payload cookie) in
      elim rc [ err e ↦ (err e, channels_remove h1 ch.id) | ok n ↦ (ok ch.id, h1) ]

  -- The new channel of `multiplex_handler_open_channel`, under the id that the heap gave out.
  unfoldable pub enroll_channel :
      MultiplexHandler sys
      → ChannelType
      → Option (List ℕ)
      → ℕ
      → ℕ
      → Option (ℕ × Ids)
      → Rc × MultiplexHandler sys
  unfolding read_clock channels_put request_open
  enroll_channel h type cookie timeout sock none = (err Elaerr.limit_exceeded, h)
  enroll_channel h type cookie timeout sock (some (cid, ids)) =
      let (now, h1) = read_clock (record h { channel_ids = ids }) in
      let ch : Channel = record {
        id = cid;
        remote_id = 0;
        type = type;
        status = opening;
        local_timestamp = zero_time;
        remote_timestamp = now;
        last_activity = now;
        timeout = timeout;
        sock = elim type [ tcp_portforwarding ↦ sock | _ ↦ 0 ];
      } in
      request_open (channels_put h1 ch) ch cookie

  -- `multiplex_handler_open_channel`; `sock` is the variable argument, used by TCP channels.
  unfoldable pub multiplex_handler_open_channel :
      MultiplexHandler sys → ChannelType → Option (List ℕ) → ℕ → ℕ → Rc × MultiplexHandler sys
  unfolding enroll_channel
  multiplex_handler_open_channel h type cookie timeout sock =
      let (allocated, w) = rc_zalloc h.world in
      let h0 = record h { world = w } in
      if allocated
      then enroll_channel h0 type cookie timeout sock (ids_alloc h.channel_ids)
      else (err Elaerr.out_of_memory, h0)

  -- The end of `multiplex_handler_close_channel`, after the peer has been told.
  unfoldable pub finish_close : MultiplexHandler sys → Channel → MultiplexHandler sys
  unfolding notify_channel_close channels_remove
  finish_close h ch = channels_remove (notify_channel_close h ch normal) ch.id

  -- `multiplex_handler_close_channel`: a peer that has not yet confirmed is not told.
  unfoldable pub multiplex_handler_close_channel :
      MultiplexHandler sys → ℕ → Rc × MultiplexHandler sys
  unfolding channels_get multiplex_handler_send_packet finish_close
  multiplex_handler_close_channel h cid = elim (channels_get h cid) [
    | none ↦ (err Elaerr.not_exist, h)
    | some ch ↦
        let (rc, h1) =
          multiplex_handler_send_packet h PacketType.channel_close 0 ch.id ch.remote_id none in
        (ok 0, finish_close (if ch.remote_id == 0 then h else h1) ch)
  ]

  -- The channel's own packet went out: note the time.
  unfoldable pub update_local_timestamp : MultiplexHandler sys → Channel → MultiplexHandler sys
  unfolding read_clock channels_put
  update_local_timestamp h ch =
      let (now, h1) = read_clock h in
      channels_put h1 (record ch { local_timestamp = now; last_activity = now })

  -- The part that write, pend and resume share: the channel must be confirmed and active.
  unfoldable pub send_on_channel :
      MultiplexHandler sys → Channel → ℕ → Option FlexBuffer → Rc × MultiplexHandler sys
  unfolding multiplex_handler_send_packet update_local_timestamp
  send_on_channel h ch packet buf =
      let (rc, h1) = multiplex_handler_send_packet h packet 0 ch.id ch.remote_id buf in
      if not (is_active ch.status)
      then (err Elaerr.wrong_state, h)
      else if ch.remote_id == 0
      then (err Elaerr.wrong_state, h)
      else elim rc [ err e ↦ (err e, h1) | ok n ↦ (ok n, update_local_timestamp h1 ch) ]

  -- `multiplex_handler_write_channel`: channel 0 is the stream itself.
  unfoldable pub multiplex_handler_write_channel :
      MultiplexHandler sys → ℕ → FlexBuffer → Rc × MultiplexHandler sys
  unfolding channels_get multiplex_handler_send_packet send_on_channel
  multiplex_handler_write_channel h cid buf =
      if cid == 0
      then multiplex_handler_send_packet h PacketType.channel_data 0 0 0 (some buf)
      else elim (channels_get h cid) [
        | none ↦ (err Elaerr.not_exist, h)
        | some ch ↦ send_on_channel h ch PacketType.channel_data (some buf)
      ]

  -- `multiplex_handler_pend_channel`. Its packet is empty, so a result that is not negative is 0.
  unfoldable pub multiplex_handler_pend_channel :
      MultiplexHandler sys → ℕ → Rc × MultiplexHandler sys
  unfolding channels_get send_on_channel
  multiplex_handler_pend_channel h cid = elim (channels_get h cid) [
    | none ↦ (err Elaerr.not_exist, h)
    | some ch ↦ send_on_channel h ch PacketType.channel_pending none
  ]

  -- `multiplex_handler_resume_channel`
  unfoldable pub multiplex_handler_resume_channel :
      MultiplexHandler sys → ℕ → Rc × MultiplexHandler sys
  unfolding channels_get send_on_channel
  multiplex_handler_resume_channel h cid = elim (channels_get h cid) [
    | none ↦ (err Elaerr.not_exist, h)
    | some ch ↦ send_on_channel h ch PacketType.channel_resume none
  ]
