-- ===== src/Mux/Handler.antt =====
-- The state of a `MultiplexHandler` and the helpers of src/session/multiplex_handler.c and
-- src/session/channels.h. A function that changes `*handler` returns the new handler.
use elastos_net_carrier_nati.Base.{
  ℕ, List, Bool, true, Option, none, some, replicate, overwrite, ◌==◌, if◌then◌else◌,
}
use elastos_net_carrier_nati.FlexBuffer.{
  FlexBuffer, contents, flex_padding_len, flex_buffer_alloca, flex_buffer_backward_offset,
}
use elastos_net_carrier_nati.Mux.Protocol.{header_bytes, protocol_head_len}
use elastos_net_carrier_nati.Mux.Channel.{
  Channel, ChannelType, CloseReason, Timeval, Rc, ok, err, System,
}

-- The buffer that `multiplex_handler_send_packet` takes where it is given none; the storage, which
-- is not initialised, is written before it is read.
abbrev pub no_payload : FlexBuffer
no_payload = flex_buffer_alloca (replicate flex_padding_len 0) flex_padding_len flex_padding_len

module _ (sys : System) where
  open sys use {
    World, Table, table_get, table_put, table_remove, Ids, ids_free, gettimeofday, next_write,
  }

  -- `struct ChannelCallbacks`; a callback may be missing.
  pub record ChannelCallbacks : Type 0 where
    pub channel_open : Option (Channel → Option (List ℕ) → World → Bool × World)
    pub channel_opened : Option (Channel → World → World)
    pub channel_close : Option (Channel → CloseReason → World → World)
    pub channel_data : Option (Channel → List ℕ → World → Bool × World)
    pub channel_pending : Option (Channel → World → World)
    pub channel_resume : Option (Channel → World → World)

  -- `struct MultiplexHandler`, with the world beside it. `reliable` is `stream_is_reliable` of the
  -- stream, `has_worker` whether there is a port forwarding worker, `has_timer` whether the timer
  -- runs; the buffer of an incomplete packet stands in `Reassembly`.
  pub record MultiplexHandler : Type 0 where
    pub reliable : Bool
    pub has_worker : Bool
    pub has_timer : Bool
    pub callbacks : ChannelType → ChannelCallbacks
    pub channels : Table
    pub channel_ids : Ids
    pub world : World

module _ {sys : System} where
  open sys use {
    World, Table, table_get, table_put, table_remove, Ids, ids_free, gettimeofday, next_write,
  }

  -- Hand the packet that the buffer holds to the handler below.
  unfoldable pub write_next : MultiplexHandler sys → FlexBuffer → Rc × MultiplexHandler sys
  write_next h b = let (rc, w) = next_write (contents b) h.world in (rc, record h { world = w })

  -- `multiplex_handler_send_packet` of a buffer.
  unfoldable pub send_buffer :
      MultiplexHandler sys → ℕ → ℕ → ℕ → ℕ → FlexBuffer → Rc × MultiplexHandler sys
  unfolding write_next
  send_buffer h type option local_channel_id remote_channel_id buf =
      let len = buf.size in
      let b = flex_buffer_backward_offset buf protocol_head_len in
      let header = header_bytes type option local_channel_id remote_channel_id len in
      let (sent, h') = write_next h (record b { buffer = overwrite b.offset header b.buffer }) in
      elim sent [ ok n ↦ (ok len, h') | err e ↦ (err e, h') ]

  -- `multiplex_handler_send_packet`
  unfoldable pub multiplex_handler_send_packet :
      MultiplexHandler sys → ℕ → ℕ → ℕ → ℕ → Option FlexBuffer → Rc × MultiplexHandler sys
  unfolding send_buffer
  multiplex_handler_send_packet h type option local_channel_id remote_channel_id none =
      send_buffer h type option local_channel_id remote_channel_id no_payload
  multiplex_handler_send_packet h type option local_channel_id remote_channel_id (some buf) =
      send_buffer h type option local_channel_id remote_channel_id buf

  -- The `notify_channel_…` functions: a callback that is missing agrees and does nothing.
  unfoldable pub notify_channel_open :
      MultiplexHandler sys → Channel → Option (List ℕ) → Bool × MultiplexHandler sys
  notify_channel_open h ch cookie = elim (h.callbacks ch.type).channel_open [
    | none ↦ (true, h)
    | some f ↦ let (agreed, w) = f ch cookie h.world in (agreed, record h { world = w })
  ]

  unfoldable pub notify_channel_opened : MultiplexHandler sys → Channel → MultiplexHandler sys
  notify_channel_opened h ch = elim (h.callbacks ch.type).channel_opened [
    | none ↦ h
    | some f ↦ record h { world = f ch h.world }
  ]

  unfoldable pub notify_channel_close :
      MultiplexHandler sys → Channel → CloseReason → MultiplexHandler sys
  notify_channel_close h ch reason = elim (h.callbacks ch.type).channel_close [
    | none ↦ h
    | some f ↦ record h { world = f ch reason h.world }
  ]

  unfoldable pub notify_channel_data :
      MultiplexHandler sys → Channel → List ℕ → Bool × MultiplexHandler sys
  notify_channel_data h ch payload = elim (h.callbacks ch.type).channel_data [
    | none ↦ (true, h)
    | some f ↦ let (more, w) = f ch payload h.world in (more, record h { world = w })
  ]

  unfoldable pub notify_channel_pending : MultiplexHandler sys → Channel → MultiplexHandler sys
  notify_channel_pending h ch = elim (h.callbacks ch.type).channel_pending [
    | none ↦ h
    | some f ↦ record h { world = f ch h.world }
  ]

  unfoldable pub notify_channel_resume : MultiplexHandler sys → Channel → MultiplexHandler sys
  notify_channel_resume h ch = elim (h.callbacks ch.type).channel_resume [
    | none ↦ h
    | some f ↦ record h { world = f ch h.world }
  ]

  -- The clock.
  unfoldable pub read_clock : MultiplexHandler sys → Timeval × MultiplexHandler sys
  read_clock h = let (now, w) = gettimeofday h.world in (now, record h { world = w })

  -- `channels_put`. A change of a channel that stands in the table is written back by it.
  unfoldable pub channels_put : MultiplexHandler sys → Channel → MultiplexHandler sys
  channels_put h ch = record h { channels = table_put h.channels ch.id ch }

  unfoldable pub channels_get : MultiplexHandler sys → ℕ → Option Channel
  channels_get h id = table_get h.channels id

  -- `channels_remove`, with `channel_destroy`, which the last reference to the channel runs: its id
  -- goes back to the heap.
  unfoldable pub channels_remove : MultiplexHandler sys → ℕ → MultiplexHandler sys
  channels_remove h id = elim (table_get h.channels id) [
    | none ↦ h
    | some ch ↦ record h {
      channels = table_remove h.channels id;
      channel_ids = if ch.id == 0 then h.channel_ids else ids_free h.channel_ids ch.id;
    }
  ]

  -- `update_remote_timestamp` of a channel in the table.
  unfoldable pub update_remote_timestamp : MultiplexHandler sys → Channel → MultiplexHandler sys
  unfolding read_clock channels_put
  update_remote_timestamp h ch =
      let (now, h') = read_clock h in
      channels_put h' (record ch { remote_timestamp = now; last_activity = now })
