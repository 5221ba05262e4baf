-- ===== src/Mux/Checkpoint.antt =====
-- `multiplex_handler_checkpoint` and `multiplex_handler_close_channels` of
-- src/session/multiplex_handler.c: the walks over all channels. The `goto` that starts a walk again
-- answers a table that another thread changed meanwhile, which is not modelled.
use elastos_net_carrier_nati.Base.{
  ℕ, ◌+◌, ◌-◌, ◌*◌, ◌/◌, ◌%◌, ◌^◌, List, [], ◌∷◌, Bool, not, ◌&&◌, none, ◌==◌, leb, if◌then◌else◌,
}
use elastos_net_carrier_nati.Mux.PacketType
use elastos_net_carrier_nati.Mux.Channel.{Channel, CloseReason, timeout, Timeval, ok, err, System}
use elastos_net_carrier_nati.Mux.Handler.{
  MultiplexHandler, multiplex_handler_send_packet, notify_channel_close, read_clock, channels_put,
  channels_remove,
}

abbrev pub keepalive_interval : ℕ
keepalive_interval = 30000

abbrev pub keepalive_timeout_interval : ℕ
keepalive_timeout_interval = 130000

-- `(int)((now.tv_sec - t.tv_sec) * 1000) + (int)((now.tv_usec - t.tv_usec) / 1000)` as the bit pattern
-- of an `int`: the first part is cut to 32 bits, the second is rounded towards 0.
unfoldable pub interval_bits : Timeval → Timeval → ℕ
interval_bits now t =
    let seconds = (now.sec + 2 ^ 64 - t.sec) * 1000 % 2 ^ 32 in
    if leb t.usec now.usec
    then (seconds + (now.usec - t.usec) / 1000) % 2 ^ 32
    else (seconds + 2 ^ 32 - (t.usec - now.usec) / 1000) % 2 ^ 32

-- `a >= b` of two `int`s, given by their bit patterns.
unfoldable pub reaches : ℕ → ℕ → Bool
reaches a b = leb ((b + 2 ^ 31) % 2 ^ 32) ((a + 2 ^ 31) % 2 ^ 32)

module _ {sys : System} where
  open sys use {table_entries}

  -- A channel that has run out of time is closed and taken out of the table.
  unfoldable pub expire : MultiplexHandler sys → Channel → MultiplexHandler sys
  unfolding notify_channel_close channels_remove
  expire h ch = channels_remove (notify_channel_close h ch timeout) ch.id

  unfoldable pub keep_alive : MultiplexHandler sys → Timeval → Channel → MultiplexHandler sys
  unfolding multiplex_handler_send_packet channels_put
  keep_alive h now ch =
      let (rc, h1) =
        multiplex_handler_send_packet h PacketType.channel_keep_alive 0 ch.id ch.remote_id none in
      elim rc [ err e ↦ h1 | ok n ↦ channels_put h1 (record ch { local_timestamp = now }) ]

  -- The body of the walk.
  unfoldable pub check_channel : MultiplexHandler sys → Timeval → Channel → MultiplexHandler sys
  unfolding interval_bits reaches expire keep_alive
  check_channel h now ch =
      if not (ch.timeout == 0)
        && reaches (interval_bits now ch.last_activity) (ch.timeout * 1000 % 2 ^ 32)
      then expire h ch
      else if reaches (interval_bits now ch.remote_timestamp) keepalive_timeout_interval
      then expire h ch
      else if reaches (interval_bits now ch.local_timestamp) keepalive_interval
      then keep_alive h now ch
      else h

  unfoldable pub check_channels :
      MultiplexHandler sys → Timeval → List Channel → MultiplexHandler sys
  unfolding check_channel
  check_channels h now [] = h
  check_channels h now (ch ∷ chs) = check_channels (check_channel h now ch) now chs

  -- `multiplex_handler_checkpoint`
  unfoldable pub multiplex_handler_checkpoint : MultiplexHandler sys → MultiplexHandler sys
  unfolding read_clock check_channels
  multiplex_handler_checkpoint h =
      let (now, h1) = read_clock h in check_channels h1 now (table_entries h1.channels)

  unfoldable pub close_each :
      MultiplexHandler sys → CloseReason → List Channel → MultiplexHandler sys
  unfolding channels_remove notify_channel_close
  close_each h reason [] = h
  close_each h reason (ch ∷ chs) =
      close_each (notify_channel_close (channels_remove h ch.id) ch reason) reason chs

  -- `multiplex_handler_close_channels`
  unfoldable pub multiplex_handler_close_channels :
      MultiplexHandler sys → CloseReason → MultiplexHandler sys
  unfolding close_each
  multiplex_handler_close_channels h reason = close_each h reason (table_entries h.channels)
