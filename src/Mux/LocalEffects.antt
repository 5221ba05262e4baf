-- ===== src/Mux/LocalEffects.antt =====
-- What the application's calls and the walks over all channels do to the tables: see Mux/Local and
-- Mux/Checkpoint.
use elastos_net_carrier_nati.Base.{
  ℕ, ◌≡◌, refl, not, ◌&&◌, Option, none, some, ◌==◌, ◌*◌, ◌%◌, ◌^◌, if◌then◌else◌, if_both,
}
use elastos_net_carrier_nati.Elaerr
use elastos_net_carrier_nati.FlexBuffer.{FlexBuffer}
use elastos_net_carrier_nati.Mux.PacketType
use elastos_net_carrier_nati.Mux.Channel.{
  Channel, normal, timeout, Rc, ok, err, System, IsLawful, Timeval,
}
use elastos_net_carrier_nati.Mux.Handler.{
  MultiplexHandler, multiplex_handler_send_packet, read_clock, channels_put, channels_get,
}
use elastos_net_carrier_nati.Mux.Receive.{is_active}
use elastos_net_carrier_nati.Mux.Local.{
  finish_close, multiplex_handler_close_channel, send_on_channel, update_local_timestamp,
  multiplex_handler_write_channel, multiplex_handler_pend_channel, multiplex_handler_resume_channel,
}
use elastos_net_carrier_nati.Mux.Checkpoint.{
  interval_bits, reaches, expire, keep_alive, check_channel, keepalive_interval,
  keepalive_timeout_interval,
}
use elastos_net_carrier_nati.Mux.Effects.{
  SameTables, SameTables-refl, SameTables-trans, Touches, same-Touches, notify_close-same,
  send_packet-same, read_clock-same, channels_put-Touches,
}
use elastos_net_carrier_nati.Mux.Transitions.{kept, removed, Holds, Steps, stays, removes}
use elastos_net_carrier_nati.Mux.Consistency.{
  IsConsistent, same-IsConsistent, consistent-Holds, Steps-IsConsistent,
}

module _ {sys : System} (law : IsLawful sys) (h : MultiplexHandler sys) (ch : Channel)
    (at : Holds h ch) where
  send_on_channel-Steps :
      (packet : ℕ) (buf : Option FlexBuffer) → Steps h ch (send_on_channel h ch packet buf).1
  unfolding send_on_channel update_local_timestamp
  send_on_channel-Steps packet buf =
      if_both P (not (is_active ch.status)) unchanged
        (if_both P (ch.remote_id == 0) unchanged (go sent.0))
    where
      P : Rc × MultiplexHandler sys → Type 0
      P r = Steps h ch r.1

      sent : Rc × MultiplexHandler sys
      sent = multiplex_handler_send_packet h packet 0 ch.id ch.remote_id buf

      unchanged : Steps h ch h
      unchanged = stays law h ch at h (SameTables-refl h)

      same : SameTables h sent.1
      same = send_packet-same h packet 0 ch.id ch.remote_id buf

      go :
          (rc : Rc)
          → P (elim rc as (λ _. Rc × MultiplexHandler sys) [
            | err e ↦ (err e, sent.1)
            | ok n ↦ (ok n, update_local_timestamp sent.1 ch)
          ])
      go (err e) = stays law h ch at sent.1 same
      go (ok n) = (
        _,
        same-Touches (SameTables-trans same (read_clock-same sent.1)) (
            channels_put-Touches law (read_clock sent.1).1 _
              (rw (read_clock-same sent.1).ids (rw same.ids at.used))),
        kept _ refl refl refl refl,
      )

  finish_close-Touches :
      (told : MultiplexHandler sys)
      → SameTables h told
      → Touches h (finish_close told ch) ch.id none
  unfolding finish_close
  finish_close-Touches told s =
      removes law h ch at _ (SameTables-trans s (notify_close-same told ch normal))

  expire-Steps : Steps h ch (expire h ch)
  unfolding expire
  expire-Steps = (none, removes law h ch at _ (notify_close-same h ch timeout), removed refl)

  keep_alive-Steps : (now : Timeval) → Steps h ch (keep_alive h now ch)
  unfolding keep_alive
  keep_alive-Steps now = go sent.0
    where
      sent : Rc × MultiplexHandler sys
      sent = multiplex_handler_send_packet h PacketType.channel_keep_alive 0 ch.id ch.remote_id none

      same : SameTables h sent.1
      same = send_packet-same h PacketType.channel_keep_alive 0 ch.id ch.remote_id none

      go :
          (rc : Rc)
          → Steps h ch (elim rc as (λ _. MultiplexHandler sys) [
            | err e ↦ sent.1
            | ok n ↦ channels_put sent.1 (record ch { local_timestamp = now })
          ])
      go (err e) = stays law h ch at sent.1 same
      go (ok n) = (
        _,
        same-Touches same (
            channels_put-Touches law sent.1 (record ch { local_timestamp = now })
              (rw same.ids at.used)),
        kept _ refl refl refl refl,
      )

  -- The periodic check of a channel is a step of that channel; Mux/Checked says which one.
  pub check_channel-Steps : (now : Timeval) → Steps h ch (check_channel h now ch)
  unfolding check_channel
  check_channel-Steps now =
      if_both (Steps h ch)
        (not (ch.timeout == 0)
          && reaches (interval_bits now ch.last_activity) (ch.timeout * 1000 % 2 ^ 32))
        expire-Steps
        (if_both (Steps h ch)
          (reaches (interval_bits now ch.remote_timestamp) keepalive_timeout_interval) expire-Steps
          (if_both (Steps h ch) (reaches (interval_bits now ch.local_timestamp) keepalive_interval)
            (keep_alive-Steps now) (stays law h ch at h (SameTables-refl h))))

-- A call for a channel by its id: nothing if the table has none, else a step of that channel.
module _ {sys : System} (law : IsLawful sys) (h : MultiplexHandler sys) (v : IsConsistent h) where
  open sys use {ids_alloc}

  by_id :
      (cid code : ℕ) (f : Channel → Rc × MultiplexHandler sys)
      → ((ch : Channel) → Holds h ch → Steps h ch (f ch).1)
      → (o : Option Channel) → channels_get h cid ≡ o
      → IsConsistent
          (elim o as (λ _. Rc × MultiplexHandler sys) [ none ↦ (err code, h) | some ch ↦ f ch ]).1
  by_id cid code f s none e = v
  by_id cid code f s (some ch) e =
      Steps-IsConsistent cid ch v e (s ch (consistent-Holds cid ch v e))

  pub write-IsConsistent :
      (cid : ℕ) (buf : FlexBuffer) → IsConsistent (multiplex_handler_write_channel h cid buf).1
  unfolding multiplex_handler_write_channel
  write-IsConsistent cid buf =
      if_both (λ (r : Rc × MultiplexHandler sys). IsConsistent r.1) (cid == 0)
        (same-IsConsistent v (send_packet-same h PacketType.channel_data 0 0 0 (some buf)))
        (by_id cid Elaerr.not_exist (λ ch. send_on_channel h ch PacketType.channel_data (some buf))
          (λ ch at. send_on_channel-Steps law h ch at PacketType.channel_data (some buf))
          (channels_get h cid) refl)

  pub pend-IsConsistent : (cid : ℕ) → IsConsistent (multiplex_handler_pend_channel h cid).1
  unfolding multiplex_handler_pend_channel
  pend-IsConsistent cid =
      by_id cid Elaerr.not_exist (λ ch. send_on_channel h ch PacketType.channel_pending none)
        (λ ch at. send_on_channel-Steps law h ch at PacketType.channel_pending none)
        (channels_get h cid) refl

  pub resume-IsConsistent : (cid : ℕ) → IsConsistent (multiplex_handler_resume_channel h cid).1
  unfolding multiplex_handler_resume_channel
  resume-IsConsistent cid =
      by_id cid Elaerr.not_exist (λ ch. send_on_channel h ch PacketType.channel_resume none)
        (λ ch at. send_on_channel-Steps law h ch at PacketType.channel_resume none)
        (channels_get h cid) refl

  pub close-IsConsistent : (cid : ℕ) → IsConsistent (multiplex_handler_close_channel h cid).1
  unfolding multiplex_handler_close_channel
  close-IsConsistent cid =
      by_id cid Elaerr.not_exist closed
        (λ ch at. (none, finish_close-Touches law h ch at (told ch) (same ch), removed refl))
        (channels_get h cid) refl
    where
      told : Channel → MultiplexHandler sys
      told ch =
          if ch.remote_id == 0
          then h
          else (multiplex_handler_send_packet h PacketType.channel_close 0 ch.id ch.remote_id
              none).1

      closed : Channel → Rc × MultiplexHandler sys
      closed ch = (ok 0, finish_close (told ch) ch)

      same : (ch : Channel) → SameTables h (told ch)
      same ch =
          if_both (SameTables h) (ch.remote_id == 0) (SameTables-refl h)
            (send_packet-same h PacketType.channel_close 0 ch.id ch.remote_id none)
