-- ===== src/Mux/Checked.antt =====
-- What the periodic check of src/session/multiplex_handler.c does to a channel, and when: the walk of
-- `multiplex_handler_checkpoint` against the time that has passed.
use elastos_net_carrier_nati.Base.{
  ℕ, ◌+◌, ◌-◌, ◌*◌, ◌%◌, ◌^◌, ◌<◌, ◌≡◌, ◌≢◌, ◌⊎◌, inl, inr, refl, sym, ap, subst, [], Bool, true,
  false, not, ◌&&◌, none, some, if_cases, ◌==◌, arith,
}
use native.Mathlib.Decide.{dec_le}
use elastos_net_carrier_nati.Mux.PacketType
use elastos_net_carrier_nati.Mux.Channel.{Channel, Timeval, timeout, Rc, ok, err, System, IsLawful}
use elastos_net_carrier_nati.Mux.Handler.{
  MultiplexHandler, notify_channel_close, channels_put, channels_remove,
}
use elastos_net_carrier_nati.Mux.Checkpoint.{
  interval_bits, reaches, expire, keep_alive, check_channel, keepalive_interval,
  keepalive_timeout_interval,
}
use elastos_net_carrier_nati.Mux.Effects.{
  Touches, same-Touches, notify_close-same, channels_put-Touches,
}
use elastos_net_carrier_nati.Mux.Transitions.{Holds, removes}
use elastos_net_carrier_nati.Mux.Timing.{IsSpan, micros, reaches_after, reaches_only_after}
use elastos_net_carrier_nati.Mux.Sending.{packet}
use elastos_net_carrier_nati.Mux.Signals.{signalled, send_signal}

-- More than a limit in milliseconds has passed, but for the last millisecond; and less than it.
abbrev pub IsOver : Timeval → Timeval → ℕ → Type 0
IsOver now t limit = limit * 1000 < micros now - micros t + 1000

abbrev pub IsUnder : Timeval → Timeval → ℕ → Type 0
IsUnder now t limit = micros now - micros t < limit * 1000

not_reached-IsUnder :
    (now t : Timeval) (limit : ℕ)
    → IsSpan now t limit
    → reaches (interval_bits now t) limit ≡ false
    → IsUnder now t limit
not_reached-IsUnder now t limit s e = elim (dec_le (limit * 1000) (micros now - micros t)) [
  | yes late ↦ absurd (ground (arith, e, reaches_after now t limit s late))
  | no early ↦ omega (arith, early)
]

-- The peer has not been silent for 130 seconds, nor the channel idle for its own timeout, if it has
-- one.
abbrev pub IsAlive : Timeval → Channel → Type 0
IsAlive now ch =
    (ch.timeout ≢ 0 → IsUnder now ch.last_activity (ch.timeout * 1000))
    × IsUnder now ch.remote_timestamp keepalive_timeout_interval

-- What the check does. A channel whose time is over is taken out of the table, its id is freed and
-- its callback is told; nothing else of the tables is changed. One that is alive, and on which the
-- handler has been silent for 30 seconds, has a keep-alive packet sent, and notes the time if the
-- packet went out. Else nothing happens.
pub data Checked {sys : System} (h : MultiplexHandler sys) (now : Timeval) (ch : Channel)
    (h' : MultiplexHandler sys) : Type 0 where
  expired :
      ((ch.timeout ≢ 0) × IsOver now ch.last_activity (ch.timeout * 1000))
        ⊎ IsOver now ch.remote_timestamp keepalive_timeout_interval
      → Touches h h' ch.id none
      → h'.world ≡ (notify_channel_close h ch timeout).world
      → Checked h now ch h'
  sent :
      (n : ℕ) (w : sys.World)
      → IsAlive now ch
      → IsOver now ch.local_timestamp keepalive_interval
      → sys.next_write (packet PacketType.channel_keep_alive 0 ch.id ch.remote_id []) h.world
        ≡ (ok n, w)
      → Touches h h' ch.id (some (record ch { local_timestamp = now }))
      → h'.world ≡ w
      → Checked h now ch h'
  unsent :
      (e : ℕ) (w : sys.World)
      → IsAlive now ch
      → IsOver now ch.local_timestamp keepalive_interval
      → sys.next_write (packet PacketType.channel_keep_alive 0 ch.id ch.remote_id []) h.world
        ≡ (err e, w)
      → h' ≡ record h { world = w }
      → Checked h now ch h'
  quiet :
      IsAlive now ch
      → IsUnder now ch.local_timestamp keepalive_interval
      → h' ≡ h
      → Checked h now ch h'

-- The test of the idle time.
abbrev is_idle : Timeval → Channel → Bool
is_idle now ch =
    not (ch.timeout == 0)
    && reaches (interval_bits now ch.last_activity) (ch.timeout * 1000 % 2 ^ 32)

module _ (now : Timeval) (ch : Channel)
    (idle : IsSpan now ch.last_activity (ch.timeout * 1000)) where
  no_wrap : ch.timeout * 1000 % 2 ^ 32 ≡ ch.timeout * 1000
  no_wrap = omega (arith, idle.limit_int)

  idle-IsOver :
      is_idle now ch ≡ true → (ch.timeout ≢ 0) × IsOver now ch.last_activity (ch.timeout * 1000)
  idle-IsOver e = (
    λ z. ground (arith, e, z),
    reaches_only_after now ch.last_activity (ch.timeout * 1000) idle (
        subst (λ m. reaches (interval_bits now ch.last_activity) m ≡ true) no_wrap
          (ground (arith, e))),
  )

  active-IsUnder :
      is_idle now ch ≡ false → ch.timeout ≢ 0 → IsUnder now ch.last_activity (ch.timeout * 1000)
  active-IsUnder e z = not_reached-IsUnder now ch.last_activity (ch.timeout * 1000) idle (
      subst (λ m. reaches (interval_bits now ch.last_activity) m ≡ false) no_wrap
        (ground (arith, e, z)))

channels_remove-world :
    {sys : System} (h : MultiplexHandler sys) (id : ℕ) → (channels_remove h id).world ≡ h.world
unfolding channels_remove
channels_remove-world h id = ground arith

module _ {sys : System} (law : IsLawful sys) (h : MultiplexHandler sys) (ch : Channel)
    (at : Holds h ch) (now : Timeval) where
  expire-Checked :
      ((ch.timeout ≢ 0) × IsOver now ch.last_activity (ch.timeout * 1000))
        ⊎ IsOver now ch.remote_timestamp keepalive_timeout_interval
      → Checked h now ch (expire h ch)
  unfolding expire
  expire-Checked over =
      expired over (removes law h ch at _ (notify_close-same h ch timeout))
        (channels_remove-world (notify_channel_close h ch timeout) ch.id)

  keep_alive-Checked :
      IsAlive now ch
      → IsOver now ch.local_timestamp keepalive_interval
      → (rc : Rc) (w : sys.World)
      → sys.next_write (packet PacketType.channel_keep_alive 0 ch.id ch.remote_id []) h.world
        ≡ (rc, w)
      → Checked h now ch (keep_alive h now ch)
  unfolding keep_alive channels_put
  keep_alive-Checked alive over rc w e =
      subst (Checked h now ch)
        (sym (ap after (send_signal h PacketType.channel_keep_alive 0 ch.id ch.remote_id rc w e)))
        (go rc e)
    where
      after : Rc × MultiplexHandler sys → MultiplexHandler sys
      after (r, h1) = elim r as (λ _. MultiplexHandler sys) [
        | err c ↦ h1
        | ok n ↦ channels_put h1 (record ch { local_timestamp = now })
      ]

      go :
          (r : Rc)
          → sys.next_write (packet PacketType.channel_keep_alive 0 ch.id ch.remote_id []) h.world
            ≡ (r, w)
          → Checked h now ch (after (signalled r, record h { world = w }))
      go (err c) p = unsent c w alive over p refl
      go (ok n) p =
          sent n w alive over p
            (same-Touches (record { channels = refl; ids = refl; worker = refl; mode = refl })
              (channels_put-Touches law (record h { world = w })
                (record ch { local_timestamp = now }) at.used))
            refl

  -- The periodic check of a channel that the handler holds, whose times are in order and less than
  -- 2147482 seconds back. It is removed, its id freed and its close callback called, only if it has
  -- been idle for its own timeout or the peer silent for 130 seconds, each but for the last
  -- millisecond. Otherwise neither limit has passed, and a keep-alive packet goes to the handler below
  -- if nothing has been sent for 30 seconds, but for the last millisecond; the channel notes the time
  -- if that packet was taken. Other channels and ids stay as they are, and if less than 30 seconds
  -- have passed nothing happens at all.
  pub check_channel-Checked :
      IsSpan now ch.last_activity (ch.timeout * 1000)
      → IsSpan now ch.remote_timestamp keepalive_timeout_interval
      → IsSpan now ch.local_timestamp keepalive_interval
      → Checked h now ch (check_channel h now ch)
  unfolding check_channel
  check_channel-Checked idle heard said =
      if_cases (Checked h now ch) (is_idle now ch)
        (λ e. expire-Checked (inl (idle-IsOver now ch idle e)))
        (λ active.
          if_cases (Checked h now ch)
            (reaches (interval_bits now ch.remote_timestamp) keepalive_timeout_interval)
            (λ e.
              expire-Checked (
                inr
                  (reaches_only_after now ch.remote_timestamp keepalive_timeout_interval heard e)))
            (λ here.
              let alive : IsAlive now ch = (
                active-IsUnder now ch idle active,
                not_reached-IsUnder now ch.remote_timestamp keepalive_timeout_interval heard here,
              ) in
              if_cases (Checked h now ch)
                (reaches (interval_bits now ch.local_timestamp) keepalive_interval)
                (λ e.
                  keep_alive-Checked alive
                    (reaches_only_after now ch.local_timestamp keepalive_interval said e) _ _ refl)
                (λ e.
                  quiet alive (not_reached-IsUnder now ch.local_timestamp keepalive_interval said e)
                    refl)))
