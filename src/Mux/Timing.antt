-- ===== src/Mux/Timing.antt =====
-- The intervals of `multiplex_handler_checkpoint` in src/session/multiplex_handler.c: `int`
-- milliseconds between two times, against the time that has passed.
use elastos_net_carrier_nati.Base.{
  ℕ, ◌+◌, ◌-◌, ◌*◌, ◌/◌, ◌%◌, ◌^◌, ◌<◌, ◌≤◌, ◌≡◌, ap, true, false, arith,
}
use elastos_net_carrier_nati.Mux.Channel.{Channel, Timeval, System}
use elastos_net_carrier_nati.Mux.Handler.{MultiplexHandler}
use elastos_net_carrier_nati.Mux.Receive.{zero_time}
use elastos_net_carrier_nati.Mux.Checkpoint.{
  interval_bits, reaches, check_channel, keepalive_interval, keepalive_timeout_interval,
}

abbrev pub micros : Timeval → ℕ
micros t = t.sec * 1000000 + t.usec

-- Times that are less than 2147482 seconds apart, in order, and a limit that an `int` holds.
pub record IsSpan (now t : Timeval) (limit : ℕ) : Type 0 where
  pub seconds : now.sec < 2 ^ 62
  pub now_micros : now.usec < 1000000
  pub then_micros : t.usec < 1000000
  pub order : micros t ≤ micros now
  pub span : now.sec < t.sec + 2147482
  pub limit_int : limit < 2 ^ 31

-- Over a span of less than 2147482 seconds the test of an interval against a limit in milliseconds
-- holds once the limit has passed.
pub reaches_after :
    (now t : Timeval) (limit : ℕ)
    → IsSpan now t limit
    → limit * 1000 ≤ micros now - micros t
    → reaches (interval_bits now t) limit ≡ true
unfolding interval_bits reaches
reaches_after now t limit s p =
    ground (arith, s.seconds, s.now_micros, s.then_micros, s.order, s.span, s.limit_int)

-- Over a span of less than 2147482 seconds the test of an interval against a limit in milliseconds
-- holds only if at most the last millisecond of the limit has not passed.
pub reaches_only_after :
    (now t : Timeval) (limit : ℕ)
    → IsSpan now t limit
    → reaches (interval_bits now t) limit ≡ true
    → limit * 1000 < micros now - micros t + 1000
unfolding interval_bits reaches
reaches_only_after now t limit s p =
    ground (arith, s.seconds, s.now_micros, s.then_micros, s.order, s.span, s.limit_int)

module _ {sys : System} where
  -- For a channel without a timeout of its own whose `local_timestamp` is still 0, whenever bit 31 of
  -- the clock in milliseconds is set, the periodic check does nothing at all as long as the peer is
  -- heard.
  pub check_channel_silent :
      (h : MultiplexHandler sys) (now : Timeval) (ch : Channel)
      → ch.local_timestamp ≡ zero_time
      → ch.timeout ≡ 0
      → reaches (interval_bits now ch.remote_timestamp) keepalive_timeout_interval ≡ false
      → now.sec < 2 ^ 62
      → 2 ^ 31 ≤ (now.sec * 1000 + now.usec / 1000) % 2 ^ 32
      → check_channel h now ch ≡ h
  unfolding check_channel
  check_channel_silent h now ch z t r s b =
      ground (arith, quiet, ap (λ x. reaches (interval_bits now x) keepalive_interval) z)
    where
      quiet : reaches (interval_bits now zero_time) keepalive_interval ≡ false
      quiet = unfold reaches interval_bits in ground arith
