-- ===== src/Mux/LimitTests.antt =====
-- Handlers at their limits: a channel on which nothing has been sent for 130 seconds, and a handler
-- whose ids are all in use. See src/session/multiplex_handler.c.
use elastos_net_carrier_nati.Base.{
  ℕ, zero, suc, ◌<◌, ◌≤◌, ◌≡◌, refl, List, [], ◌∷◌, true, false, arith,
}
use elastos_net_carrier_nati.Mux.PacketType
use elastos_net_carrier_nati.Mux.Channel.{Channel, user, open_, Timeval}
use elastos_net_carrier_nati.Mux.Handler.{MultiplexHandler, channels_get}
use elastos_net_carrier_nati.Mux.Receive.{
  channel_type, accepts_type, multiplex_handler_notify_packet,
}
use elastos_net_carrier_nati.Mux.Checkpoint.{check_channel}
use elastos_net_carrier_nati.Mux.Lifecycle.{no_callbacks, multiplex_handler_create}
use elastos_net_carrier_nati.Mux.Transitions.{Holds}
use elastos_net_carrier_nati.Mux.Stream.{exact}
use elastos_net_carrier_nati.Mux.Sending.{packet}
use elastos_net_carrier_nati.Mux.History.{create-IsConsistent}
use elastos_net_carrier_nati.Mux.Checked.{Checked, check_channel-Checked}
use elastos_net_carrier_nati.Mux.Refusal.{IsFull, refusal_ignored}
use elastos_net_carrier_nati.Mux.Simple.{simple, simple-IsLawful, get, member}

abbrev now : Timeval
now = record { sec = 1600000000; usec = 0 }

abbrev earlier : Timeval
earlier = record { sec = 1599999869; usec = 999999 }

-- A channel that has been heard just now, and has not been spoken on for long.
abbrev unspoken : Channel
unspoken = record {
  id = 1;
  remote_id = 7;
  type = user;
  status = open_;
  local_timestamp = earlier;
  remote_timestamp = now;
  last_activity = now;
  timeout = 0;
  sock = 0;
}

abbrev peer : MultiplexHandler simple
peer = (multiplex_handler_create true false no_callbacks []).handler

abbrev lagging : MultiplexHandler simple
lagging = record peer { channels = (1, unspoken) ∷ []; channel_ids = 1 ∷ [] }

lagging-Holds : Holds lagging unspoken
unfolding channels_get get member
lagging-Holds = record { found = refl; used = refl; positive = omega arith }

check_channel-Checked_example : Checked lagging now unspoken (check_channel lagging now unspoken)
check_channel-Checked_example =
    check_channel-Checked simple-IsLawful lagging unspoken lagging-Holds now
      (record {
        seconds = omega arith;
        now_micros = omega arith;
        then_micros = omega arith;
        order = omega arith;
        span = omega arith;
        limit_int = omega arith;
      })
      (record {
        seconds = omega arith;
        now_micros = omega arith;
        then_micros = omega arith;
        order = omega arith;
        span = omega arith;
        limit_int = omega arith;
      })
      (record {
        seconds = omega arith;
        now_micros = omega arith;
        then_micros = omega arith;
        order = omega arith;
        span = omega arith;
        limit_int = omega arith;
      })

-- The ids from n down to 1.
unfoldable ids_to : ℕ → List ℕ
ids_to zero = []
ids_to (suc n) = suc n ∷ ids_to n

member-ids_to : (k n : ℕ) → 0 < k → k ≤ n → member k (ids_to n) ≡ true
unfolding member ids_to
member-ids_to k zero p h = absurd (omega arith)
member-ids_to k (suc n) p h = ground (arith, member-ids_to k n p)

abbrev exhausted : MultiplexHandler simple
exhausted = record peer { channel_ids = ids_to 2048 }

exhausted-IsFull : IsFull simple exhausted.channel_ids
exhausted-IsFull k p h = member-ids_to k 2048 p h

refusal_ignored_example :
    (multiplex_handler_notify_packet exhausted
        (exact (packet PacketType.channel_open 0 5 0 (104 ∷ 105 ∷ [])))
      ≡ record exhausted { world = packet PacketType.channel_open_confirmation 0 0 0 [] ∷ [] })
    × (multiplex_handler_notify_packet peer
          (exact (packet PacketType.channel_open_confirmation 0 0 0 []))
        ≡ peer)
unfolding channel_type accepts_type multiplex_handler_create
refusal_ignored_example =
    refusal_ignored simple-IsLawful exhausted peer 0 5 user (104 ∷ 105 ∷ []) [] exhausted-IsFull
      refl refl refl (omega arith) (omega arith)
      (create-IsConsistent simple-IsLawful true false no_callbacks [])
