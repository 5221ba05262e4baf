-- ===== src/Mux/Lifecycle.antt =====
-- The handler in the stream's pipeline: creation, start, stop, data and state changes, of
-- src/session/multiplex_handler.c.
use elastos_net_carrier_nati.Base.{
  ℕ, Bool, true, false, Option, none, some, ltb, ◌==◌, zero, suc, if◌then◌else◌, replicate,
}
use elastos_net_carrier_nati.FlexBuffer.{
  FlexBuffer, flex_padding_len, flex_buffer_max_len, flex_buffer_init,
}
use elastos_net_carrier_nati.Mux.Channel.{
  ChannelType, user, udp_portforwarding, tcp_portforwarding, normal, error, Rc, ok, err, System,
}
use elastos_net_carrier_nati.Mux.Handler.{ChannelCallbacks, MultiplexHandler}
use elastos_net_carrier_nati.Mux.Receive.{multiplex_handler_notify_packet}
use elastos_net_carrier_nati.Mux.Reassembly.{StreamHandler, multiplex_handler_notify_data}
use elastos_net_carrier_nati.Mux.Local.{multiplex_handler_write_channel}
use elastos_net_carrier_nati.Mux.Checkpoint.{multiplex_handler_close_channels}

-- `ElaStreamState_closed`: the states from here on are those of a stream that has ended.
abbrev pub ela_stream_state_closed : ℕ
ela_stream_state_closed = 6

module _ {sys : System} where
  open sys use {
    World, table_create, ids_init, next_start, next_stop, prev_on_state_changed, create_timer,
    destroy_timer, worker_start, worker_stop,
  }

  -- `user_channel_callbacks` over the stream's callbacks: one that is missing agrees and does nothing.
  unfoldable pub user_channel_callbacks : ChannelCallbacks sys → ChannelCallbacks sys
  user_channel_callbacks s = record {
    channel_open =
        some (λ ch cookie w. elim s.channel_open [ none ↦ (true, w) | some f ↦ f ch cookie w ]);
    channel_opened = some (λ ch w. elim s.channel_opened [ none ↦ w | some f ↦ f ch w ]);
    channel_close =
        some (λ ch reason w. elim s.channel_close [ none ↦ w | some f ↦ f ch reason w ]);
    channel_data = some (λ ch bs w. elim s.channel_data [ none ↦ (true, w) | some f ↦ f ch bs w ]);
    channel_pending = some (λ ch w. elim s.channel_pending [ none ↦ w | some f ↦ f ch w ]);
    channel_resume = some (λ ch w. elim s.channel_resume [ none ↦ w | some f ↦ f ch w ]);
  }

  -- The callbacks of a type that nobody has set.
  abbrev pub no_callbacks : ChannelCallbacks sys
  no_callbacks = record {
    channel_open = none;
    channel_opened = none;
    channel_close = none;
    channel_data = none;
    channel_pending = none;
    channel_resume = none;
  }

  -- `multiplex_handler_set_channel_callbacks`
  unfoldable pub multiplex_handler_set_channel_callbacks :
      MultiplexHandler sys → ChannelType → ChannelCallbacks sys → MultiplexHandler sys
  multiplex_handler_set_channel_callbacks h user cs = record h {
    callbacks = λ t. elim t [
      | user ↦ cs
      | udp_portforwarding ↦ h.callbacks udp_portforwarding
      | tcp_portforwarding ↦ h.callbacks tcp_portforwarding
    ];
  }
  multiplex_handler_set_channel_callbacks h udp_portforwarding cs = record h {
    callbacks = λ t. elim t [
      | user ↦ h.callbacks user
      | udp_portforwarding ↦ cs
      | tcp_portforwarding ↦ h.callbacks tcp_portforwarding
    ];
  }
  multiplex_handler_set_channel_callbacks h tcp_portforwarding cs = record h {
    callbacks = λ t. elim t [
      | user ↦ h.callbacks user
      | udp_portforwarding ↦ h.callbacks udp_portforwarding
      | tcp_portforwarding ↦ cs
    ];
  }

  -- `multiplex_handler_create` where every allocation succeeds. The port forwarding worker, which
  -- sets its own callbacks, is there if the stream has port forwarding.
  unfoldable pub multiplex_handler_create :
      Bool → Bool → ChannelCallbacks sys → World → StreamHandler sys
  unfolding user_channel_callbacks multiplex_handler_set_channel_callbacks flex_buffer_init
  multiplex_handler_create reliable portforwarding stream_callbacks w =
      let empty : MultiplexHandler sys = record {
        reliable = reliable;
        has_worker = portforwarding;
        has_timer = false;
        callbacks = λ t. no_callbacks;
        channels = table_create;
        channel_ids = ids_init;
        world = w;
      } in
      record {
        handler =
            multiplex_handler_set_channel_callbacks empty user
              (user_channel_callbacks stream_callbacks);
        incomplete_buf =
            flex_buffer_init (replicate flex_buffer_max_len 0) flex_buffer_max_len flex_padding_len;
      }

  -- The last step of `multiplex_handler_start`.
  unfoldable pub start_worker : MultiplexHandler sys → Rc × MultiplexHandler sys
  start_worker h =
      let (rc, w) = worker_start h.world in
      if h.has_worker
      then elim rc [
        | err e ↦ (err e, record h { world = w })
        | ok n ↦ (ok 0, record h { world = w })
      ]
      else (ok 0, h)

  -- `multiplex_handler_start`: the handler below first, then on an unreliable stream the timer of the
  -- keep-alive packets, then the worker.
  unfoldable pub multiplex_handler_start : MultiplexHandler sys → Rc × MultiplexHandler sys
  unfolding start_worker
  multiplex_handler_start h =
      let (rc, w) = next_start h.world in
      let h1 = record h { world = w } in
      let (rt, w2) = create_timer w in
      elim rc [
        | err e ↦ (err e, h1)
        | ok zero ↦ if h.reliable then start_worker h1 else elim rt [
          | err e ↦ (err e, record h { world = w2 })
          | ok n ↦ start_worker (record h { world = w2; has_timer = true })
        ]
        | ok (suc n) ↦ (ok (suc n), h1)
      ]

  -- `multiplex_handler_stop`
  unfoldable pub multiplex_handler_stop : MultiplexHandler sys → MultiplexHandler sys
  unfolding multiplex_handler_close_channels
  multiplex_handler_stop h =
      let h1 = multiplex_handler_close_channels h normal in
      let h2 =
        if h1.has_timer
        then record h1 { world = destroy_timer h1.world; has_timer = false }
        else h1 in
      let h3 = if h2.has_worker then record h2 { world = worker_stop h2.world } else h2 in
      record h3 { world = next_stop h3.world }

  -- `multiplex_handler_write`: the stream's own data is channel 0.
  unfoldable pub multiplex_handler_write :
      MultiplexHandler sys → FlexBuffer → Rc × MultiplexHandler sys
  unfolding multiplex_handler_write_channel
  multiplex_handler_write h buf = multiplex_handler_write_channel h 0 buf

  -- `multiplex_handler_on_data`
  unfoldable pub multiplex_handler_on_data :
      StreamHandler sys → FlexBuffer → Option (StreamHandler sys)
  unfolding multiplex_handler_notify_data multiplex_handler_notify_packet
  multiplex_handler_on_data s buf =
      if s.handler.reliable
      then multiplex_handler_notify_data s buf
      else some (record s { handler = multiplex_handler_notify_packet s.handler buf })

  -- `multiplex_handler_on_state_changed`: a stream that ends takes its channels along.
  unfoldable pub multiplex_handler_on_state_changed :
      MultiplexHandler sys → ℕ → MultiplexHandler sys
  unfolding multiplex_handler_close_channels
  multiplex_handler_on_state_changed h state =
      let reason = if state == ela_stream_state_closed then normal else error in
      let h1 =
        if ltb state ela_stream_state_closed
        then h
        else multiplex_handler_close_channels h reason in
      record h1 { world = prev_on_state_changed state h1.world }
