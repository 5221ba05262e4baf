-- ===== src/Mux/History.antt =====
-- Any sequence of packets, calls, checks and state changes on a handler of
-- src/session/multiplex_handler.c.
use elastos_net_carrier_nati.Base.{
  ℕ, refl, List, [], ◌∷◌, Bool, Option, arith, ltb, ◌==◌, if◌then◌else◌, if_both,
}
use elastos_net_carrier_nati.FlexBuffer.{FlexBuffer}
use elastos_net_carrier_nati.Mux.Channel.{ChannelType, System, IsLawful, CloseReason, normal, error}
use elastos_net_carrier_nati.Mux.Handler.{ChannelCallbacks, MultiplexHandler, channels_get}
use elastos_net_carrier_nati.Mux.Receive.{multiplex_handler_notify_packet}
use elastos_net_carrier_nati.Mux.Local.{
  multiplex_handler_open_channel, multiplex_handler_close_channel, multiplex_handler_write_channel,
  multiplex_handler_pend_channel, multiplex_handler_resume_channel,
}
use elastos_net_carrier_nati.Mux.Checkpoint.{
  multiplex_handler_checkpoint, multiplex_handler_close_channels,
}
use elastos_net_carrier_nati.Mux.Lifecycle.{
  ela_stream_state_closed, multiplex_handler_create, multiplex_handler_set_channel_callbacks,
  multiplex_handler_on_state_changed,
}
use elastos_net_carrier_nati.Mux.Consistency.{IsConsistent, same-IsConsistent}
use elastos_net_carrier_nati.Mux.Opening.{notify_packet-IsConsistent}
use elastos_net_carrier_nati.Mux.Requests.{open_channel-OpenResult, OpenResult-IsConsistent}
use elastos_net_carrier_nati.Mux.LocalEffects.{
  close-IsConsistent, write-IsConsistent, pend-IsConsistent, resume-IsConsistent,
}
use elastos_net_carrier_nati.Mux.Walks.{checkpoint-IsConsistent, close_channels_lem}

pub data Event : Type 0 where
  packet : FlexBuffer → Event
  open_channel : ChannelType → Option (List ℕ) → ℕ → ℕ → Event
  close_channel pend_channel resume_channel : ℕ → Event
  write_channel : ℕ → FlexBuffer → Event
  checkpoint : Event
  state_changed : ℕ → Event

module _ {sys : System} where
  pub step : MultiplexHandler sys → Event → MultiplexHandler sys
  step h (packet buf) = multiplex_handler_notify_packet h buf
  step h (open_channel type cookie limit sock) =
      (multiplex_handler_open_channel h type cookie limit sock).1
  step h (close_channel cid) = (multiplex_handler_close_channel h cid).1
  step h (pend_channel cid) = (multiplex_handler_pend_channel h cid).1
  step h (resume_channel cid) = (multiplex_handler_resume_channel h cid).1
  step h (write_channel cid buf) = (multiplex_handler_write_channel h cid buf).1
  step h checkpoint = multiplex_handler_checkpoint h
  step h (state_changed state) = multiplex_handler_on_state_changed h state

  pub run : MultiplexHandler sys → List Event → MultiplexHandler sys
  run h [] = h
  run h (e ∷ es) = run (step h e) es

module _ {sys : System} (law : IsLawful sys) where
  state_changed-IsConsistent :
      (h : MultiplexHandler sys) (state : ℕ)
      → IsConsistent h
      → IsConsistent (multiplex_handler_on_state_changed h state)
  unfolding multiplex_handler_on_state_changed
  state_changed-IsConsistent h state v =
      same-IsConsistent {h = after}
        (if_both IsConsistent (ltb state ela_stream_state_closed) v
          (close_channels_lem law h reason v).0)
        (record { channels = refl; ids = refl; worker = refl; mode = refl })
    where
      reason : CloseReason
      reason = if state == ela_stream_state_closed then normal else error

      after : MultiplexHandler sys
      after =
          if ltb state ela_stream_state_closed then h else multiplex_handler_close_channels h reason

  step-IsConsistent :
      (h : MultiplexHandler sys) (e : Event) → IsConsistent h → IsConsistent (step h e)
  unfolding step
  step-IsConsistent h (packet buf) v = notify_packet-IsConsistent law h buf v
  step-IsConsistent h (open_channel type cookie limit sock) v =
      OpenResult-IsConsistent law v (open_channel-OpenResult law h type cookie limit sock v)
  step-IsConsistent h (close_channel cid) v = close-IsConsistent law h v cid
  step-IsConsistent h (pend_channel cid) v = pend-IsConsistent law h v cid
  step-IsConsistent h (resume_channel cid) v = resume-IsConsistent law h v cid
  step-IsConsistent h (write_channel cid buf) v = write-IsConsistent law h v cid buf
  step-IsConsistent h checkpoint v = checkpoint-IsConsistent law h v
  step-IsConsistent h (state_changed state) v = state_changed-IsConsistent h state v

  run-IsConsistent :
      (h : MultiplexHandler sys) (es : List Event) → IsConsistent h → IsConsistent (run h es)
  unfolding run
  run-IsConsistent h [] v = v
  run-IsConsistent h (e ∷ es) v = run-IsConsistent (step h e) es (step-IsConsistent h e v)

  pub create-IsConsistent :
      (reliable portforwarding : Bool) (cs : ChannelCallbacks sys) (w : sys.World)
      → IsConsistent (multiplex_handler_create reliable portforwarding cs w).handler
  unfolding multiplex_handler_create multiplex_handler_set_channel_callbacks channels_get
  create-IsConsistent reliable portforwarding cs w = record {
    agree = λ k. ground (arith, law.used-init k, law.get-create k);
    named = λ k c e. ground (arith, law.get-create k);
  }

  -- A handler fresh from `multiplex_handler_create` goes on, through any packets, calls, periodic
  -- checks and state changes of the stream, to have an id in use exactly for the channels in its
  -- table, each under its own id between 1 and 2048.
  pub run-create-IsConsistent :
      (reliable portforwarding : Bool) (cs : ChannelCallbacks sys) (w : sys.World) (es : List Event)
      → IsConsistent (run (multiplex_handler_create reliable portforwarding cs w).handler es)
  run-create-IsConsistent reliable portforwarding cs w es =
      run-IsConsistent _ es (create-IsConsistent reliable portforwarding cs w)
