-- ===== src/Mux/Transitions.antt =====
-- What a received packet may do to a channel: the state machine of `ChannelStatus`, and the proof
-- that each handler of src/session/multiplex_handler.c follows it and leaves the other channels alone.
use elastos_net_carrier_nati.Base.{
  ℕ, ◌<◌, ◌≡◌, refl, sym, subst, ◌⊎◌, inl, inr, List, true, Option, none, some, arith, ◌==◌,
  Bool-cases, if_both,
}
use elastos_net_carrier_nati.Mux.Protocol.{ProtocolBuffer}
use elastos_net_carrier_nati.Mux.Channel.{
  Channel, ChannelStatus, opening, open_, pending, closing, normal, error, System, IsLawful,
}
use elastos_net_carrier_nati.Mux.Handler.{
  MultiplexHandler, notify_channel_opened, notify_channel_close, notify_channel_data,
  notify_channel_pending, notify_channel_resume, read_clock, channels_put, channels_get,
  channels_remove, update_remote_timestamp,
}
use elastos_net_carrier_nati.Mux.Receive.{
  is_active, receive_open_confirmation, receive_data, receive_keep_alive, receive_pending,
  receive_resume, receive_close, dispatch,
}
use elastos_net_carrier_nati.Mux.Effects.{
  SameTables, SameTables-refl, SameTables-trans, Touches, same-Touches, Touches-same, Touches-trans,
  Touches-none_changed, notify_opened-same, notify_close-same, notify_data-same,
  notify_pending-same, notify_resume-same, read_clock-same, channels_put-Touches,
  channels_remove-Touches, update_remote-Touches,
}

-- What may become of the channel `ch`: `r` is what the table has for its id afterwards.
pub data Outcome (ch : Channel) (r : Option Channel) : Type 0 where
  kept :
      (c : Channel)
      → r ≡ some c
      → c.id ≡ ch.id
      → c.remote_id ≡ ch.remote_id
      → c.status ≡ ch.status
      → Outcome ch r
  confirmed :
      (c : Channel)
      → r ≡ some c
      → c.id ≡ ch.id
      → ch.status ≡ opening
      → c.status ≡ open_
      → 0 < c.remote_id
      → Outcome ch r
  paused :
      (c : Channel)
      → r ≡ some c
      → c.id ≡ ch.id
      → c.remote_id ≡ ch.remote_id
      → ch.status ≡ open_
      → c.status ≡ pending
      → Outcome ch r
  resumed :
      (c : Channel)
      → r ≡ some c
      → c.id ≡ ch.id
      → c.remote_id ≡ ch.remote_id
      → ch.status ≡ pending
      → c.status ≡ open_
      → Outcome ch r
  removed : r ≡ none → Outcome ch r

module _ {sys : System} where
  open sys use {ids_used}

  -- `h` has the channel in its table, under an id that is in use.
  pub record Holds (h : MultiplexHandler sys) (ch : Channel) : Type 0 where
    pub found : channels_get h ch.id ≡ some ch
    pub used : ids_used h.channel_ids ch.id ≡ true
    pub positive : 0 < ch.id

  -- The effect of a packet on a handler that holds `ch`.
  abbrev pub Steps : MultiplexHandler sys → Channel → MultiplexHandler sys → Type 0
  Steps h ch h' = (r : Option Channel) × Touches h h' ch.id r × Outcome ch r

-- Which branch a handler takes: it ignores the packet, changes the channel, or removes it.
module _ {sys : System} (h : MultiplexHandler sys) (ch : Channel) where
  abbrev with_pending : Channel
  with_pending = record ch { status = pending }

  abbrev with_open : ℕ → Channel
  with_open remote = record ch { status = open_; remote_id = remote }

  receive_pending-cases :
      (s : ChannelStatus)
      → ch.status ≡ s
      → (receive_pending h ch ≡ h)
        ⊎ ((ch.status ≡ open_)
            × (receive_pending h ch
                ≡ update_remote_timestamp
                    (notify_channel_pending (channels_put h with_pending) with_pending)
                    with_pending))
  unfolding receive_pending
  receive_pending-cases open_ e = inr (e, ground arith)
  receive_pending-cases opening e = inl (ground arith)
  receive_pending-cases pending e = inl (ground arith)
  receive_pending-cases closing e = inl (ground arith)

  receive_resume-cases :
      (s : ChannelStatus)
      → ch.status ≡ s
      → (receive_resume h ch ≡ h)
        ⊎ ((ch.status ≡ pending)
            × (receive_resume h ch
                ≡ update_remote_timestamp
                    (notify_channel_resume
                      (channels_put h (with_open ch.remote_id))
                      (with_open ch.remote_id))
                    (with_open ch.remote_id)))
  unfolding receive_resume
  receive_resume-cases pending e = inr (e, ground arith)
  receive_resume-cases opening e = inl (ground arith)
  receive_resume-cases open_ e = inl (ground arith)
  receive_resume-cases closing e = inl (ground arith)

  receive_open_confirmation-cases :
      (pb : ProtocolBuffer) (s : ChannelStatus)
      → ch.status ≡ s
      → (receive_open_confirmation h ch pb ≡ h)
        ⊎ ((receive_open_confirmation h ch pb
              ≡ channels_remove (notify_channel_close h ch error) ch.id)
            ⊎ ((ch.status ≡ opening)
                × (0 < pb.remote_channel_id)
                × (receive_open_confirmation h ch pb
                    ≡ update_remote_timestamp
                        (notify_channel_opened
                          (channels_put h (with_open pb.remote_channel_id))
                          (with_open pb.remote_channel_id))
                        (with_open pb.remote_channel_id))))
  unfolding receive_open_confirmation
  receive_open_confirmation-cases pb opening e = elim (Bool-cases (pb.remote_channel_id == 0)) [
    | inl z ↦ inr (inl (ground arith))
    | inr n ↦ inr (inr (e, ground arith, ground arith))
  ]
  receive_open_confirmation-cases pb open_ e = inl (ground arith)
  receive_open_confirmation-cases pb pending e = inl (ground arith)
  receive_open_confirmation-cases pb closing e = inl (ground arith)

  abbrev after_data : List ℕ → MultiplexHandler sys
  after_data payload = (notify_channel_data h ch payload).1

  receive_data-cases :
      (payload : List ℕ)
      → (receive_data h ch payload ≡ h)
        ⊎ ((receive_data h ch payload ≡ update_remote_timestamp (after_data payload) ch)
            ⊎ (receive_data h ch payload
                ≡ channels_remove (notify_channel_close (after_data payload) ch error) ch.id))
  unfolding receive_data
  receive_data-cases payload = elim (Bool-cases (is_active ch.status)) [
    | inr n ↦ inl (ground arith)
    | inl y ↦ elim (Bool-cases (notify_channel_data h ch payload).0) [
      | inl m ↦ inr (inl (ground arith))
      | inr m ↦ inr (inr (ground arith))
    ]
  ]

module _ {sys : System} (law : IsLawful sys) (h : MultiplexHandler sys) where
  open sys use {ids_used}

  -- A new value of the channel, a callback, then the time of the packet.
  pub put_then_update :
      (h1 : MultiplexHandler sys) (ch : Channel)
      → ids_used h.channel_ids ch.id ≡ true
      → SameTables (channels_put h ch) h1
      → (c : Channel) × Touches h (update_remote_timestamp h1 ch) ch.id (some c)
        × (c.id ≡ ch.id)
        × (c.remote_id ≡ ch.remote_id)
        × (c.status ≡ ch.status)
  put_then_update h1 ch u s =
      let first = Touches-same (channels_put-Touches law h ch u) s in
      let (c, t, i, r, st, ty) =
        update_remote-Touches law h1 ch (ground (arith, first.heap ch.id)) in
      (c, Touches-trans first t, i, r, st)

  module _ (ch : Channel) (at : Holds h ch) where
    pub stays : (h1 : MultiplexHandler sys) → SameTables h h1 → Steps h ch h1
    stays h1 s = (
      some ch,
      Touches-none_changed ch.id (some ch) s at.found at.used,
      kept ch refl refl refl refl,
    )

    pub removes :
        (h1 : MultiplexHandler sys)
        → SameTables h h1
        → Touches h (channels_remove h1 ch.id) ch.id none
    unfolding channels_get
    removes h1 s =
        same-Touches s
          (channels_remove-Touches law h1 ch.id ch (rw s.channels at.found) refl at.positive)

    remove_after :
        (h1 : MultiplexHandler sys) → SameTables h h1 → Steps h ch (channels_remove h1 ch.id)
    remove_after h1 s = (none, removes h1 s, removed refl)

    pub receive_close-Steps : Steps h ch (receive_close h ch)
    unfolding receive_close
    receive_close-Steps = remove_after _ (notify_close-same h ch normal)

    pub receive_keep_alive-Steps : Steps h ch (receive_keep_alive h ch)
    unfolding receive_keep_alive
    receive_keep_alive-Steps = (
      _,
      same-Touches (read_clock-same h)
          (channels_put-Touches law (read_clock h).1 _ (rw (read_clock-same h).ids at.used)),
      kept _ refl refl refl refl,
    )

    pub receive_pending-Steps : Steps h ch (receive_pending h ch)
    receive_pending-Steps = elim (receive_pending-cases h ch ch.status refl) [
      | inl e ↦ subst (Steps h ch) (sym e) (stays h (SameTables-refl h))
      | inr (s, e) ↦
          let (c, t, i, r, st) =
            put_then_update _ (with_pending h ch) at.used (notify_pending-same _ _) in
          subst (Steps h ch) (sym e) (some c, t, paused c refl i r s st)
    ]

    pub receive_resume-Steps : Steps h ch (receive_resume h ch)
    receive_resume-Steps = elim (receive_resume-cases h ch ch.status refl) [
      | inl e ↦ subst (Steps h ch) (sym e) (stays h (SameTables-refl h))
      | inr (s, e) ↦
          let (c, t, i, r, st) =
            put_then_update _ (with_open h ch ch.remote_id) at.used (notify_resume-same _ _) in
          subst (Steps h ch) (sym e) (some c, t, resumed c refl i r s st)
    ]

    pub receive_open_confirmation-Steps :
        (pb : ProtocolBuffer) → Steps h ch (receive_open_confirmation h ch pb)
    receive_open_confirmation-Steps pb =
        elim (receive_open_confirmation-cases h ch pb ch.status refl) [
          | inl e ↦ subst (Steps h ch) (sym e) (stays h (SameTables-refl h))
          | inr (inl e) ↦ subst (Steps h ch) (sym e) (remove_after _ (notify_close-same h ch error))
          | inr (inr (s, p, e)) ↦
              let (c, t, i, r, st) =
                put_then_update _ (with_open h ch pb.remote_channel_id) at.used
                  (notify_opened-same _ _) in
              subst (Steps h ch) (sym e) (some c, t, confirmed c refl i s st (omega arith))
        ]

    -- Data leaves an active channel as it is, but for the time, or closes it.
    pub receive_data-Steps : (payload : List ℕ) → Steps h ch (receive_data h ch payload)
    receive_data-Steps payload =
        let same = notify_data-same h ch payload in
        elim (receive_data-cases h ch payload) [
          | inl e ↦ subst (Steps h ch) (sym e) (stays h (SameTables-refl h))
          | inr (inr e) ↦
              subst (Steps h ch) (sym e)
                (remove_after _ (SameTables-trans same (notify_close-same _ ch error)))
          | inr (inl e) ↦
              let (c, t, i, r, st, ty) =
                update_remote-Touches law (after_data h ch payload) ch (rw same.ids at.used) in
              subst (Steps h ch) (sym e) (some c, same-Touches same t, kept c refl i r st)
        ]

    -- A packet for a channel that the handler holds changes that channel along the state machine of
    -- `Outcome`: it stays as it is, is confirmed while opening, is paused while open, is resumed while
    -- pending, or is removed with its id freed. Every other channel and every other id stays as it was.
    pub dispatch-Steps :
        (pb : ProtocolBuffer) (payload : List ℕ) → Steps h ch (dispatch h ch pb payload)
    unfolding dispatch
    dispatch-Steps pb payload = if_both (Steps h ch) _ (receive_open_confirmation-Steps pb) (
        if_both (Steps h ch) _ (receive_data-Steps payload) (
          if_both (Steps h ch) _ receive_keep_alive-Steps (
            if_both (Steps h ch) _ receive_pending-Steps (
              if_both (Steps h ch) _ receive_resume-Steps
                (if_both (Steps h ch) _ receive_close-Steps (stays h (SameTables-refl h)))))))
