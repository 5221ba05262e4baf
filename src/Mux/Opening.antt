-- ===== src/Mux/Opening.antt =====
-- What an open request does, in src/session/multiplex_handler.c, and the proof that every received
-- packet keeps the table of channels and the id heap in agreement.
use elastos_net_carrier_nati.Base.{
  ℕ, ◌<◌, ◌≤◌, ◌≡◌, refl, ◌⊎◌, inl, inr, List, Bool, true, false, not, Option, none, some, arith,
  ◌==◌, ◌+◌, ltb, ◌&&◌, if◌then◌else◌, if_both,
}
use elastos_net_carrier_nati.FlexBuffer.{FlexBuffer, contents, flex_buffer_forward_offset}
use elastos_net_carrier_nati.Mux.Protocol.{ProtocolBuffer, parse_header, protocol_head_len}
use elastos_net_carrier_nati.Mux.PacketType
use elastos_net_carrier_nati.Mux.Channel.{
  Channel, ChannelType, opening, open_, error, Rc, ok, err, System, IsLawful, max_channel_id,
}
use elastos_net_carrier_nati.Mux.Handler.{
  MultiplexHandler, multiplex_handler_send_packet, notify_channel_open, notify_channel_opened,
  notify_channel_close, read_clock, channels_put, channels_get, channels_remove,
  update_remote_timestamp,
}
use elastos_net_carrier_nati.Mux.Receive.{
  accepts_type, channel_type, zero_time, confirm_open, register_channel, allocate_channel,
  receive_open_type, receive_open, dispatch_to, handle_packet, multiplex_handler_notify_packet,
}
use elastos_net_carrier_nati.Mux.Effects.{
  SameTables, SameTables-refl, SameTables-trans, Touches, same-Touches, Touches-trans,
  notify_open-same, notify_opened-same, notify_close-same, send_packet-same,
}
use elastos_net_carrier_nati.Mux.Transitions.{Holds, put_then_update, removes, dispatch-Steps}
use elastos_net_carrier_nati.Mux.Consistency.{
  IsConsistent, same-IsConsistent, Touches-IsConsistent, consistent-Holds, Steps-IsConsistent,
}

-- What an open request does to the tables: nothing, or a step at an id that was free.
pub data OpenEffect {sys : System} (h h' : MultiplexHandler sys) (remote : ℕ) : Type 0 where
  refused : SameTables h h' → OpenEffect h h' remote
  answered :
      (id : ℕ) (r : Option Channel)
      → channels_get h id ≡ none
      → 0 < id
      → id ≤ max_channel_id
      → ((c : Channel) → r ≡ some c → (c.id ≡ id) × (c.status ≡ open_) × (c.remote_id ≡ remote))
      → Touches h h' id r
      → OpenEffect h h' remote

module _ {sys : System} (h : MultiplexHandler sys) (ch : Channel) (cookie : Option (List ℕ)) where
  abbrev asked : MultiplexHandler sys
  asked = (notify_channel_open h ch cookie).1

  abbrev answer : Rc × MultiplexHandler sys
  answer =
      multiplex_handler_send_packet asked PacketType.channel_open_confirmation 0
        (if (notify_channel_open h ch cookie).0 then ch.id else 0) ch.remote_id none

  abbrev opened : Channel
  opened = record ch { status = open_ }

  confirm_open-cases :
      (confirm_open h ch cookie ≡ channels_remove answer.1 ch.id)
      ⊎ ((confirm_open h ch cookie ≡ channels_remove (notify_channel_close answer.1 ch error) ch.id)
          ⊎ (confirm_open h ch cookie
              ≡ update_remote_timestamp
                  (notify_channel_opened (channels_put answer.1 opened) opened)
                  opened))
  unfolding confirm_open
  confirm_open-cases = go (notify_channel_open h ch cookie).0 refl answer.0 refl
    where
      go :
          (b : Bool)
          → (notify_channel_open h ch cookie).0 ≡ b
          → (rc : Rc) → answer.0 ≡ rc
          → (confirm_open h ch cookie ≡ channels_remove answer.1 ch.id)
            ⊎ ((confirm_open h ch cookie
                  ≡ channels_remove (notify_channel_close answer.1 ch error) ch.id)
                ⊎ (confirm_open h ch cookie
                    ≡ update_remote_timestamp
                        (notify_channel_opened (channels_put answer.1 opened) opened)
                        opened))
      go false e rc f = inl (ground arith)
      go true e (err x) f = inr (inl (ground arith))
      go true e (ok n) f = inr (inr (ground arith))

module _ {sys : System} (law : IsLawful sys) where
  open sys use {ids_used, ids_alloc}

  confirm_open-Touches :
      (h : MultiplexHandler sys) (ch : Channel) (cookie : Option (List ℕ))
      → Holds h ch
      → (r : Option Channel) × Touches h (confirm_open h ch cookie) ch.id r
        × ((c : Channel)
            → r ≡ some c
            → (c.id ≡ ch.id) × (c.status ≡ open_) × (c.remote_id ≡ ch.remote_id))
  confirm_open-Touches h ch cookie at = elim (confirm_open-cases h ch cookie) [
    | inl e ↦ rw e (none, removes law h ch at _ same, λ c f. cc)
    | inr (inl e) ↦ rw e (
      none,
      removes law h ch at _ (SameTables-trans same (notify_close-same _ ch error)),
      λ c f. cc,
    )
    | inr (inr e) ↦
        let (c, t, i, r, s) =
          put_then_update law (answer h ch cookie).1 _ (opened h ch cookie) (rw same.ids at.used)
            (notify_opened-same _ _) in
        rw e (some c, same-Touches same t, λ c' f. ground arith)
  ]
    where
      same : SameTables h (answer h ch cookie).1
      same = SameTables-trans (notify_open-same h ch cookie) (send_packet-same _ _ _ _ _ _)

  -- A new channel under an id that the heap has just given out.
  pub enrolls :
      (h h1 : MultiplexHandler sys) (cid : ℕ) (ids : sys.Ids) (ch : Channel)
      → ids_alloc h.channel_ids ≡ some (cid, ids)
      → h1.channels ≡ h.channels
      → h1.channel_ids ≡ ids
      → Touches h (channels_put h1 (record ch { id = cid })) cid (some (record ch { id = cid }))
  unfolding channels_put channels_get
  enrolls h h1 cid ids ch e c i = record {
    table = λ k. ground (arith, law.get-put h1.channels cid k (record ch { id = cid }));
    heap = λ k. ground (arith, law.used-alloc h.channel_ids cid ids k e);
  }

  pub Touches-Holds :
      {h h' : MultiplexHandler sys} (ch : Channel)
      → Touches h h' ch.id (some ch)
      → 0 < ch.id
      → Holds h' ch
  Touches-Holds ch t p = record {
    found = ground (arith, t.table ch.id);
    used = ground (arith, t.heap ch.id);
    positive = p;
  }

  pub free_id :
      (h : MultiplexHandler sys) (id : ℕ)
      → IsConsistent h
      → ids_used h.channel_ids id ≡ false
      → channels_get h id ≡ none
  free_id h id v u = ground (arith, v.agree id)

  register_channel-OpenEffect :
      (h : MultiplexHandler sys) (pb : ProtocolBuffer) (type : ChannelType)
      (cookie : Option (List ℕ))
      → IsConsistent h
      → (a : Option (ℕ × sys.Ids)) → ids_alloc h.channel_ids ≡ a
      → OpenEffect h (register_channel h pb type cookie a) pb.remote_channel_id
  unfolding register_channel read_clock
  register_channel-OpenEffect h pb type cookie v none e =
      refused (send_packet-same h PacketType.channel_open_confirmation 0 0 0 none)
  register_channel-OpenEffect h pb type cookie v (some (cid, ids)) e =
      let (fresh, p, q) = law.alloc_fresh h.channel_ids cid ids e in
      let ch : Channel = record {
        id = cid;
        remote_id = pb.remote_channel_id;
        type = type;
        status = opening;
        local_timestamp = zero_time;
        remote_timestamp = (sys.gettimeofday h.world).0;
        last_activity = (sys.gettimeofday h.world).0;
        timeout = 0;
        sock = 0;
      } in
      let enrolled =
        enrolls h (record h { channel_ids = ids; world = (sys.gettimeofday h.world).1 }) cid ids ch
          e refl refl in
      let (r, t, o) = confirm_open-Touches _ ch cookie (Touches-Holds ch enrolled p) in
      answered cid r (free_id h cid v fresh) p q o (Touches-trans enrolled t)

  -- An open request opens at most one channel. It stands under an id that was free, between 1 and
  -- 2048, knows the id of the peer's channel and is open; all other channels stay as they were.
  pub receive_open-OpenEffect :
      (h : MultiplexHandler sys) (pb : ProtocolBuffer) (cookie : Option (List ℕ))
      → IsConsistent h
      → OpenEffect h (receive_open h pb cookie) pb.remote_channel_id
  unfolding receive_open receive_open_type allocate_channel channels_get
  receive_open-OpenEffect h pb cookie v = go (channel_type pb.option)
    where
      same : SameTables h h
      same = SameTables-refl h

      allocate :
          (type : ChannelType) (b : Bool)
          → OpenEffect h
              (if b
                then register_channel
                    (record h { world = (sys.rc_zalloc h.world).1 })
                    pb
                    type
                    cookie
                    (ids_alloc h.channel_ids)
                else record h { world = (sys.rc_zalloc h.world).1 })
              pb.remote_channel_id
      allocate type false =
          refused (record { channels = refl; ids = refl; worker = refl; mode = refl })
      allocate type true =
          elim (register_channel-OpenEffect (record h { world = (sys.rc_zalloc h.world).1 }) pb type
            cookie (record { agree = v.agree; named = v.named }) (ids_alloc h.channel_ids) refl) [
              | refused s ↦
                  refused (record {
                    channels = s.channels;
                    ids = s.ids;
                    worker = s.worker;
                    mode = s.mode;
                  })
              | answered id r f p q o t ↦
                  answered id r f p q o (record { table = t.table; heap = t.heap })
            ]

      go :
          (o : Option ChannelType)
          → OpenEffect h (receive_open_type h pb cookie o) pb.remote_channel_id
      go none = refused same
      go (some type) =
          if_both (λ h'. OpenEffect h h' pb.remote_channel_id) (accepts_type h type)
            (allocate type (sys.rc_zalloc h.world).0) (refused same)

  pub OpenEffect-IsConsistent :
      {h h' : MultiplexHandler sys} {n : ℕ} → IsConsistent h → OpenEffect h h' n → IsConsistent h'
  OpenEffect-IsConsistent v (refused s) = same-IsConsistent v s
  OpenEffect-IsConsistent v (answered id r f p q o t) =
      Touches-IsConsistent v id r p q (λ c e. (o c e).0) t

  handle_packet-IsConsistent :
      (h : MultiplexHandler sys) (pb : ProtocolBuffer) (payload : List ℕ)
      → IsConsistent h
      → IsConsistent (handle_packet h pb payload)
  unfolding handle_packet dispatch_to
  handle_packet-IsConsistent h pb payload v =
      if_both IsConsistent for_stream
        (same-IsConsistent {h' = passed} v
          (record { channels = refl; ids = refl; worker = refl; mode = refl }))
        (if_both IsConsistent (pb.type == PacketType.channel_open)
          (OpenEffect-IsConsistent v (receive_open-OpenEffect h pb cookie v))
          (go (channels_get h pb.local_channel_id) refl))
    where
      for_stream : Bool
      for_stream =
          pb.remote_channel_id == 0
          && (pb.local_channel_id == 0 && pb.type == PacketType.channel_data)

      passed : MultiplexHandler sys
      passed = record h { world = sys.prev_on_data payload h.world }

      cookie : Option (List ℕ)
      cookie = if pb.payload_len == 0 then none else some payload

      go :
          (o : Option Channel)
          → channels_get h pb.local_channel_id ≡ o
          → IsConsistent (dispatch_to h pb payload o)
      go none e = v
      go (some ch) e =
          Steps-IsConsistent pb.local_channel_id ch v e
            (dispatch-Steps law h ch (consistent-Holds pb.local_channel_id ch v e) pb payload)

  -- Whatever bytes arrive as a packet, the table of channels and the id heap go on to agree: no id is
  -- lost, none is given out twice, and every channel stands under its own id between 1 and 2048.
  pub notify_packet-IsConsistent :
      (h : MultiplexHandler sys) (buf : FlexBuffer)
      → IsConsistent h
      → IsConsistent (multiplex_handler_notify_packet h buf)
  unfolding multiplex_handler_notify_packet
  notify_packet-IsConsistent h buf v =
      let pb = parse_header (contents buf) in
      let payload = contents (flex_buffer_forward_offset buf protocol_head_len) in
      if_both IsConsistent (ltb buf.size protocol_head_len) v (
        if_both IsConsistent (not (buf.size == pb.payload_len + protocol_head_len)) v
          (handle_packet-IsConsistent h pb payload v))
