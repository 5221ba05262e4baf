-- ===== src/Mux/Requests.antt =====
-- What `multiplex_handler_open_channel` of src/session/multiplex_handler.c returns and does.
use elastos_net_carrier_nati.Base.{
  ℕ, ◌<◌, ◌≤◌, ◌≡◌, refl, List, Bool, true, false, Option, none, some, arith, if◌then◌else◌,
}
use elastos_net_carrier_nati.Elaerr
use elastos_net_carrier_nati.Mux.PacketType
use elastos_net_carrier_nati.Mux.Channel.{
  Channel, ChannelType, tcp_portforwarding, opening, Rc, ok, err, System, IsLawful, max_channel_id,
}
use elastos_net_carrier_nati.Mux.Handler.{
  MultiplexHandler, multiplex_handler_send_packet, read_clock, channels_put, channels_get,
  channels_remove,
}
use elastos_net_carrier_nati.Mux.Receive.{zero_time}
use elastos_net_carrier_nati.Mux.Local.{
  type_number, cookie_payload, request_open, enroll_channel, multiplex_handler_open_channel,
}
use elastos_net_carrier_nati.Mux.Effects.{
  SameTables, Touches, Touches-same, Touches-trans, send_packet-same,
}
use elastos_net_carrier_nati.Mux.Transitions.{removes}
use elastos_net_carrier_nati.Mux.Opening.{free_id, enrolls, Touches-Holds}
use elastos_net_carrier_nati.Mux.Consistency.{IsConsistent, Touches-IsConsistent}

-- What `multiplex_handler_open_channel` returns and does: it fails without a trace in the tables, or
-- returns an id that was free, under which the table now has an opening channel with no peer.
pub data OpenResult {sys : System} (h : MultiplexHandler sys) (r : Rc × MultiplexHandler sys)
    : Type 0 where
  failed :
      (e : ℕ)
      → r.0 ≡ err e
      → ((k : ℕ)
          → (channels_get r.1 k ≡ channels_get h k)
            × (sys.ids_used r.1.channel_ids k ≡ sys.ids_used h.channel_ids k))
      → OpenResult h r
  requested :
      (id : ℕ) (c : Channel)
      → r.0 ≡ ok id
      → channels_get h id ≡ none
      → 0 < id
      → id ≤ max_channel_id
      → c.id ≡ id
      → c.status ≡ opening
      → c.remote_id ≡ 0
      → Touches h r.1 id (some c)
      → OpenResult h r

module _ {sys : System} (law : IsLawful sys) where
  open sys use {ids_used, ids_alloc, rc_zalloc}

  -- Taking the new channel out again restores the tables.
  untouched :
      {h h' : MultiplexHandler sys} (id : ℕ)
      → channels_get h id ≡ none
      → ids_used h.channel_ids id ≡ false
      → Touches h h' id none
      → (k : ℕ)
      → (channels_get h' k ≡ channels_get h k)
        × (ids_used h'.channel_ids k ≡ ids_used h.channel_ids k)
  untouched id e u t k = (ground (arith, t.table k), ground (arith, t.heap k))

  request_open-OpenResult :
      (h h0 : MultiplexHandler sys) (ch : Channel) (cookie : Option (List ℕ))
      → channels_get h ch.id ≡ none
      → ids_used h.channel_ids ch.id ≡ false
      → Touches h h0 ch.id (some ch)
      → 0 < ch.id
      → ch.id ≤ max_channel_id
      → ch.status ≡ opening
      → ch.remote_id ≡ 0
      → OpenResult h (request_open h0 ch cookie)
  unfolding request_open
  request_open-OpenResult h h0 ch cookie free unused t p q st rm = go sent.0
    where
      sent : Rc × MultiplexHandler sys
      sent =
          multiplex_handler_send_packet h0 PacketType.channel_open (type_number ch.type) ch.id
            ch.remote_id (cookie_payload cookie)

      same : SameTables h0 sent.1
      same =
          send_packet-same h0 PacketType.channel_open (type_number ch.type) ch.id ch.remote_id
            (cookie_payload cookie)

      go :
          (rc : Rc)
          → OpenResult h (elim rc as (λ _. Rc × MultiplexHandler sys) [
            | err e ↦ (err e, channels_remove sent.1 ch.id)
            | ok n ↦ (ok ch.id, sent.1)
          ])
      go (err e) = failed e refl (
          untouched ch.id free unused
            (Touches-trans t (removes law h0 ch (Touches-Holds law ch t p) sent.1 same)))
      go (ok n) = requested ch.id ch refl free p q refl st rm (Touches-same t same)

  enroll_channel-OpenResult :
      (h : MultiplexHandler sys) (type : ChannelType) (cookie : Option (List ℕ)) (limit sock : ℕ)
      → IsConsistent h
      → (a : Option (ℕ × sys.Ids)) → ids_alloc h.channel_ids ≡ a
      → OpenResult h (enroll_channel h type cookie limit sock a)
  unfolding enroll_channel read_clock
  enroll_channel-OpenResult h type cookie limit sock v none e =
      failed Elaerr.limit_exceeded refl (λ k. (refl, refl))
  enroll_channel-OpenResult h type cookie limit sock v (some (cid, ids)) e =
      let (fresh, p, q) = law.alloc_fresh h.channel_ids cid ids e in
      let ch : Channel = record {
        id = cid;
        remote_id = 0;
        type = type;
        status = opening;
        local_timestamp = zero_time;
        remote_timestamp = (sys.gettimeofday h.world).0;
        last_activity = (sys.gettimeofday h.world).0;
        timeout = limit;
        sock = elim type [ tcp_portforwarding ↦ sock | _ ↦ 0 ];
      } in
      let h1 = record h { channel_ids = ids; world = (sys.gettimeofday h.world).1 } in
      request_open-OpenResult h (channels_put h1 ch) ch cookie (free_id law h cid v fresh) fresh
        (enrolls law h h1 cid ids ch e refl refl) p q refl refl

  -- Opening a channel either fails and leaves the table and the ids as they were, or returns an id
  -- between 1 and 2048 that was free, under which the table now has a channel that is opening and has
  -- no peer yet, and nothing else is changed.
  pub open_channel-OpenResult :
      (h : MultiplexHandler sys) (type : ChannelType) (cookie : Option (List ℕ)) (limit sock : ℕ)
      → IsConsistent h
      → OpenResult h (multiplex_handler_open_channel h type cookie limit sock)
  unfolding multiplex_handler_open_channel channels_get
  open_channel-OpenResult h type cookie limit sock v = go (rc_zalloc h.world).0
    where
      h0 : MultiplexHandler sys
      h0 = record h { world = (rc_zalloc h.world).1 }

      go :
          (b : Bool)
          → OpenResult h (
              if b
              then enroll_channel h0 type cookie limit sock (ids_alloc h.channel_ids)
              else (err Elaerr.out_of_memory, h0))
      go false = failed Elaerr.out_of_memory refl (λ k. (refl, refl))
      go true =
          elim (enroll_channel-OpenResult h0 type cookie limit sock
            (record { agree = v.agree; named = v.named }) (ids_alloc h.channel_ids) refl) [
              | failed e r s ↦ failed e r s
              | requested id c r f p q i st rm t ↦
                  requested id c r f p q i st rm (record { table = t.table; heap = t.heap })
            ]

  pub OpenResult-IsConsistent :
      {h : MultiplexHandler sys} {r : Rc × MultiplexHandler sys}
      → IsConsistent h
      → OpenResult h r
      → IsConsistent r.1
  OpenResult-IsConsistent v (failed e r s) = record {
    agree = λ k. ground (arith, s k, v.agree k);
    named = λ k c e'. v.named k c (ground (arith, s k));
  }
  OpenResult-IsConsistent v (requested id c r f p q i st rm t) =
      Touches-IsConsistent v id (some c) p q (λ c' e. ground arith) t
