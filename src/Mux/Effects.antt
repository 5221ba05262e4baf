-- ===== src/Mux/Effects.antt =====
-- What the helpers of Mux/Handler do to the table of channels and to the id heap: the callbacks, the
-- clock and the packets leave both alone, and `channels_put` and `channels_remove` touch one id.
use elastos_net_carrier_nati.Base.{
  ℕ, ◌<◌, ◌≡◌, refl, ◌∙◌, List, Bool, true, false, Option, none, some, arith, ◌==◌, if◌then◌else◌,
}
use elastos_net_carrier_nati.FlexBuffer.{FlexBuffer}
use elastos_net_carrier_nati.Mux.Channel.{Channel, CloseReason, Timeval, System, IsLawful}
use elastos_net_carrier_nati.Mux.Handler.{
  MultiplexHandler, write_next, send_buffer, multiplex_handler_send_packet, notify_channel_open,
  notify_channel_opened, notify_channel_close, notify_channel_data, notify_channel_pending,
  notify_channel_resume, read_clock, channels_put, channels_get, channels_remove,
  update_remote_timestamp,
}

abbrev pub is_some {ℓ} : {A : Type ℓ} → Option A → Bool
is_some none = false
is_some (some a) = true

module _ {sys : System} where
  open sys use {ids_used}

  -- The two handlers have the same channels and the same ids in use.
  pub record SameTables (h h' : MultiplexHandler sys) : Type 0 where
    pub channels : h'.channels ≡ h.channels
    pub ids : h'.channel_ids ≡ h.channel_ids
    pub worker : h'.has_worker ≡ h.has_worker
    pub mode : h'.reliable ≡ h.reliable

  -- `h'` differs from `h` at the one id, where it has `r`: in the table, and as a used or free id.
  pub record Touches (h h' : MultiplexHandler sys) (id : ℕ) (r : Option Channel) : Type 0 where
    pub table : (k : ℕ) → channels_get h' k ≡ (if id == k then r else channels_get h k)
    pub heap :
        (k : ℕ)
        → ids_used h'.channel_ids k ≡ (if id == k then is_some r else ids_used h.channel_ids k)

  pub SameTables-refl : (h : MultiplexHandler sys) → SameTables h h
  SameTables-refl h = record { channels = refl; ids = refl; worker = refl; mode = refl }

  pub SameTables-trans :
      {h h' h'' : MultiplexHandler sys} → SameTables h h' → SameTables h' h'' → SameTables h h''
  SameTables-trans s t = record {
    channels = t.channels ∙ s.channels;
    ids = t.ids ∙ s.ids;
    worker = t.worker ∙ s.worker;
    mode = t.mode ∙ s.mode;
  }

  module _ (h : MultiplexHandler sys) where
    pub write_next-same : (b : FlexBuffer) → SameTables h (write_next h b).1
    unfolding write_next
    write_next-same b = record { channels = refl; ids = refl; worker = refl; mode = refl }

    pub send_buffer-same :
        (t o l r : ℕ) (buf : FlexBuffer) → SameTables h (send_buffer h t o l r buf).1
    unfolding send_buffer write_next
    send_buffer-same t o l r buf = ground arith

    pub send_packet-same :
        (t o l r : ℕ) (buf : Option FlexBuffer)
        → SameTables h (multiplex_handler_send_packet h t o l r buf).1
    unfolding multiplex_handler_send_packet
    send_packet-same t o l r none = send_buffer-same t o l r _
    send_packet-same t o l r (some buf) = send_buffer-same t o l r buf

    module _ (ch : Channel) where
      pub notify_open-same :
          (cookie : Option (List ℕ)) → SameTables h (notify_channel_open h ch cookie).1
      unfolding notify_channel_open
      notify_open-same cookie = ground arith

      pub notify_opened-same : SameTables h (notify_channel_opened h ch)
      unfolding notify_channel_opened
      notify_opened-same = ground arith

      pub notify_close-same :
          (reason : CloseReason) → SameTables h (notify_channel_close h ch reason)
      unfolding notify_channel_close
      notify_close-same reason = ground arith

      pub notify_data-same : (payload : List ℕ) → SameTables h (notify_channel_data h ch payload).1
      unfolding notify_channel_data
      notify_data-same payload = ground arith

      pub notify_pending-same : SameTables h (notify_channel_pending h ch)
      unfolding notify_channel_pending
      notify_pending-same = ground arith

      pub notify_resume-same : SameTables h (notify_channel_resume h ch)
      unfolding notify_channel_resume
      notify_resume-same = ground arith

    pub read_clock-same : SameTables h (read_clock h).1
    unfolding read_clock
    read_clock-same = record { channels = refl; ids = refl; worker = refl; mode = refl }

  module _ {h h' h'' : MultiplexHandler sys} {id : ℕ} {r : Option Channel} where
    -- A step that leaves the tables alone may come before or after.
    pub same-Touches : SameTables h h' → Touches h' h'' id r → Touches h h'' id r
    unfolding channels_get
    same-Touches s t = record {
      table = λ k. ground (arith, t.table k);
      heap = λ k. ground (arith, t.heap k);
    }

    pub Touches-same : Touches h h' id r → SameTables h' h'' → Touches h h'' id r
    unfolding channels_get
    Touches-same t s = record {
      table = λ k. ground (arith, t.table k);
      heap = λ k. ground (arith, t.heap k);
    }

    -- Of two steps at one id the later one counts.
    pub Touches-trans :
        {q : Option Channel} → Touches h h' id q → Touches h' h'' id r → Touches h h'' id r
    Touches-trans s t = record {
      table = λ k. ground (arith, t.table k, s.table k);
      heap = λ k. ground (arith, t.heap k, s.heap k);
    }

  -- A step that leaves the tables alone touches an id with what it has.
  pub Touches-none_changed :
      {h h' : MultiplexHandler sys} (id : ℕ) (r : Option Channel)
      → SameTables h h'
      → channels_get h id ≡ r
      → ids_used h.channel_ids id ≡ is_some r
      → Touches h h' id r
  unfolding channels_get
  Touches-none_changed {h} {h'} id r s e u = record {
    table = λ k. ground arith;
    heap = λ k. ground arith;
  }

-- The helpers that touch the tables.
module _ {sys : System} (law : IsLawful sys) (h : MultiplexHandler sys) where
  open sys use {ids_used}

  -- `channels_put` of a channel whose id is in use.
  pub channels_put-Touches :
      (ch : Channel)
      → ids_used h.channel_ids ch.id ≡ true
      → Touches h (channels_put h ch) ch.id (some ch)
  unfolding channels_put channels_get
  channels_put-Touches ch u = record {
    table = λ k. law.get-put h.channels ch.id k ch;
    heap = λ k. ground arith;
  }

  -- `channels_remove` of a channel: the table forgets it and its id is free.
  pub channels_remove-Touches :
      (id : ℕ) (ch : Channel)
      → channels_get h id ≡ some ch
      → ch.id ≡ id
      → 0 < id
      → Touches h (channels_remove h id) id none
  unfolding channels_remove channels_get
  channels_remove-Touches id ch e f p = record {
    table = λ k. ground (arith, law.get-remove h.channels id k);
    heap = λ k. ground (arith, law.used-free h.channel_ids id k);
  }

  -- The touched channel is put back with the time of the last packet.
  pub update_remote-Touches :
      (ch : Channel)
      → ids_used h.channel_ids ch.id ≡ true
      → (c : Channel) × Touches h (update_remote_timestamp h ch) ch.id (some c)
        × (c.id ≡ ch.id)
        × (c.remote_id ≡ ch.remote_id)
        × (c.status ≡ ch.status)
        × (c.type ≡ ch.type)
  unfolding update_remote_timestamp channels_put channels_get read_clock
  update_remote-Touches ch u =
      let now : Timeval = (sys.gettimeofday h.world).0 in
      (
        record ch { remote_timestamp = now; last_activity = now },
        record { table = λ k. law.get-put h.channels ch.id k _; heap = λ k. ground arith },
        refl,
        refl,
        refl,
        refl,
      )
