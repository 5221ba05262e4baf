-- ===== src/Session/Writing.antt =====
-- From `ela_stream_write_channel` of src/session/session.c to the peer's channel: the session, the
-- flex buffer and the two multiplexers together.
use elastos_net_carrier_nati.Base.{
  ℕ, ◌+◌, ◌^◌, ◌≤◌, ◌<◌, ◌≡◌, refl, ap, ap₂, ◌∙◌, List, Bool, true, false, not, ◌&&◌, ◌||◌, Option,
  none, some, if◌then◌else◌, arith, ltb-false, ◌==◌, length, replicate, length-replicate,
}
use elastos_net_carrier_nati.FlexBuffer.{
  FlexBuffer, contents, flex_padding_len, ela_max_user_data_len, flex_buffer_from,
}
use elastos_net_carrier_nati.FlexBuffer.Refine.{IsValid, flex_buffer_from-contents}
use elastos_net_carrier_nati.Mux.PacketType
use elastos_net_carrier_nati.Mux.Channel.{Rc, ok, err, System, Channel, error}
use elastos_net_carrier_nati.Mux.Handler.{
  MultiplexHandler, send_buffer, multiplex_handler_send_packet, channels_get, channels_remove,
  notify_channel_data, notify_channel_close, update_remote_timestamp,
}
use elastos_net_carrier_nati.Mux.Local.{
  send_on_channel, update_local_timestamp, multiplex_handler_write_channel,
}
use elastos_net_carrier_nati.Mux.Protocol.{protocol_head_len}
use elastos_net_carrier_nati.Mux.Receive.{
  is_active, receive_data, dispatch, dispatch_to, handle_packet, multiplex_handler_notify_packet,
}
use elastos_net_carrier_nati.Mux.Stream.{exact}
use elastos_net_carrier_nati.Mux.Sending.{packet, send_buffer_lem, notify_packet-packet}
use elastos_net_carrier_nati.Session.{
  pos, is_null, bytes_at, ElaStream, is_connected_state, data_buffer, get_stream, put_mux, call_mux,
  on_stream, ela_stream_write_channel,
}

data_buffer-contents :
    (data_ : List ℕ)
    → length data_ ≤ ela_max_user_data_len
    → (contents (data_buffer data_) ≡ data_) × IsValid (data_buffer data_)
unfolding data_buffer
data_buffer-contents data_ h =
    flex_buffer_from-contents (replicate (length data_ + flex_padding_len) 0) flex_padding_len data_
      (length-replicate {A = ℕ} (length data_ + flex_padding_len) 0)
      (omega (arith, length-replicate {A = ℕ} (length data_ + flex_padding_len) 0))

data_buffer-offset : (data_ : List ℕ) → protocol_head_len ≤ (data_buffer data_).offset
unfolding data_buffer flex_buffer_from
data_buffer-offset data_ = omega arith

-- The bytes of a data packet of a channel.
abbrev pub data_packet : Channel → List ℕ → List ℕ
data_packet ch data_ = packet PacketType.channel_data 0 ch.id ch.remote_id data_

-- A pointer that is NULL just if there is nothing to write is in order.
in_range : (z : Bool) → not z && z || (z && not z || false) ≡ false
in_range true = refl
in_range false = refl

module _ {sys : System} where
  send_buffer-written :
      (h : MultiplexHandler sys) (ch : Channel) (buf : FlexBuffer) (k : ℕ) (w : sys.World)
      → IsValid buf
      → protocol_head_len ≤ buf.offset
      → sys.next_write (data_packet ch (contents buf)) h.world ≡ (ok k, w)
      → send_buffer h PacketType.channel_data 0 ch.id ch.remote_id buf
        ≡ (ok (length (contents buf)), record h { world = w })
  send_buffer-written h ch buf k w v p e =
      let (moved, result) =
        send_buffer_lem h PacketType.channel_data 0 ch.id ch.remote_id buf v p in
      ap₂ (λ (rc : Rc) (h' : MultiplexHandler sys). (rc, h'))
        (result ∙ ap (λ (r : Rc × sys.World). size r.0) e)
        (moved ∙ ap (λ (r : Rc × sys.World). record h { world = r.1 }) e)
    where
      size : Rc → Rc
      size rc = elim rc as (λ _. Rc) [ ok n ↦ ok (length (contents buf)) | err e ↦ err e ]

  send_data :
      (h : MultiplexHandler sys) (ch : Channel) (data_ : List ℕ) (k : ℕ) (w : sys.World)
      → length data_ ≤ ela_max_user_data_len
      → sys.next_write (data_packet ch data_) h.world ≡ (ok k, w)
      → send_buffer h PacketType.channel_data 0 ch.id ch.remote_id (data_buffer data_)
        ≡ (ok (length data_), record h { world = w })
  send_data h ch data_ k w fits e =
      let (held, valid) = data_buffer-contents data_ fits in
      send_buffer-written h ch (data_buffer data_) k w valid (data_buffer-offset data_)
        (ap (λ xs. sys.next_write (data_packet ch xs) h.world) held ∙ e)
      ∙ ap (λ xs. (ok (length xs), record h { world = w })) held

  write_found :
      (h : MultiplexHandler sys) (c : ℕ) (ch : Channel) (data_ : List ℕ) (k : ℕ) (w : sys.World)
      → (c == 0) ≡ false
      → channels_get h c ≡ some ch
      → is_active ch.status ≡ true
      → (ch.remote_id == 0) ≡ false
      → length data_ ≤ ela_max_user_data_len
      → sys.next_write (data_packet ch data_) h.world ≡ (ok k, w)
      → multiplex_handler_write_channel h c (data_buffer data_)
        ≡ (ok (length data_), update_local_timestamp (record h { world = w }) ch)
  unfolding multiplex_handler_write_channel send_on_channel multiplex_handler_send_packet
  write_found h c ch data_ k w nonzero found active confirmed fits e =
      rw (nonzero, found, send_data h ch data_ k w fits e, active, confirmed)
        (ap (λ (r : Rc × MultiplexHandler sys). (ok (length data_), update_local_timestamp r.1 ch))
          (send_data h ch data_ k w fits e))

  write_on_stream :
      (ws : List (ElaStream sys)) (n c : ℕ) (s : ElaStream sys) (h h' : MultiplexHandler sys)
      (pointer : Option (List ℕ)) (len : ℕ)
      → (n == 0) ≡ false
      → get_stream ws n ≡ some s
      → is_connected_state s.state ≡ true
      → s.mux ≡ some h
      → is_null pointer ≡ (len == 0)
      → len ≤ ela_max_user_data_len
      → multiplex_handler_write_channel h c (data_buffer (bytes_at pointer len)) ≡ (ok len, h')
      → ela_stream_write_channel ws n (pos c) pointer len ≡ (ok len, put_mux ws n h')
  unfolding ela_stream_write_channel on_stream call_mux
  write_on_stream ws n c s h h' pointer len nonzero found connected has null fits e =
      rw
        (
          nonzero,
          null,
          ltb-false ela_max_user_data_len len fits,
          in_range (len == 0),
          found,
          connected,
          has,
          e,
        )
        refl

  data_arrives :
      (h : MultiplexHandler sys) (l r : ℕ) (ch : Channel) (payload : List ℕ)
      → (l == 0) ≡ false
      → channels_get h r ≡ some ch
      → handle_packet h
          (record {
            type = PacketType.channel_data;
            option = 0;
            local_channel_id = r;
            remote_channel_id = l;
            payload_len = length payload;
          })
          payload
        ≡ receive_data h ch payload
  unfolding handle_packet dispatch_to dispatch
  data_arrives h l r ch payload nonzero found = rw (nonzero, found) refl

  -- What becomes of data for an active channel whose callback is `take_in`.
  data_taken :
      (h : MultiplexHandler sys) (ch : Channel) (data_ : List ℕ)
      (take_in : Channel → List ℕ → sys.World → Bool × sys.World) (more : Bool) (w : sys.World)
      → is_active ch.status ≡ true
      → (h.callbacks ch.type).channel_data ≡ some take_in
      → take_in ch data_ h.world ≡ (more, w)
      → receive_data h ch data_ ≡ (
          if more
          then update_remote_timestamp (record h { world = w }) ch
          else channels_remove (notify_channel_close (record h { world = w }) ch error) ch.id)
  unfolding receive_data notify_channel_data
  data_taken h ch data_ take_in more w active has e =
      ap (λ a. if not a then h else after (notify_channel_data h ch data_)) active
      ∙ ap after (
          ap (λ (o : Option (Channel → List ℕ → sys.World → Bool × sys.World)). told o) has
          ∙ ap (λ (r : Bool × sys.World). (r.0, record h { world = r.1 })) e)
    where
      after : Bool × MultiplexHandler sys → MultiplexHandler sys
      after (b, h1) =
          if b
          then update_remote_timestamp h1 ch
          else channels_remove (notify_channel_close h1 ch error) ch.id

      told : Option (Channel → List ℕ → sys.World → Bool × sys.World) → Bool × MultiplexHandler sys
      told o = elim o as (λ _. Bool × MultiplexHandler sys) [
        | none ↦ (true, h)
        | some f ↦ let (b, w1) = f ch data_ h.world in (b, record h { world = w1 })
      ]

  -- Data of at most 2048 bytes written on a channel that both ends have: the stream is connected, the
  -- sender's channel is confirmed and active, the handler below takes the packet, and the channel that
  -- it names is active at the peer and has a callback for data. The call returns the number of bytes,
  -- and the handler below has been given one packet. When that packet comes in, the peer's
  -- multiplexer calls the callback of that channel once, on exactly the data, and keeps the channel
  -- with the times of its last packet, or removes it if the callback refuses the data.
  pub ela_stream_write_channel-notify_packet :
      (ws : List (ElaStream sys)) (n c : ℕ) (s : ElaStream sys) (h peer : MultiplexHandler sys)
      (ch other : Channel) (pointer : Option (List ℕ)) (data_ : List ℕ) (k : ℕ) (w : sys.World)
      (take_in : Channel → List ℕ → sys.World → Bool × sys.World) (more : Bool) (w' : sys.World)
      → (n == 0) ≡ false
      → get_stream ws n ≡ some s
      → is_connected_state s.state ≡ true
      → s.mux ≡ some h
      → (c == 0) ≡ false
      → channels_get h c ≡ some ch
      → is_active ch.status ≡ true
      → (ch.remote_id == 0) ≡ false
      → (ch.id == 0) ≡ false
      → ch.id < 2 ^ 16
      → ch.remote_id < 2 ^ 16
      → is_null pointer ≡ (length data_ == 0)
      → bytes_at pointer (length data_) ≡ data_
      → length data_ ≤ ela_max_user_data_len
      → sys.next_write (data_packet ch data_) h.world ≡ (ok k, w)
      → channels_get peer ch.remote_id ≡ some other
      → is_active other.status ≡ true
      → (peer.callbacks other.type).channel_data ≡ some take_in
      → take_in other data_ peer.world ≡ (more, w')
      → (ela_stream_write_channel ws n (pos c) pointer (length data_)
          ≡ (ok (length data_), put_mux ws n (update_local_timestamp (record h { world = w }) ch)))
        × (multiplex_handler_notify_packet peer (exact (data_packet ch data_)) ≡ (
            if more
            then update_remote_timestamp (record peer { world = w' }) other
            else channels_remove
                (notify_channel_close (record peer { world = w' }) other error)
                other.id))
  ela_stream_write_channel-notify_packet ws n c s h peer ch other pointer data_ k w take_in more w'
        stream found connected has channel known active confirmed named small small' null bytes fits
        e there ready callback taken =
      (
        write_on_stream ws n c s h _ pointer (length data_) stream found connected has null fits (
            ap (λ xs. multiplex_handler_write_channel h c (data_buffer xs)) bytes
            ∙ write_found h c ch data_ k w channel known active confirmed fits e),
        notify_packet-packet peer PacketType.channel_data 0 ch.id ch.remote_id data_ small small'
              (omega (arith, fits))
            ∙ data_arrives peer ch.id ch.remote_id other data_ named there
            ∙ data_taken peer other data_ take_in more w' ready callback taken,
      )
