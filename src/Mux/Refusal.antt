-- ===== src/Mux/Refusal.antt =====
-- The refusal of an open request when every channel id is in use, in
-- `multiplex_handler_notify_packet` of src/session/multiplex_handler.c.
use elastos_net_carrier_nati.Base.{
  ℕ, ◌+◌, ◌^◌, ◌<◌, ◌≤◌, ◌≡◌, refl, ap, ◌∙◌, List, [], Bool, true, Option, none, some, arith,
  length, Option-cases, inl, inr, ◌==◌, if◌then◌else◌,
}
use elastos_net_carrier_nati.FlexBuffer.{flex_padding_len, flex_buffer_max_len}
use elastos_net_carrier_nati.Mux.PacketType
use elastos_net_carrier_nati.Mux.Protocol.{ProtocolBuffer}
use elastos_net_carrier_nati.Mux.Channel.{Rc, ChannelType, System, IsLawful, max_channel_id}
use elastos_net_carrier_nati.Mux.Handler.{MultiplexHandler, channels_get}
use elastos_net_carrier_nati.Mux.Receive.{
  channel_type, accepts_type, register_channel, allocate_channel, receive_open_type, receive_open,
  handle_packet, dispatch_to, multiplex_handler_notify_packet,
}
use elastos_net_carrier_nati.Mux.Stream.{exact}
use elastos_net_carrier_nati.Mux.Signals.{send_signal}
use elastos_net_carrier_nati.Mux.Sending.{packet, notify_packet-packet}
use elastos_net_carrier_nati.Mux.Consistency.{IsConsistent}

-- Every id that a channel can have is in use.
abbrev pub IsFull : (sys : System) → sys.Ids → Type 0
IsFull sys ids = (k : ℕ) → 0 < k → k ≤ max_channel_id → sys.ids_used ids k ≡ true

module _ {sys : System} where
  open sys use {Ids, ids_alloc, ids_used, next_write, rc_zalloc}

  full_alloc : IsLawful sys → (ids : Ids) → IsFull sys ids → ids_alloc ids ≡ none
  full_alloc law ids full = elim (Option-cases (ids_alloc ids)) [
    | inl e ↦ e
    | inr ((n, ids'), e) ↦
        let (unused, positive, small) = law.alloc_fresh ids n ids' e in
        absurd (ground (arith, unused, full n positive small))
  ]

  -- The table of a consistent handler has nothing under the id 0.
  nothing_at_0 : (h : MultiplexHandler sys) → IsConsistent h → channels_get h 0 ≡ none
  nothing_at_0 h v = elim (Option-cases (channels_get h 0)) [
    | inl e ↦ e
    | inr (c, e) ↦ let (i, p, q) = v.named 0 c e in absurd (omega arith)
  ]

  refused_open :
      IsLawful sys
      → (h : MultiplexHandler sys) (pb : ProtocolBuffer) (cookie : Option (List ℕ))
        (type : ChannelType) (w : sys.World)
      → IsFull sys h.channel_ids
      → channel_type pb.option ≡ some type
      → accepts_type h type ≡ true
      → rc_zalloc h.world ≡ (true, w)
      → receive_open h pb cookie ≡ record h {
        world = (next_write (packet PacketType.channel_open_confirmation 0 0 0 []) w).1;
      }
  unfolding receive_open receive_open_type allocate_channel register_channel
  refused_open law h pb cookie type w full known accepted memory =
      ap (receive_open_type h pb cookie) known
      ∙ ap (λ b. if b then allocate_channel h pb type cookie else h) accepted
      ∙ ap allocated memory
      ∙ ap (register_channel (record h { world = w }) pb type cookie)
          (full_alloc law h.channel_ids full)
      ∙ ap (λ (r : Rc × MultiplexHandler sys). r.1)
          (send_signal (record h { world = w }) PacketType.channel_open_confirmation 0 0 0 _ _ refl)
    where
      allocated : Bool × sys.World → MultiplexHandler sys
      allocated (b, w1) =
          let h0 = record h { world = w1 } in
          if b then register_channel h0 pb type cookie (ids_alloc h.channel_ids) else h0

  -- When every id from 1 to 2048 is in use, a packet comes in that asks for a channel of a type which
  -- the handler takes, and there is memory for one: the handler opens nothing and answers with a
  -- confirmation for channel 0, whichever channel the peer asked from, and a peer whose table and id
  -- heap agree ignores that answer.
  pub refusal_ignored :
      IsLawful sys
      → (h peer : MultiplexHandler sys) (option asking : ℕ) (type : ChannelType) (cookie : List ℕ)
        (w : sys.World)
      → IsFull sys h.channel_ids
      → channel_type option ≡ some type
      → accepts_type h type ≡ true
      → rc_zalloc h.world ≡ (true, w)
      → asking < 2 ^ 16
      → flex_padding_len + 8 + length cookie ≤ flex_buffer_max_len
      → IsConsistent peer
      → (multiplex_handler_notify_packet h
            (exact (packet PacketType.channel_open option asking 0 cookie))
          ≡ record h {
            world = (next_write (packet PacketType.channel_open_confirmation 0 0 0 []) w).1;
          })
        × (multiplex_handler_notify_packet peer
              (exact (packet PacketType.channel_open_confirmation 0 0 0 []))
            ≡ peer)
  unfolding handle_packet dispatch_to
  refusal_ignored law h peer option asking type cookie w full known accepted memory small fits v = (
    notify_packet-packet h PacketType.channel_open option asking 0 cookie small (omega arith) fits
        ∙ asked,
    ground (
      arith,
      notify_packet-packet peer PacketType.channel_open_confirmation 0 0 0 [],
      nothing_at_0 peer v,
    ),
  )
    where
      asked :
          handle_packet h
            (record {
              type = PacketType.channel_open;
              option = option;
              local_channel_id = 0;
              remote_channel_id = asking;
              payload_len = length cookie;
            })
            cookie
          ≡ record h {
            world = (next_write (packet PacketType.channel_open_confirmation 0 0 0 []) w).1;
          }
      asked =
          let pb : ProtocolBuffer = record {
            type = PacketType.channel_open;
            option = option;
            local_channel_id = 0;
            remote_channel_id = asking;
            payload_len = length cookie;
          } in
          ground (
            arith,
            refused_open law h pb (if length cookie == 0 then none else some cookie) type w full
                known accepted memory,
          )
