-- ===== src/Mux/Sending.antt =====
-- What `multiplex_handler_send_packet` of src/session/multiplex_handler.c puts on the wire, and how
-- the peer's `multiplex_handler_notify_packet` reads it.
use elastos_net_carrier_nati.Base.{
  ℕ, ◌+◌, ◌-◌, ◌^◌, ◌<◌, ◌≤◌, ◌≡◌, refl, sym, ap, ap₂, ◌∙◌, List, ◌++◌, arith, length, take, drop,
  length-append, length-take, length-drop, drop-overwrite, overwrite, take-append_ge,
  overwrite-front, append_cancel, take_all, drop-append_self, take-add,
}
use elastos_net_carrier_nati.FlexBuffer.{
  FlexBuffer, contents, flex_padding_len, flex_buffer_max_len, flex_buffer_backward_offset,
  flex_buffer_forward_offset,
}
use elastos_net_carrier_nati.FlexBuffer.Refine.{
  IsValid, length-contents, backward-contents, forward-contents,
}
use elastos_net_carrier_nati.Mux.Protocol.{
  header_bytes, parse_header, parse_header-header_bytes, protocol_head_len,
}
use elastos_net_carrier_nati.Mux.Channel.{Rc, ok, err, System}
use elastos_net_carrier_nati.Mux.Handler.{MultiplexHandler, write_next, send_buffer}
use elastos_net_carrier_nati.Mux.Receive.{handle_packet, multiplex_handler_notify_packet}
use elastos_net_carrier_nati.Mux.Stream.{exact, IsFrame}

-- A copy over the front of the payload.
contents-overwrite :
    (b : FlexBuffer) (bs rest : List ℕ)
    → IsValid b
    → b.size ≡ length bs + length rest
    → contents b ≡ take (length bs) (drop b.offset b.buffer) ++ rest
    → contents (record b { buffer = overwrite b.offset bs b.buffer }) ≡ bs ++ rest
contents-overwrite b bs rest v n e =
    ap (take b.size) (
      drop-overwrite b.offset 0 b.offset bs b.buffer (omega arith)
        (omega (arith, v.block, v.inside))
      ∙ overwrite-front bs mem (omega (arith, size_mem, v.inside)))
    ∙ take-append_ge b.size (length rest) bs (drop (length bs) mem) n
    ∙ ap (λ xs. bs ++ xs) tail
  where
    mem : List ℕ
    mem = drop b.offset b.buffer

    size_mem : length mem ≡ b.capacity - b.offset
    size_mem = omega (arith, length-drop b.offset b.buffer, v.block)

    tail : take (length rest) (drop (length bs) mem) ≡ rest
    tail =
        append_cancel (take (length bs) mem) (take (length rest) (drop (length bs) mem)) rest
          (sym (take-add (length bs) (length rest) b.size mem n) ∙ e)

-- The bytes of a packet.
abbrev pub packet : ℕ → ℕ → ℕ → ℕ → List ℕ → List ℕ
packet type option local remote payload =
    header_bytes type option local remote (length payload) ++ payload

length-header_bytes : (t o l r n : ℕ) → length (header_bytes t o l r n) ≡ 8
unfolding header_bytes
length-header_bytes t o l r n = refl

module _ {sys : System} where
  open sys use {next_write}

  -- Sending a buffer with room for the header in front hands the handler below exactly one packet:
  -- the header with the ids exchanged, then the payload. The result is the payload's length, or the
  -- error of the handler below.
  pub send_buffer_lem :
      (h : MultiplexHandler sys) (type option local remote : ℕ) (buf : FlexBuffer)
      → IsValid buf
      → protocol_head_len ≤ buf.offset
      → let (rc, w) = next_write (packet type option local remote (contents buf)) h.world in
        ((send_buffer h type option local remote buf).1 ≡ record h { world = w })
        × ((send_buffer h type option local remote buf).0
            ≡ (elim rc as (λ _. Rc) [ ok n ↦ ok (length (contents buf)) | err e ↦ err e ]))
  unfolding send_buffer write_next
  send_buffer_lem h type option local remote buf v p =
      let moved = backward-contents buf 8 v p in
      let b = flex_buffer_backward_offset buf 8 in
      let header = header_bytes type option local remote buf.size in
      let size : length (contents buf) ≡ buf.size = length-contents buf v in
      let front : length (take 8 (drop (buf.offset - 8) buf.buffer)) ≡ 8 = omega (
        arith,
        length-take 8 (drop (buf.offset - 8) buf.buffer),
        length-drop (buf.offset - 8) buf.buffer,
        v.block,
        v.inside,
      ) in
      let same_memory : drop b.offset b.buffer ≡ drop (buf.offset - 8) buf.buffer =
        ap (λ (x : FlexBuffer). drop x.offset x.buffer) moved.2 in
      let stored : contents (record b { buffer = overwrite b.offset header b.buffer })
          ≡ packet type option local remote (contents buf) =
        contents-overwrite b header (contents buf) moved.1
          (ap (λ (x : FlexBuffer). x.size) moved.2
            ∙ omega (arith, size, length-header_bytes type option local remote buf.size))
          (moved.0
            ∙ ap₂ (λ n xs. take n xs ++ contents buf)
                (sym (length-header_bytes type option local remote buf.size)) (sym same_memory))
        ∙ ap (λ n. header_bytes type option local remote n ++ contents buf) (sym size) in
      ground (arith, stored, size)

-- A packet of 16-bit ids and at most 2168 bytes of payload is one that the peer puts together again.
pub packet-IsFrame :
    (t o l r : ℕ) (payload : List ℕ)
    → l < 2 ^ 16
    → r < 2 ^ 16
    → flex_padding_len + 8 + length payload ≤ flex_buffer_max_len
    → IsFrame (packet t o l r payload)
packet-IsFrame t o l r payload hl hr fits =
    let size = length-append (header_bytes t o l r (length payload)) payload in
    let head = length-header_bytes t o l r (length payload) in
    let parsed = parse_header-header_bytes t o l r (length payload) payload hl hr (omega arith) in
    (
      omega (arith, size, head),
      omega (arith, size, head, ap (λ x. x.payload_len) parsed),
      omega (arith, size, head),
    )

module _ {sys : System} where
  -- What one side sends the other handles as a packet for the channel that the sender called remote,
  -- from the channel that the sender called local, with the same type, option and payload.
  pub notify_packet-packet :
      (h : MultiplexHandler sys) (t o l r : ℕ) (payload : List ℕ)
      → l < 2 ^ 16
      → r < 2 ^ 16
      → flex_padding_len + 8 + length payload ≤ flex_buffer_max_len
      → multiplex_handler_notify_packet h (exact (packet t o l r payload))
        ≡ handle_packet h
            (record {
              type = t;
              option = o;
              local_channel_id = r;
              remote_channel_id = l;
              payload_len = length payload;
            })
            payload
  unfolding multiplex_handler_notify_packet
  notify_packet-packet h t o l r payload hl hr fits =
      let f = packet t o l r payload in
      let header = header_bytes t o l r (length payload) in
      let (long, exact_size, _) = packet-IsFrame t o l r payload hl hr fits in
      let all : contents (exact f) ≡ f = take_all (length f) f (omega arith) in
      let parsed =
        ap parse_header all
        ∙ parse_header-header_bytes t o l r (length payload) payload hl hr (omega arith) in
      let w : IsValid (exact f) = record {
        block = refl;
        inside = omega arith;
        small =
            omega
              (arith, length-append header payload, length-header_bytes t o l r (length payload));
      } in
      let body : contents (flex_buffer_forward_offset (exact f) protocol_head_len) ≡ payload =
        (forward-contents (exact f) 8 w long).0
        ∙ ap (drop 8) all
        ∙ ap (λ n. drop n f) (sym (length-header_bytes t o l r (length payload)))
        ∙ drop-append_self header payload in
      ground (
        arith,
        parsed,
        body,
        all,
        length-append header payload,
        length-header_bytes t o l r (length payload),
      )
