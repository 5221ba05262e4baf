-- ===== src/Mux/Stream.antt =====
-- Reassembly is right: however a stream of packets is cut into pieces,
-- `multiplex_handler_notify_data` of src/session/multiplex_handler.c hands on exactly those packets.
use elastos_net_carrier_nati.Base.{
  ℕ, suc, ◌+◌, ◌^◌, ◌<◌, ◌≤◌, ◌≡◌, refl, sym, ap, ◌∙◌, ltb-false, List, [], ◌∷◌, ◌++◌, arith,
  length, drop, take_all, get_or-append_lt, some,
}
use elastos_net_carrier_nati.FlexBuffer.{
  FlexBuffer, contents, flex_padding_len, flex_buffer_max_len, flex_buffer_forward_offset,
}
use elastos_net_carrier_nati.FlexBuffer.Refine.{IsValid, length-contents, forward-contents}
use elastos_net_carrier_nati.Mux.Protocol.{parse_header, protocol_head_len}
use elastos_net_carrier_nati.Mux.Channel.{System}
use elastos_net_carrier_nati.Mux.Handler.{MultiplexHandler}
use elastos_net_carrier_nati.Mux.Receive.{multiplex_handler_notify_packet}
use elastos_net_carrier_nati.Mux.Reassembly.{
  StreamHandler, payload_length, fill_up, deliver, keep, notify_data_loop,
}

-- A buffer that holds a packet and nothing else.
abbrev pub exact : List ℕ → FlexBuffer
exact bs = record { capacity = length bs; offset = 0; size = length bs; buffer = bs }

-- A packet: a header, and as many bytes as the header says; it fits into the buffer.
abbrev pub IsFrame : List ℕ → Type 0
IsFrame f =
    (protocol_head_len ≤ length f)
    × (length f ≡ (parse_header f).payload_len + protocol_head_len)
    × (flex_padding_len + length f ≤ flex_buffer_max_len)

abbrev pub AllFrames : List (List ℕ) → Type 0
AllFrames [] = Unit {0}
AllFrames (f ∷ fs) = IsFrame f × AllFrames fs

abbrev pub concat : List (List ℕ) → List ℕ
concat [] = []
concat (f ∷ fs) = f ++ concat fs

-- The header is read from the first eight bytes.
pub parse_header-append :
    (xs ys : List ℕ) → 8 ≤ length xs → parse_header (xs ++ ys) ≡ parse_header xs
unfolding parse_header
parse_header-append xs ys h = ground (
  arith,
  get_or-append_lt 0 0 xs ys,
  get_or-append_lt 1 0 xs ys,
  get_or-append_lt 2 0 xs ys,
  get_or-append_lt 3 0 xs ys,
  get_or-append_lt 4 0 xs ys,
  get_or-append_lt 5 0 xs ys,
  get_or-append_lt 6 0 xs ys,
  get_or-append_lt 7 0 xs ys,
)

module _ {sys : System} where
  -- A packet is handled by its bytes, wherever in memory they lie.
  pub notify_packet-exact :
      (h : MultiplexHandler sys) (b : FlexBuffer) (f : List ℕ)
      → IsValid b
      → contents b ≡ f
      → 8 ≤ length f
      → length f < 2 ^ 63
      → multiplex_handler_notify_packet h b ≡ multiplex_handler_notify_packet h (exact f)
  unfolding multiplex_handler_notify_packet
  notify_packet-exact h b f v e n s =
      let size : b.size ≡ length f = sym (length-contents b v) ∙ ap length e in
      let w : IsValid (exact f) = record {
        block = refl;
        inside = omega arith;
        small = omega arith;
      } in
      let payload : contents (flex_buffer_forward_offset b protocol_head_len)
          ≡ contents (flex_buffer_forward_offset (exact f) protocol_head_len) =
        (forward-contents b 8 v (omega arith)).0
        ∙ ap (drop 8) (e ∙ sym all)
        ∙ sym (forward-contents (exact f) 8 w n).0 in
      cc (size, e ∙ sym all, payload)
    where
      all : contents (exact f) ≡ f
      all = take_all (length f) f (omega arith)

  -- One packet after the other.
  unfoldable pub deliver_all : MultiplexHandler sys → List (List ℕ) → MultiplexHandler sys
  deliver_all h [] = h
  deliver_all h (f ∷ fs) = deliver_all (multiplex_handler_notify_packet h (exact f)) fs

  -- The buffer of the incomplete packet holds `p`.
  pub record HasPending (s : StreamHandler sys) (p : List ℕ) : Type 0 where
    pub holds : contents s.incomplete_buf ≡ p
    pub valid : IsValid s.incomplete_buf
    pub offset : s.incomplete_buf.offset ≡ flex_padding_len
    pub capacity : s.incomplete_buf.capacity ≡ flex_buffer_max_len

-- `p` is the received part of the first packet of those to come, and `rest` what is to follow it.
abbrev pub Ahead : List ℕ → List ℕ → List (List ℕ) → Type 0
Ahead p rest [] = (p ≡ []) × (rest ≡ [])
Ahead p rest (f ∷ fs) = (length p < length f) × (p ++ rest ≡ f ++ concat fs)

-- A round of the loop of `multiplex_handler_notify_data`.
module _ {sys : System} (fuel : ℕ) (s : StreamHandler sys) (buf : FlexBuffer) where
  abbrev pub headed : FlexBuffer × FlexBuffer
  headed = fill_up s.incomplete_buf buf protocol_head_len

  abbrev pub goal : ℕ
  goal = payload_length headed.0 + protocol_head_len

  abbrev pub filled : FlexBuffer × FlexBuffer
  filled = fill_up headed.0 headed.1 goal

  -- The three ways through a round of the loop.
  pub round_short :
      0 < buf.size
      → s.incomplete_buf.size + buf.size < protocol_head_len
      → notify_data_loop (suc fuel) s buf ≡ some (keep s s.incomplete_buf buf)
  unfolding notify_data_loop
  round_short p q = ground arith

  pub round_partial :
      0 < buf.size
      → protocol_head_len ≤ s.incomplete_buf.size + buf.size
      → headed.0.size + headed.1.size < goal
      → notify_data_loop (suc fuel) s buf ≡ some (keep s headed.0 headed.1)
  unfolding notify_data_loop
  round_partial p q r =
      rw (ltb-false (s.incomplete_buf.size + buf.size) protocol_head_len q, notify_data_loop)
        (ground arith)

  pub round_complete :
      0 < buf.size
      → protocol_head_len ≤ s.incomplete_buf.size + buf.size
      → goal ≤ headed.0.size + headed.1.size
      → notify_data_loop (suc fuel) s buf
        ≡ notify_data_loop fuel (deliver s.handler filled.0) filled.1
  unfolding notify_data_loop
  round_complete p q r = ground arith
