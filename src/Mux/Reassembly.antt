-- ===== src/Mux/Reassembly.antt =====
-- `multiplex_handler_notify_data` of src/session/multiplex_handler.c: a reliable stream hands its
-- bytes over in pieces of any size, and the packets are put together again in `incomplete_buf`.
use elastos_net_carrier_nati.Base.{
  ℕ, zero, suc, ◌+◌, ◌-◌, Option, none, some, ◌==◌, ltb, if◌then◌else◌,
}
use elastos_net_carrier_nati.FlexBuffer.{
  FlexBuffer, contents, flex_padding_len, flex_buffer_append, flex_buffer_append2,
  flex_buffer_forward_offset, flex_buffer_reset,
}
use elastos_net_carrier_nati.Mux.Protocol.{parse_header, protocol_head_len}
use elastos_net_carrier_nati.Mux.Channel.{System}
use elastos_net_carrier_nati.Mux.Handler.{MultiplexHandler}
use elastos_net_carrier_nati.Mux.Receive.{multiplex_handler_notify_packet}

-- The handler of a reliable stream with its field `incomplete_buf`.
pub record StreamHandler (sys : System) : Type 0 where
  pub handler : MultiplexHandler sys
  pub incomplete_buf : FlexBuffer

-- The length field of the header at the front of the buffer.
abbrev pub payload_length : FlexBuffer → ℕ
payload_length b = (parse_header (contents b)).payload_len

-- Move `n` bytes from the front of `buf` to the end of `inc`.
unfoldable pub move_bytes : FlexBuffer → FlexBuffer → ℕ → FlexBuffer × FlexBuffer
unfolding flex_buffer_append2 flex_buffer_forward_offset
move_bytes inc buf n = (flex_buffer_append2 inc buf n, flex_buffer_forward_offset buf n)

-- Complete the buffered bytes up to `goal`, if they are fewer.
unfoldable pub fill_up : FlexBuffer → FlexBuffer → ℕ → FlexBuffer × FlexBuffer
unfolding move_bytes
fill_up inc buf goal =
    if ltb inc.size goal then move_bytes inc buf (goal - inc.size) else (inc, buf)

module _ {sys : System} where
  -- The packet is complete: hand it on and start anew.
  unfoldable pub deliver : MultiplexHandler sys → FlexBuffer → StreamHandler sys
  unfolding flex_buffer_reset
  deliver h inc = record {
    handler = multiplex_handler_notify_packet h inc;
    incomplete_buf = flex_buffer_reset inc flex_padding_len;
  }

  -- Keep the bytes until more arrive.
  unfoldable pub keep : StreamHandler sys → FlexBuffer → FlexBuffer → StreamHandler sys
  unfolding flex_buffer_append
  keep s inc buf = record s { incomplete_buf = flex_buffer_append inc buf }

  -- The `while` loop, with fuel; `none` means that the fuel ran out.
  unfoldable pub notify_data_loop : ℕ → StreamHandler sys → FlexBuffer → Option (StreamHandler sys)
  unfolding fill_up deliver keep
  notify_data_loop zero s buf = if buf.size == 0 then some s else none
  notify_data_loop (suc fuel) s buf =
      let (inc1, buf1) = fill_up s.incomplete_buf buf protocol_head_len in
      let (inc2, buf2) = fill_up inc1 buf1 (payload_length inc1 + protocol_head_len) in
      let rest = notify_data_loop fuel (deliver s.handler inc2) buf2 in
      if buf.size == 0
      then some s
      else if ltb (s.incomplete_buf.size + buf.size) protocol_head_len
      then some (keep s s.incomplete_buf buf)
      else if ltb (inc1.size + buf1.size) (payload_length inc1 + protocol_head_len)
      then some (keep s inc1 buf1)
      else rest

  -- `multiplex_handler_notify_data`: each round takes a byte at least.
  unfoldable pub multiplex_handler_notify_data :
      StreamHandler sys → FlexBuffer → Option (StreamHandler sys)
  unfolding notify_data_loop
  multiplex_handler_notify_data s buf = notify_data_loop buf.size s buf
