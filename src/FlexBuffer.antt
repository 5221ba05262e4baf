-- ===== src/FlexBuffer.antt =====
-- src/session/flex_buffer.h: a payload inside a larger block of memory, with room before and behind
-- it for headers. A function that changes `*buf` returns the new buffer. The `assert` lines are
-- taken as compiled out, so the clipping that stands below each of them is what runs.
pub mod Refine
mod Tests
use elastos_net_carrier_nati.Base.{
  ℕ, ◌+◌, ◌≤◌, List, replicate, length, take, drop, if◌then◌else◌, leb, ltb, overwrite,
}
use elastos_net_carrier_nati.Base.Words.{add_size, sub_size}

abbrev pub flex_padding_len : ℕ
flex_padding_len = 128

abbrev pub ela_max_user_data_len : ℕ
ela_max_user_data_len = 2048

abbrev pub flex_buffer_max_len : ℕ
flex_buffer_max_len = flex_padding_len + flex_padding_len + ela_max_user_data_len

-- `struct FlexBuffer`; `buffer` is the block that the pointer addresses, a number for each byte.
pub record FlexBuffer : Type 0 where
  pub capacity : ℕ
  pub offset : ℕ
  pub size : ℕ
  pub buffer : List ℕ

-- The payload: the `size` bytes from `buffer + offset` on.
abbrev pub contents : FlexBuffer → List ℕ
contents b = take b.size (drop b.offset b.buffer)

-- `flex_buffer_alloca`: `storage` is the block that `alloca` returned.
unfoldable pub flex_buffer_alloca : List ℕ → ℕ → ℕ → FlexBuffer
flex_buffer_alloca storage capacity offset = record {
  capacity = capacity;
  offset = offset;
  size = 0;
  buffer = storage;
}

-- `flex_buffer_from`: the block is as large as the offset and the source together.
unfoldable pub flex_buffer_from : List ℕ → ℕ → List ℕ → FlexBuffer
flex_buffer_from storage offset src = record {
  capacity = add_size (length src) offset;
  offset = offset;
  size = length src;
  buffer = overwrite offset src storage;
}

unfoldable pub flex_buffer_init : List ℕ → ℕ → ℕ → FlexBuffer
flex_buffer_init buffer capacity offset = record {
  capacity = capacity;
  offset = offset;
  size = 0;
  buffer = buffer;
}

unfoldable pub flex_buffer_reset : FlexBuffer → ℕ → FlexBuffer
flex_buffer_reset b offset = record b { offset = offset; size = 0 }

unfoldable pub flex_buffer_available : FlexBuffer → ℕ
flex_buffer_available b = sub_size (sub_size b.capacity b.offset) b.size

unfoldable pub flex_buffer_set_size : FlexBuffer → ℕ → FlexBuffer
flex_buffer_set_size b size = record b { size = size }

-- How far `flex_buffer_forward_offset` moves.
unfoldable pub forward_bytes : FlexBuffer → ℕ → ℕ
forward_bytes b bytes =
    if leb (add_size b.offset bytes) b.capacity
    then bytes
    else sub_size (sub_size b.capacity b.offset) 1

unfoldable pub flex_buffer_forward_offset : FlexBuffer → ℕ → FlexBuffer
unfolding forward_bytes
flex_buffer_forward_offset b bytes =
    let n = forward_bytes b bytes in
    record b { offset = add_size b.offset n; size = sub_size b.size n }

unfoldable pub backward_bytes : FlexBuffer → ℕ → ℕ
backward_bytes b bytes = if leb bytes b.offset then bytes else b.offset

unfoldable pub flex_buffer_backward_offset : FlexBuffer → ℕ → FlexBuffer
unfolding backward_bytes
flex_buffer_backward_offset b bytes =
    let n = backward_bytes b bytes in
    record b { offset = sub_size b.offset n; size = add_size b.size n }

-- The source copies between the starts of the two blocks, not between the payloads.
unfoldable pub flex_buffer_copy : FlexBuffer → FlexBuffer → FlexBuffer
flex_buffer_copy dest src =
    let room = sub_size dest.capacity dest.offset in
    let len = if ltb src.size room then src.size else room in
    record dest { size = len; buffer = overwrite 0 (take len src.buffer) dest.buffer }

unfoldable pub flex_buffer_append : FlexBuffer → FlexBuffer → FlexBuffer
flex_buffer_append dest src =
    let available = sub_size (sub_size dest.capacity dest.offset) dest.size in
    let len = if ltb src.size available then src.size else available in
    record dest {
      size = add_size dest.size len;
      buffer =
          overwrite (dest.offset + dest.size) (take len (drop src.offset src.buffer)) dest.buffer;
    }

unfoldable pub flex_buffer_append2 : FlexBuffer → FlexBuffer → ℕ → FlexBuffer
flex_buffer_append2 dest src bytes =
    let available = sub_size (sub_size dest.capacity dest.offset) dest.size in
    let len = if ltb bytes available then bytes else available in
    record dest {
      size = add_size dest.size len;
      buffer =
          overwrite (dest.offset + dest.size) (take len (drop src.offset src.buffer)) dest.buffer;
    }
