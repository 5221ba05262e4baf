-- ===== src/Crypto.antt =====
-- src/session/crypto_handler.c: what is written on a stream is encrypted on its way down, and what
-- comes in is decrypted on its way up.
pub mod RoundTrip
mod Tests
use elastos_net_carrier_nati.Base.{
  ℕ, ◌+◌, ◌-◌, List, Option, none, some, ◌==◌, if◌then◌else◌, length, replicate, overwrite,
}
use elastos_net_carrier_nati.Elaerr
use elastos_net_carrier_nati.FlexBuffer.{
  FlexBuffer, contents, flex_padding_len, flex_buffer_alloca, flex_buffer_set_size,
  flex_buffer_forward_offset, flex_buffer_backward_offset,
}
use elastos_net_carrier_nati.Mux.Channel.{Rc, ok, err}

-- What the handler calls: the library's encryption under the session's key and nonce, and the
-- handlers below and above. `none` is a result that is not positive.
pub record Pipeline : Type 1 where
  pub World : Type 0
  pub zero_bytes : ℕ
  pub mac_bytes : ℕ
  pub crypto_encrypt2 : List ℕ → Option (List ℕ)
  pub crypto_decrypt2 : List ℕ → Option (List ℕ)
  pub next_write : FlexBuffer → World → Rc × World
  pub prev_on_data : FlexBuffer → World → World

-- A buffer with a result of the library written at its payload pointer.
unfoldable pub filled_buffer : FlexBuffer → List ℕ → FlexBuffer
unfolding flex_buffer_set_size
filled_buffer b bytes =
    flex_buffer_set_size (record b { buffer = overwrite b.offset bytes b.buffer }) (length bytes)

-- The buffers on the stack: room for the payload and the padding, behind what is left of the
-- padding when `front` bytes of it are used.
unfoldable pub scratch_buffer : FlexBuffer → ℕ → FlexBuffer
unfolding flex_buffer_alloca
scratch_buffer buf front =
    let capacity = buf.size + flex_padding_len in
    flex_buffer_alloca (replicate capacity 0) capacity (flex_padding_len - front)

module _ (p : Pipeline) where
  open p use {
    World, zero_bytes, mac_bytes, crypto_encrypt2, crypto_decrypt2, next_write, prev_on_data,
  }

  -- What goes down of a cipher text: all but the first bytes, which are always zero.
  unfoldable pub cipher_buffer : FlexBuffer → List ℕ → FlexBuffer
  unfolding scratch_buffer filled_buffer flex_buffer_forward_offset
  cipher_buffer buf cipher =
      flex_buffer_forward_offset (filled_buffer (scratch_buffer buf zero_bytes) cipher)
        (zero_bytes - mac_bytes)

  -- The result is the size of the plain text if all of the cipher text was taken.
  unfoldable pub write_cipher : FlexBuffer → Option (List ℕ) → World → Rc × World
  unfolding cipher_buffer
  write_cipher buf none w = (err Elaerr.encrypt, w)
  write_cipher buf (some cipher) w =
      let (rc, w1) = next_write (cipher_buffer buf cipher) w in
      (
        elim rc [
          | err e ↦ err e
          | ok n ↦ if n == (cipher_buffer buf cipher).size then ok buf.size else ok n
        ],
        w1,
      )

  -- `crypto_handler_write`
  unfoldable pub crypto_handler_write : FlexBuffer → World → Rc × World
  unfolding write_cipher flex_buffer_backward_offset
  crypto_handler_write buf w =
      write_cipher buf (crypto_encrypt2 (contents (flex_buffer_backward_offset buf zero_bytes))) w

  -- What goes up of a plain text: all but the padding in front of it.
  unfoldable pub plain_buffer : FlexBuffer → List ℕ → FlexBuffer
  unfolding scratch_buffer filled_buffer flex_buffer_forward_offset
  plain_buffer buf plain =
      flex_buffer_forward_offset (filled_buffer (scratch_buffer buf (zero_bytes - mac_bytes)) plain)
        zero_bytes

  unfoldable pub deliver_plain : FlexBuffer → Option (List ℕ) → World → World
  unfolding plain_buffer
  deliver_plain buf none w = w
  deliver_plain buf (some plain) w = prev_on_data (plain_buffer buf plain) w

  -- `crypto_handler_on_rx_data`: what cannot be decrypted is dropped.
  unfoldable pub crypto_handler_on_rx_data : FlexBuffer → World → World
  unfolding deliver_plain flex_buffer_backward_offset
  crypto_handler_on_rx_data buf w =
      deliver_plain buf
        (crypto_decrypt2 (contents (flex_buffer_backward_offset buf (zero_bytes - mac_bytes)))) w
