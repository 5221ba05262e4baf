-- ===== src/Crypto/RoundTrip.antt =====
-- What one side writes through src/session/crypto_handler.c, the other side's handler passes on.
use elastos_net_carrier_nati.Base.{
  ℕ, ◌+◌, ◌-◌, ◌^◌, ◌≤◌, ◌<◌, ◌≡◌, refl, sym, ap, ◌∙◌, List, ◌++◌, some, arith, length, take, drop,
  replicate, length-replicate, length-overwrite, drop-overwrite, take-overwrite, length-take,
  length-drop, length-append, drop-append_self,
}
use elastos_net_carrier_nati.FlexBuffer.{
  FlexBuffer, contents, flex_padding_len, flex_buffer_alloca, flex_buffer_set_size,
  flex_buffer_backward_offset,
}
use elastos_net_carrier_nati.FlexBuffer.Refine.{
  IsValid, length-contents, forward-contents, backward-contents,
}
use elastos_net_carrier_nati.Crypto.{
  Pipeline, filled_buffer, scratch_buffer, cipher_buffer, write_cipher, crypto_handler_write,
  plain_buffer, deliver_plain, crypto_handler_on_rx_data,
}

-- What is relied on of the library: a cipher text is as long as the plain text with its padding, and
-- is opened again under the same key and nonce, whatever stands in the bytes in front that are not
-- sent; the padding in front of what comes out is left open.
pub record IsLawful (p : Pipeline) : Type 0 where
  pub mac_inside : p.mac_bytes ≤ p.zero_bytes
  pub zero_inside : p.zero_bytes ≤ flex_padding_len
  pub same_length : (m c : List ℕ) → p.crypto_encrypt2 m ≡ some c → length c ≡ length m
  pub opens :
      (m c c' : List ℕ)
      → p.crypto_encrypt2 m ≡ some c
      → length c' ≡ length c
      → drop (p.zero_bytes - p.mac_bytes) c' ≡ drop (p.zero_bytes - p.mac_bytes) c
      → (m' : List ℕ) × (p.crypto_decrypt2 c' ≡ some m')
        × (length m' ≡ length m)
        × (drop p.zero_bytes m' ≡ drop p.zero_bytes m)

-- A buffer on the stack holds what fits into the payload and the part of the padding kept free.
scratch-contents :
    (buf : FlexBuffer) (front : ℕ) (bytes : List ℕ)
    → front ≤ flex_padding_len
    → length bytes ≤ buf.size + front
    → buf.size + flex_padding_len < 2 ^ 63
    → (contents (filled_buffer (scratch_buffer buf front) bytes) ≡ bytes)
      × IsValid (filled_buffer (scratch_buffer buf front) bytes)
unfolding filled_buffer scratch_buffer flex_buffer_alloca flex_buffer_set_size
scratch-contents buf front bytes h k small = (
  ap (take (length bytes))
        (drop-overwrite offset 0 offset bytes storage (omega arith) (omega (arith, size)))
      ∙ take-overwrite 0 (length bytes) bytes (drop offset storage) (omega arith)
          (omega (arith, length-drop offset storage, size)),
  record {
    block = length-overwrite offset bytes storage ∙ size;
    inside = omega arith;
    small = small;
  },
)
  where
    offset : ℕ
    offset = flex_padding_len - front

    storage : List ℕ
    storage = replicate (buf.size + flex_padding_len) 0

    size : length storage ≡ buf.size + flex_padding_len
    size = length-replicate {A = ℕ} (buf.size + flex_padding_len) 0

module _ (p : Pipeline) (law : IsLawful p) (buf : FlexBuffer) (c : List ℕ) (v : IsValid buf)
    (room : p.zero_bytes ≤ buf.offset) (small : buf.size + flex_padding_len < 2 ^ 63)
    (encrypted : p.crypto_encrypt2 (contents (flex_buffer_backward_offset buf p.zero_bytes))
      ≡ some c) where
  abbrev padding : List ℕ
  padding = take p.zero_bytes (drop (buf.offset - p.zero_bytes) buf.buffer)

  abbrev hidden : ℕ
  hidden = p.zero_bytes - p.mac_bytes

  padded : contents (flex_buffer_backward_offset buf p.zero_bytes) ≡ padding ++ contents buf
  padded = (backward-contents buf p.zero_bytes v room).0

  length-padding : length padding ≡ p.zero_bytes
  length-padding = omega (
    arith,
    length-take p.zero_bytes (drop (buf.offset - p.zero_bytes) buf.buffer),
    length-drop (buf.offset - p.zero_bytes) buf.buffer,
    v.block,
    v.inside,
    room,
  )

  length-padded :
      length (contents (flex_buffer_backward_offset buf p.zero_bytes)) ≡ buf.size + p.zero_bytes
  length-padded =
      ap length padded
      ∙ omega (arith, length-append padding (contents buf), length-padding, length-contents buf v)

  length-cipher : length c ≡ buf.size + p.zero_bytes
  length-cipher = law.same_length _ c encrypted ∙ length-padded

  sent_bytes : (contents (cipher_buffer p buf c) ≡ drop hidden c) × IsValid (cipher_buffer p buf c)
  unfolding cipher_buffer filled_buffer flex_buffer_set_size
  sent_bytes =
      let (held, valid) =
        scratch-contents buf p.zero_bytes c law.zero_inside (omega (arith, length-cipher)) small in
      let (cut, valid', size) =
        forward-contents (filled_buffer (scratch_buffer buf p.zero_bytes) c) hidden valid
          (omega (arith, length-cipher)) in
      (cut ∙ ap (drop hidden) held, valid')

  module _ (rb : FlexBuffer) (w : IsValid rb) (behind : hidden ≤ rb.offset)
      (small' : rb.size + flex_padding_len < 2 ^ 63)
      (arrived : contents rb ≡ contents (cipher_buffer p buf c)) where
    abbrev front : List ℕ
    front = take hidden (drop (rb.offset - hidden) rb.buffer)

    arrived_padded : contents (flex_buffer_backward_offset rb hidden) ≡ front ++ drop hidden c
    arrived_padded =
        (backward-contents rb hidden w behind).0 ∙ ap (λ xs. front ++ xs) (arrived ∙ sent_bytes.0)

    length-front : length front ≡ hidden
    length-front = omega (
      arith,
      length-take hidden (drop (rb.offset - hidden) rb.buffer),
      length-drop (rb.offset - hidden) rb.buffer,
      w.block,
      w.inside,
      behind,
    )

    -- What the library gets to open has the length and the visible bytes of the cipher text.
    same_visible : drop hidden (contents (flex_buffer_backward_offset rb hidden)) ≡ drop hidden c
    same_visible =
        ap (drop hidden) arrived_padded
        ∙ ap (λ n. drop n (front ++ drop hidden c)) (sym length-front)
        ∙ drop-append_self front (drop hidden c)

    rb_size : rb.size ≡ buf.size + p.zero_bytes - hidden
    rb_size =
        sym (length-contents rb w)
        ∙ ap length (arrived ∙ sent_bytes.0)
        ∙ omega (arith, length-drop hidden c, length-cipher)

    same_size : length (contents (flex_buffer_backward_offset rb hidden)) ≡ length c
    same_size =
        ap length arrived_padded
        ∙ omega (
          arith,
          length-append front (drop hidden c),
          length-front,
          length-drop hidden c,
          length-cipher,
        )

    opened :
        (m' : List ℕ) × (p.crypto_decrypt2 (contents (flex_buffer_backward_offset rb hidden))
          ≡ some m')
        × (length m' ≡ buf.size + p.zero_bytes)
        × (drop p.zero_bytes m' ≡ contents buf)
    opened =
        let (m', e, l, d) = law.opens _ c _ encrypted same_size same_visible in
        (
          m',
          e,
          l ∙ length-padded,
          d
              ∙ ap (drop p.zero_bytes) padded
              ∙ ap (λ n. drop n (padding ++ contents buf)) (sym length-padding)
              ∙ drop-append_self padding (contents buf),
        )

    plain_bytes :
        (contents (plain_buffer p rb opened.0) ≡ contents buf)
        × IsValid (plain_buffer p rb opened.0)
    unfolding plain_buffer filled_buffer flex_buffer_set_size
    plain_bytes =
        let (m', e, l, d) = opened in
        let (held, valid) =
          scratch-contents rb hidden m' (omega (arith, law.zero_inside)) (omega (arith, l, rb_size))
            small' in
        let (cut, valid', size) =
          forward-contents (filled_buffer (scratch_buffer rb hidden) m') p.zero_bytes valid
            (omega (arith, l)) in
        (cut ∙ ap (drop p.zero_bytes) held ∙ d, valid')

-- A valid buffer with room for the padding in front, whose encryption succeeds, goes down as one
-- buffer; and when the other side's handler, which has the same key and nonce, gets those bytes in a
-- valid buffer with room in front, it passes up a valid buffer that holds exactly what was written.
pub crypto_handler_write-on_rx_data :
    (p : Pipeline) (law : IsLawful p) (buf rb : FlexBuffer) (c : List ℕ) (u u' : p.World)
    → IsValid buf
    → p.zero_bytes ≤ buf.offset
    → buf.size + flex_padding_len < 2 ^ 63
    → p.crypto_encrypt2 (contents (flex_buffer_backward_offset buf p.zero_bytes)) ≡ some c
    → IsValid rb
    → p.zero_bytes - p.mac_bytes ≤ rb.offset
    → rb.size + flex_padding_len < 2 ^ 63
    → contents rb ≡ contents (cipher_buffer p buf c)
    → ((crypto_handler_write p buf u).1 ≡ (p.next_write (cipher_buffer p buf c) u).1)
      × (plain : FlexBuffer) × (crypto_handler_on_rx_data p rb u' ≡ p.prev_on_data plain u')
      × (contents plain ≡ contents buf)
      × IsValid plain
unfolding crypto_handler_write write_cipher crypto_handler_on_rx_data deliver_plain
crypto_handler_write-on_rx_data p law buf rb c u u' v room small encrypted w behind small' arrived =
    let (m', e, l, d) = opened p law buf c v room small encrypted rb w behind small' arrived in
    let (same, valid) = plain_bytes p law buf c v room small encrypted rb w behind small' arrived in
    (rw encrypted refl, plain_buffer p rb m', rw e refl, same, valid)
