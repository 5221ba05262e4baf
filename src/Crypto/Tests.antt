-- ===== src/Crypto/Tests.antt =====
-- A library that leaves the bytes as they are, in which the laws of Crypto/RoundTrip hold, and a
-- payload of three bytes sent through src/session/crypto_handler.c.
use elastos_net_carrier_nati.Base.{
  ℕ, ◌≡◌, refl, sym, ap, ◌∙◌, List, [], ◌∷◌, Option, some, arith, length, drop, replicate,
  overwrite, overlay, drop-drop,
}
use elastos_net_carrier_nati.FlexBuffer.{
  FlexBuffer, contents, flex_buffer_alloca, flex_buffer_set_size, flex_buffer_from,
  flex_buffer_forward_offset, flex_buffer_backward_offset,
}
use elastos_net_carrier_nati.FlexBuffer.Refine.{IsValid, flex_buffer_from-contents}
use elastos_net_carrier_nati.Mux.Channel.{ok}
use elastos_net_carrier_nati.Crypto.{
  Pipeline, cipher_buffer, crypto_handler_write, crypto_handler_on_rx_data, filled_buffer,
  scratch_buffer,
}
use elastos_net_carrier_nati.Crypto.RoundTrip.{IsLawful, crypto_handler_write-on_rx_data}

abbrev open_pipe : Pipeline
open_pipe = record {
  World = List (List ℕ);
  zero_bytes = 32;
  mac_bytes = 16;
  crypto_encrypt2 = λ m. some m;
  crypto_decrypt2 = λ c. some c;
  next_write = λ b w. (ok b.size, contents b ∷ w);
  prev_on_data = λ b w. contents b ∷ w;
}

drop_more : (xs ys : List ℕ) → drop 16 xs ≡ drop 16 ys → drop 32 xs ≡ drop 32 ys
drop_more xs ys e = sym (drop-drop 16 16 32 xs refl) ∙ ap (drop 16) e ∙ drop-drop 16 16 32 ys refl

the_bytes : {xs ys : List ℕ} → some xs ≡ some ys → xs ≡ ys
the_bytes {xs = xs} e = ap (or_else xs) e
  where
    or_else : List ℕ → Option (List ℕ) → List ℕ
    or_else d Option.none = d
    or_else d (some zs) = zs

open_pipe-IsLawful : IsLawful open_pipe
open_pipe-IsLawful = record {
  mac_inside = omega arith;
  zero_inside = omega arith;
  same_length = λ m c e. sym (ap length (the_bytes e));
  opens = λ m c c' e l d. (
    c',
    refl,
    l ∙ sym (ap length (the_bytes e)),
    drop_more c' c d ∙ sym (ap (drop 32) (the_bytes e)),
  );
}

abbrev three : FlexBuffer
unfolding flex_buffer_from
three = flex_buffer_from (replicate 131 0) 128 (1 ∷ 2 ∷ 3 ∷ [])

abbrev cipher : List ℕ
unfolding flex_buffer_from flex_buffer_backward_offset
cipher = contents (flex_buffer_backward_offset three 32)

abbrev arrived : FlexBuffer
unfolding flex_buffer_from cipher_buffer
arrived = flex_buffer_from (replicate 147 0) 128 (contents (cipher_buffer open_pipe three cipher))

three-IsValid : IsValid three
unfolding three flex_buffer_from
three-IsValid =
    (flex_buffer_from-contents (replicate 131 0) 128 (1 ∷ 2 ∷ 3 ∷ []) refl (omega arith)).1

arrived-contents :
    (contents arrived ≡ contents (cipher_buffer open_pipe three cipher)) × IsValid arrived
unfolding three cipher arrived overwrite overlay cipher_buffer flex_buffer_from filled_buffer
    scratch_buffer flex_buffer_alloca flex_buffer_set_size flex_buffer_forward_offset
    flex_buffer_backward_offset
arrived-contents =
    flex_buffer_from-contents (replicate 147 0) 128
      (contents (cipher_buffer open_pipe three cipher)) refl (omega arith)

crypto_handler_write-on_rx_data_example :
    ((crypto_handler_write open_pipe three []).1
      ≡ (open_pipe.next_write (cipher_buffer open_pipe three cipher) []).1)
    × (plain : FlexBuffer) × (crypto_handler_on_rx_data open_pipe arrived []
        ≡ open_pipe.prev_on_data plain [])
    × (contents plain ≡ contents three)
    × IsValid plain
unfolding three cipher arrived overwrite overlay cipher_buffer flex_buffer_from filled_buffer
    scratch_buffer flex_buffer_alloca flex_buffer_set_size flex_buffer_forward_offset
    flex_buffer_backward_offset
crypto_handler_write-on_rx_data_example =
    crypto_handler_write-on_rx_data open_pipe open_pipe-IsLawful three arrived cipher [] []
      three-IsValid (omega arith) (omega arith) refl arrived-contents.1 (omega arith) (omega arith)
      arrived-contents.0
