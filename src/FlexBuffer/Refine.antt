-- ===== src/FlexBuffer/Refine.antt =====
-- The functions of src/session/flex_buffer.h seen through the payload.
use native.Mathlib.Decide.{dec_le}
use elastos_net_carrier_nati.Base.{
  ℕ, ◌+◌, ◌-◌, ◌^◌, ◌≤◌, ◌<◌, min, ◌≡◌, refl, sym, ap, subst, ◌∙◌, List, ◌++◌, arith, length, take,
  drop, length-take, length-drop, drop-drop, take-add, drop-take, take-take, take_all, overwrite,
  length-overwrite, take-overwrite, drop-overwrite,
}
use elastos_net_carrier_nati.FlexBuffer.{
  FlexBuffer, contents, flex_buffer_from, flex_buffer_forward_offset, flex_buffer_backward_offset,
  flex_buffer_append, flex_buffer_append2,
}

-- The block is as large as it says, the payload lies inside it, and no `size_t` is near its end.
pub record IsValid (b : FlexBuffer) : Type 0 where
  pub block : length b.buffer ≡ b.capacity
  pub inside : b.offset + b.size ≤ b.capacity
  pub small : b.capacity < 2 ^ 63

pub length-contents : (b : FlexBuffer) → IsValid b → length (contents b) ≡ b.size
length-contents b v =
    omega (arith, length-take b.size (drop b.offset b.buffer), length-drop b.offset b.buffer)

-- The first `n` bytes of the memory behind the offset are those of the payload.
pub take-contents :
    (b : FlexBuffer) (n : ℕ) → n ≤ b.size → take n (drop b.offset b.buffer) ≡ take n (contents b)
take-contents b n h = sym (take-take n b.size _ h)

-- A copy of `bs` to the end of the payload.
abbrev pub extended : FlexBuffer → List ℕ → FlexBuffer
extended b bs = record b {
  size = b.size + length bs;
  buffer = overwrite (b.offset + b.size) bs b.buffer;
}

module _ (b : FlexBuffer) (bs : List ℕ) (v : IsValid b)
    (fits : b.offset + b.size + length bs ≤ b.capacity) where
  pub contents-extended : contents (extended b bs) ≡ contents b ++ bs
  contents-extended =
      ap (take (b.size + length bs))
        (drop-overwrite b.offset b.size _ bs b.buffer refl (omega (arith, v.block, v.inside)))
      ∙ take-overwrite b.size _ bs (drop b.offset b.buffer) refl
          (omega (arith, v.block, v.inside, length-drop b.offset b.buffer))

  pub extended-IsValid : IsValid (extended b bs)
  extended-IsValid = record {
    block = length-overwrite (b.offset + b.size) bs b.buffer ∙ v.block;
    inside = omega (arith);
    small = v.small;
  }

-- The room behind the payload.
abbrev pub room : FlexBuffer → ℕ
room b = b.capacity - b.offset - b.size

-- What `flex_buffer_append` adds: as much of the source's payload as there is room for.
abbrev pub fitting : FlexBuffer → FlexBuffer → List ℕ
fitting dest src = take (room dest) (contents src)

length-fitting : (dest src : FlexBuffer) → length (fitting dest src) ≤ room dest
length-fitting dest src = omega (arith, length-take (room dest) (contents src))

fitting-memory :
    (dest src : FlexBuffer) (len : ℕ)
    → IsValid src
    → len ≡ min (room dest) src.size
    → take len (drop src.offset src.buffer) ≡ fitting dest src
fitting-memory dest src len v e = elim (dec_le src.size (room dest)) [
  | yes p ↦
      ap (λ n. take n (drop src.offset src.buffer)) (omega arith)
      ∙ sym (take_all (room dest) (contents src) (omega (arith, length-contents src v)))
  | no p ↦
      ap (λ n. take n (drop src.offset src.buffer)) (omega arith)
      ∙ take-contents src (room dest) (omega arith)
]

module _ (dest src : FlexBuffer) (v : IsValid dest) (w : IsValid src) where
  -- `flex_buffer_append` is a copy of the fitting bytes to the end of the payload.
  pub flex_buffer_append-extended : flex_buffer_append dest src ≡ extended dest (fitting dest src)
  unfolding flex_buffer_append
  flex_buffer_append-extended = ground (
    arith,
    length-fitting dest src,
    fitting-memory dest src (min (room dest) src.size) w refl,
    length-take (room dest) (contents src),
    length-contents src w,
  )

  -- `flex_buffer_append` adds to the payload as many bytes of the source as fit behind it, in order,
  -- and keeps the buffer valid, whatever the sizes of two valid buffers are.
  pub append-contents :
      (contents (flex_buffer_append dest src) ≡ contents dest ++ fitting dest src)
      × IsValid (flex_buffer_append dest src)
  append-contents = rw flex_buffer_append-extended (
    contents-extended dest (fitting dest src) v bound,
    extended-IsValid dest (fitting dest src) v bound,
  )
    where
      bound : dest.offset + dest.size + length (fitting dest src) ≤ dest.capacity
      bound = omega (arith, length-fitting dest src, v.inside)

  -- `flex_buffer_append2` adds the first `n` bytes of a valid source to the payload of a valid buffer,
  -- if the source has them and they fit, and keeps the buffer valid.
  pub append2-contents :
      (n : ℕ)
      → n ≤ src.size
      → n ≤ room dest
      → (contents (flex_buffer_append2 dest src n) ≡ contents dest ++ take n (contents src))
        × IsValid (flex_buffer_append2 dest src n)
        × (flex_buffer_append2 dest src n ≡ extended dest (take n (contents src)))
  append2-contents n h k = (
    ap contents same ∙ contents-extended dest bs v bound,
    subst IsValid (sym same) (extended-IsValid dest bs v bound),
    same,
  )
    where
      bs : List ℕ
      bs = take n (contents src)

      bound : dest.offset + dest.size + length bs ≤ dest.capacity
      bound = omega (arith, length-take n (contents src), v.inside)

      same : flex_buffer_append2 dest src n ≡ extended dest bs
      same =
          unfold flex_buffer_append2 in
          ground (arith, take-contents src n h, length-take n (contents src), length-contents src w)

module _ (b : FlexBuffer) (n : ℕ) (v : IsValid b) where
  -- Moving a valid buffer forward by at most the payload's size cuts bytes off its front and keeps it
  -- valid.
  pub forward-contents :
      n ≤ b.size
      → (contents (flex_buffer_forward_offset b n) ≡ drop n (contents b))
        × IsValid (flex_buffer_forward_offset b n)
        × ((flex_buffer_forward_offset b n).size ≡ b.size - n)
  forward-contents h = rw same (
    ap (take (b.size - n)) (sym (drop-drop b.offset n _ b.buffer refl))
        ∙ sym (drop-take n (b.size - n) b.size (drop b.offset b.buffer) (omega arith)),
    record { block = v.block; inside = omega (arith, v.inside); small = v.small },
    refl,
  )
    where
      same : flex_buffer_forward_offset b n ≡ record b { offset = b.offset + n; size = b.size - n }
      same = unfold flex_buffer_forward_offset in ground arith

  -- Moving a valid buffer backward by at most the offset grows the payload at its front by the bytes
  -- that stand there, and keeps it valid.
  pub backward-contents :
      n ≤ b.offset
      → (contents (flex_buffer_backward_offset b n)
          ≡ take n (drop (b.offset - n) b.buffer) ++ contents b)
        × IsValid (flex_buffer_backward_offset b n)
        × (flex_buffer_backward_offset b n ≡ record b { offset = b.offset - n; size = b.size + n })
  backward-contents h = rw same (
    take-add n b.size (b.size + n) (drop (b.offset - n) b.buffer) (omega arith)
        ∙ ap (λ xs. take n (drop (b.offset - n) b.buffer) ++ take b.size xs)
            (drop-drop (b.offset - n) n b.offset b.buffer (omega arith)),
    record { block = v.block; inside = omega (arith, v.inside); small = v.small },
    refl,
  )
    where
      same : flex_buffer_backward_offset b n ≡ record b { offset = b.offset - n; size = b.size + n }
      same = unfold flex_buffer_backward_offset in ground arith

-- A move forward takes a move backward of a valid buffer by at most the offset back.
pub forward-backward :
    (b : FlexBuffer) (n : ℕ)
    → IsValid b
    → n ≤ b.offset
    → flex_buffer_forward_offset (flex_buffer_backward_offset b n) n ≡ b
unfolding flex_buffer_forward_offset flex_buffer_backward_offset
forward-backward b n v h = ground arith

-- A buffer made from `src` in a block that is as large as `src` and `offset` together holds `src`, and
-- is valid.
pub flex_buffer_from-contents :
    (storage : List ℕ) (offset : ℕ) (src : List ℕ)
    → length storage ≡ length src + offset
    → length storage < 2 ^ 63
    → (contents (flex_buffer_from storage offset src) ≡ src)
      × IsValid (flex_buffer_from storage offset src)
unfolding flex_buffer_from
flex_buffer_from-contents storage offset src e h = (
  ap (take (length src)) (drop-overwrite offset 0 offset src storage (omega arith) (omega arith))
      ∙ take-overwrite 0 (length src) src (drop offset storage) (omega arith)
          (omega (arith, length-drop offset storage)),
  record {
    block = length-overwrite offset src storage ∙ omega arith;
    inside = omega arith;
    small = omega arith;
  },
)
