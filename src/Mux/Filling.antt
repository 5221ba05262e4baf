-- ===== src/Mux/Filling.antt =====
-- Moving bytes from a received piece to the buffer of the incomplete packet: `fill_up` and `keep` of
-- Mux/Reassembly, seen through the payloads.
use elastos_net_carrier_nati.Base.{
  ℕ, ◌+◌, ◌-◌, ◌≤◌, ◌≡◌, refl, sym, ap, ◌∙◌, ◌++◌, arith, take, drop, length-take, take_all,
  append-nil, ltb, inl, inr, Bool-cases,
}
use elastos_net_carrier_nati.FlexBuffer.{
  FlexBuffer, contents, flex_buffer_append, flex_buffer_append2, flex_buffer_forward_offset,
}
use elastos_net_carrier_nati.FlexBuffer.Refine.{
  IsValid, length-contents, room, fitting, append-contents, append2-contents, forward-contents,
  flex_buffer_append-extended,
}
use elastos_net_carrier_nati.Mux.Reassembly.{fill_up}

-- What the two buffers are after `n` bytes went from the front of `buf` to the end of `inc`.
pub record Moved (inc buf : FlexBuffer) (n : ℕ) (r : FlexBuffer × FlexBuffer) : Type 0 where
  pub front : contents r.0 ≡ contents inc ++ take n (contents buf)
  pub back : contents r.1 ≡ drop n (contents buf)
  pub front_valid : IsValid r.0
  pub back_valid : IsValid r.1
  pub front_size : r.0.size ≡ inc.size + n
  pub back_size : r.1.size ≡ buf.size - n
  pub same_offset : r.0.offset ≡ inc.offset
  pub same_capacity : r.0.capacity ≡ inc.capacity

module _ (inc buf : FlexBuffer) (v : IsValid inc) (w : IsValid buf) where
  -- `fill_up` moves exactly the bytes that are missing, if they are there and fit.
  pub fill_up-Moved :
      (goal : ℕ)
      → goal ≤ inc.size + buf.size
      → inc.offset + goal ≤ inc.capacity
      → Moved inc buf (goal - inc.size) (fill_up inc buf goal)
  unfolding fill_up
  fill_up-Moved goal enough fits = elim (Bool-cases (ltb inc.size goal)) [
    | inl less ↦
        let n = goal - inc.size in
        let (c, v', e) = append2-contents inc buf v w n (ground arith) (ground arith) in
        let (d, w', f) = forward-contents buf n w (ground arith) in
        let moved : fill_up inc buf goal
            ≡ (flex_buffer_append2 inc buf n, flex_buffer_forward_offset buf n) =
          ground arith in
        rw moved (record {
          front = c;
          back = d;
          front_valid = v';
          back_valid = w';
          front_size =
              ap (λ (b : FlexBuffer). b.size) e
              ∙ omega (arith, length-take n (contents buf), length-contents buf w);
          back_size = f;
          same_offset = ap (λ (b : FlexBuffer). b.offset) e;
          same_capacity = ap (λ (b : FlexBuffer). b.capacity) e;
        })
    | inr enough_already ↦
        let n : goal - inc.size ≡ 0 = ground arith in
        let kept : fill_up inc buf goal ≡ (inc, buf) = ground arith in
        rw (kept, n)
          (record {
            front = sym (append-nil (contents inc));
            back = refl;
            front_valid = v;
            back_valid = w;
            front_size = omega arith;
            back_size = omega arith;
            same_offset = refl;
            same_capacity = refl;
          })
  ]

  -- `keep` appends the whole piece, if it fits.
  pub append_all :
      inc.offset + inc.size + buf.size ≤ inc.capacity
      → (contents (flex_buffer_append inc buf) ≡ contents inc ++ contents buf)
        × IsValid (flex_buffer_append inc buf)
        × ((flex_buffer_append inc buf).offset ≡ inc.offset)
        × ((flex_buffer_append inc buf).capacity ≡ inc.capacity)
  append_all fits =
      let all : fitting inc buf ≡ contents buf =
        take_all (room inc) (contents buf) (omega (arith, length-contents buf w)) in
      let (c, v') = append-contents inc buf v w in
      (
        c ∙ ap (λ bs. contents inc ++ bs) all,
        v',
        rw (flex_buffer_append-extended inc buf v w) refl,
        rw (flex_buffer_append-extended inc buf v w) refl,
      )
