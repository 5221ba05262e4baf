-- ===== src/Mux/Delivery.antt =====
-- Reassembly, proved: the loop of `multiplex_handler_notify_data` of
-- src/session/multiplex_handler.c, round by round, and then over any number of pieces.
use elastos_net_carrier_nati.Base.{
  ℕ, ◌+◌, ◌-◌, ◌<◌, ◌≤◌, ◌≡◌, refl, sym, ap, ap₂, ◌∙◌, List, [], ◌∷◌, ◌++◌, arith, length, take,
  drop, length-append, take-append_ge, take-append_le, take-append-drop, append_assoc,
  append_cancel, take-append_self, cut-append, Option, some,
}
use elastos_net_carrier_nati.FlexBuffer.{
  FlexBuffer, contents, flex_padding_len, flex_buffer_max_len,
}
use elastos_net_carrier_nati.FlexBuffer.Refine.{IsValid, length-contents}
use elastos_net_carrier_nati.Mux.Protocol.{parse_header, protocol_head_len}
use elastos_net_carrier_nati.Mux.Channel.{System}
use elastos_net_carrier_nati.Mux.Receive.{multiplex_handler_notify_packet}
use elastos_net_carrier_nati.Mux.Reassembly.{StreamHandler, deliver, keep}
use elastos_net_carrier_nati.Mux.Filling.{Moved, fill_up-Moved, append_all}
use elastos_net_carrier_nati.Mux.Stream.{
  exact, IsFrame, AllFrames, concat, parse_header-append, notify_packet-exact, deliver_all,
  HasPending, Ahead, headed, goal, filled,
}

-- What a piece of the stream brings about: some packets are handed on, in order, and the received
-- part of the next one is pending.
pub record Progress {sys : System} (s : StreamHandler sys) (fs : List (List ℕ)) (rest : List ℕ)
    (o : Option (StreamHandler sys)) : Type 0 where
  pub done : List (List ℕ)
  pub todo : List (List ℕ)
  pub next : StreamHandler sys
  pub part : List ℕ
  pub result : o ≡ some next
  pub split : fs ≡ done ++ todo
  pub handled : next.handler ≡ deliver_all s.handler done
  pub pending : HasPending next part
  pub ahead : Ahead part rest todo

pub AllFrames-append : (xs ys : List (List ℕ)) → AllFrames (xs ++ ys) → AllFrames ys
AllFrames-append [] ys a = a
AllFrames-append (x ∷ xs) ys a = AllFrames-append xs ys a.1

pub Ahead-nil :
    (rest : List ℕ) (fs : List (List ℕ)) → AllFrames fs → rest ≡ concat fs → Ahead [] rest fs
Ahead-nil rest [] a e = (refl, e)
Ahead-nil rest (f ∷ fs) a e = (omega (arith, a.0), e)

-- One round with the first packet `f` not complete at its beginning.
module _ {sys : System} (fuel : ℕ) (s : StreamHandler sys) (buf : FlexBuffer) (p rest f : List ℕ)
    (fs : List (List ℕ)) (w : IsValid buf) (h : HasPending s p) (frame : IsFrame f)
    (short : length p < length f) (e : p ++ (contents buf ++ rest) ≡ f ++ concat fs) where
  pub size_p : s.incomplete_buf.size ≡ length p
  size_p = sym (length-contents s.incomplete_buf h.valid) ∙ ap length h.holds

  size_c : length (contents buf) ≡ buf.size
  size_c = length-contents buf w

  enough : length p + buf.size + length rest ≡ length f + length (concat fs)
  enough = omega (
    arith,
    size_c,
    ap length e,
    length-append p (contents buf ++ rest),
    length-append (contents buf) rest,
    length-append f (concat fs),
  )

  -- The bytes are kept: they are still fewer than the packet has.
  pub kept :
      (inc b : FlexBuffer)
      → IsValid inc
      → IsValid b
      → inc.offset ≡ flex_padding_len
      → inc.capacity ≡ flex_buffer_max_len
      → inc.size + b.size ≡ length p + buf.size
      → length p + buf.size < length f
      → contents inc ++ contents b ≡ p ++ contents buf
      → Progress s (f ∷ fs) rest (some (keep s inc b))
  unfolding keep
  kept inc b v u o c n less same =
      let (joined, valid, o', c') = append_all inc b v u (omega (arith, frame.2)) in
      record {
        done = [];
        todo = f ∷ fs;
        next = keep s inc b;
        part = p ++ contents buf;
        result = refl;
        split = refl;
        handled = unfold deliver_all in refl;
        pending = record {
          holds = joined ∙ same;
          valid = valid;
          offset = o' ∙ o;
          capacity = c' ∙ c;
        };
        ahead = (
          omega (arith, length-append p (contents buf), size_c),
          append_assoc p (contents buf) rest ∙ e,
        );
      }

  -- The round goes past the header.
  module _ (long : protocol_head_len ≤ length p + buf.size) where
    pub moved :
        Moved s.incomplete_buf buf (protocol_head_len - s.incomplete_buf.size) (headed fuel s buf)
    moved =
        fill_up-Moved s.incomplete_buf buf h.valid w protocol_head_len (omega (arith, size_p))
          (omega (arith, h.offset, h.capacity))

    abbrev pub n : ℕ
    n = protocol_head_len - s.incomplete_buf.size

    pub first : contents (headed fuel s buf).0 ≡ p ++ take n (contents buf)
    first = moved.front ∙ ap (λ xs. xs ++ take n (contents buf)) h.holds

    pub rest_of : contents (headed fuel s buf).1 ≡ drop n (contents buf)
    rest_of = moved.back

    pub joined :
        contents (headed fuel s buf).0 ++ contents (headed fuel s buf).1 ≡ p ++ contents buf
    joined =
        ap₂ ◌++◌ first rest_of
        ∙ append_assoc p (take n (contents buf)) (drop n (contents buf))
        ∙ ap (λ xs. p ++ xs) (take-append-drop n (contents buf))

    -- The packet again, cut behind the header's bytes.
    pub recut :
        contents (headed fuel s buf).0 ++ (contents (headed fuel s buf).1 ++ rest) ≡ f ++ concat fs
    recut = ap₂ (λ xs ys. xs ++ (ys ++ rest)) first rest_of ∙ cut-append n p (contents buf) rest ∙ e

    pub sizes :
        (length (contents (headed fuel s buf).0) ≡ (headed fuel s buf).0.size)
        × (length (contents (headed fuel s buf).1) ≡ (headed fuel s buf).1.size)
        × ((headed fuel s buf).0.size + (headed fuel s buf).1.size ≡ length p + buf.size)
        × (protocol_head_len ≤ (headed fuel s buf).0.size)
        × ((headed fuel s buf).0.size ≤ length f)
        × (length p ≤ (headed fuel s buf).0.size)
    sizes = (
      length-contents _ moved.front_valid,
      length-contents _ moved.back_valid,
      omega (arith, moved.front_size, moved.back_size, size_p),
      omega (arith, moved.front_size),
      omega (arith, moved.front_size, size_p, frame.0),
      omega (arith, moved.front_size, size_p),
    )

    pub goal-eq : goal fuel s buf ≡ length f
    goal-eq =
        ap (λ x. x.payload_len + protocol_head_len)
          (sym (
              parse_header-append (contents (headed fuel s buf).0)
                (contents (headed fuel s buf).1 ++ rest) (omega (arith, sizes)))
            ∙ ap parse_header recut
            ∙ parse_header-append f (concat fs) frame.0)
        ∙ sym frame.1

    pub complete-Moved :
        goal fuel s buf ≤ (headed fuel s buf).0.size + (headed fuel s buf).1.size
        → Moved
            (headed fuel s buf).0
            (headed fuel s buf).1
            (goal fuel s buf - (headed fuel s buf).0.size)
            (filled fuel s buf)
    complete-Moved q = fill_up-Moved _ _ moved.front_valid moved.back_valid (goal fuel s buf) q (
        omega
          (arith, goal-eq, frame.2, moved.same_offset, moved.same_capacity, h.offset, h.capacity))

    -- The second filling completes exactly the packet `f`.
    module _ (q : goal fuel s buf ≤ (headed fuel s buf).0.size + (headed fuel s buf).1.size) where
      pub whole : contents (filled fuel s buf).0 ≡ f
      whole =
          let m = goal fuel s buf - (headed fuel s buf).0.size in
          let q1 = contents (headed fuel s buf).0 in
          let c1 = contents (headed fuel s buf).1 in
          (complete-Moved q).front
          ∙ sym (ap (λ xs. q1 ++ xs) (take-append_le m c1 rest (omega (arith, sizes))))
          ∙ sym (take-append_ge (length f) m q1 (c1 ++ rest) (omega (arith, goal-eq, sizes)))
          ∙ ap (take (length f)) recut
          ∙ take-append_self f (concat fs)

      pub remaining : contents (filled fuel s buf).1 ++ rest ≡ concat fs
      remaining =
          let m = goal fuel s buf - (headed fuel s buf).0.size in
          let q1 = contents (headed fuel s buf).0 in
          let c1 = contents (headed fuel s buf).1 in
          ap (λ xs. xs ++ rest) (complete-Moved q).back
          ∙ append_cancel f (drop m c1 ++ rest) (concat fs) (
              ap (λ xs. xs ++ (drop m c1 ++ rest)) (sym whole ∙ (complete-Moved q).front)
              ∙ cut-append m q1 c1 rest
              ∙ recut)

      pub fewer : (filled fuel s buf).1.size < buf.size
      fewer = omega (arith, (complete-Moved q).back_size, goal-eq, sizes, short)

      pub fresh : HasPending (deliver s.handler (filled fuel s buf).0) []
      unfolding deliver
      fresh =
          let m = complete-Moved q in
          record {
            holds = refl;
            valid = record {
              block = m.front_valid.block;
              inside = omega (arith, m.same_capacity, moved.same_capacity, h.capacity);
              small = m.front_valid.small;
            };
            offset = refl;
            capacity = m.same_capacity ∙ moved.same_capacity ∙ h.capacity;
          }

      pub handed_on :
          (deliver s.handler (filled fuel s buf).0).handler
          ≡ multiplex_handler_notify_packet s.handler (exact f)
      unfolding deliver
      handed_on =
          notify_packet-exact s.handler (filled fuel s buf).0 f (complete-Moved q).front_valid whole
            frame.0 (omega (arith, frame.2))
