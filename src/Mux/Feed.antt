-- ===== src/Mux/Feed.antt =====
-- The theorem of reassembly: any number of pieces that together make a stream of packets, through
-- `multiplex_handler_notify_data` of src/session/multiplex_handler.c.
use elastos_net_carrier_nati.Base.{
  ℕ, zero, suc, ◌+◌, ◌≤◌, ◌≡◌, refl, sym, ap, subst, ◌∙◌, List, [], ◌∷◌, ◌++◌, arith, length, take,
  drop, length-append, append-nil, Option, none, some,
}
use native.Mathlib.Decide.{dec_le}
use elastos_net_carrier_nati.FlexBuffer.{FlexBuffer, contents}
use elastos_net_carrier_nati.FlexBuffer.Refine.{IsValid, length-contents}
use elastos_net_carrier_nati.Mux.Protocol.{protocol_head_len}
use elastos_net_carrier_nati.Mux.Channel.{System}
use elastos_net_carrier_nati.Mux.Handler.{MultiplexHandler}
use elastos_net_carrier_nati.Mux.Receive.{multiplex_handler_notify_packet}
use elastos_net_carrier_nati.Mux.Reassembly.{
  StreamHandler, deliver, notify_data_loop, multiplex_handler_notify_data,
}
use elastos_net_carrier_nati.Mux.Stream.{
  exact, AllFrames, concat, deliver_all, HasPending, Ahead, headed, goal, filled, round_short,
  round_partial, round_complete,
}
use elastos_net_carrier_nati.Mux.Delivery.{
  Progress, AllFrames-append, Ahead-nil, size_p, kept, moved, joined, sizes, goal-eq,
  complete-Moved, remaining, fewer, fresh, handed_on,
}

module _ {sys : System} where
  -- A packet that is complete comes before what the following rounds do.
  Progress-cons :
      (s t : StreamHandler sys) (f : List ℕ) (fs : List (List ℕ)) (rest : List ℕ)
      (o : Option (StreamHandler sys))
      → deliver_all t.handler [] ≡ deliver_all s.handler (f ∷ [])
      → Progress t fs rest o
      → Progress s (f ∷ fs) rest o
  unfolding deliver_all
  Progress-cons s t f fs rest o e g = record {
    done = f ∷ g.done;
    todo = g.todo;
    next = g.next;
    part = g.part;
    result = g.result;
    split = ap (◌∷◌ f) g.split;
    handled = g.handled ∙ ap (λ h. deliver_all h g.done) e;
    pending = g.pending;
    ahead = g.ahead;
  }

  nothing_left :
      (s : StreamHandler sys) (fuel : ℕ) (buf : FlexBuffer) (p rest : List ℕ) (fs : List (List ℕ))
      → buf.size ≡ 0
      → HasPending s p
      → Ahead p (contents buf ++ rest) fs
      → Progress s fs rest (notify_data_loop fuel s buf)
  nothing_left s fuel buf p rest fs z h a = record {
    done = [];
    todo = fs;
    next = s;
    part = p;
    result = stops fuel;
    split = refl;
    handled = unfold deliver_all in refl;
    pending = h;
    ahead = ahead_rest fs a;
  }
    where
      empty : contents buf ≡ []
      empty = ap (λ n. take n (drop buf.offset buf.buffer)) z

      stops : (fuel : ℕ) → notify_data_loop fuel s buf ≡ some s
      stops zero = unfold notify_data_loop in ground arith
      stops (suc fuel) = unfold notify_data_loop in ground arith

      ahead_rest : (fs : List (List ℕ)) → Ahead p (contents buf ++ rest) fs → Ahead p rest fs
      ahead_rest [] b = (b.0, sym (ap (λ xs. xs ++ rest) empty) ∙ b.1)
      ahead_rest (f ∷ fs) b = (b.0, sym (ap (λ xs. p ++ (xs ++ rest)) empty) ∙ b.1)

  -- The loop, on enough fuel.
  pub loop-Progress :
      (fuel : ℕ) (s : StreamHandler sys) (buf : FlexBuffer) (p rest : List ℕ) (fs : List (List ℕ))
      → buf.size ≤ fuel
      → IsValid buf
      → HasPending s p
      → AllFrames fs
      → Ahead p (contents buf ++ rest) fs
      → Progress s fs rest (notify_data_loop fuel s buf)
  loop-Progress zero s buf p rest fs le w h a e =
      nothing_left s zero buf p rest fs (omega arith) h e
  loop-Progress (suc fuel) s buf p rest [] le w h a e =
      nothing_left s (suc fuel) buf p rest []
        (omega (arith, length-contents buf w, length-append (contents buf) rest, ap length e.1)) h e
  loop-Progress (suc fuel) s buf p rest (f ∷ fs) le w h a e = elim (dec_le buf.size 0) [
    | yes z ↦ nothing_left s (suc fuel) buf p rest (f ∷ fs) (omega arith) h e
    | no z ↦ elim (dec_le protocol_head_len (length p + buf.size)) [
      | no less ↦
          subst (Progress s (f ∷ fs) rest)
            (sym (
              round_short fuel s buf (omega arith)
                (omega (arith, size_p fuel s buf p rest f fs w h a.0 e.0 e.1))))
            (kept fuel s buf p rest f fs w h a.0 e.0 e.1 s.incomplete_buf buf h.valid w h.offset
              h.capacity (omega (arith, size_p fuel s buf p rest f fs w h a.0 e.0 e.1))
              (omega (arith, a.0)) (ap (λ xs. xs ++ contents buf) h.holds))
      | yes long ↦
          elim (dec_le (goal fuel s buf)
            ((headed fuel s buf).0.size + (headed fuel s buf).1.size)) [
              | no less ↦
                  let m = moved fuel s buf p rest f fs w h a.0 e.0 e.1 long in
                  subst (Progress s (f ∷ fs) rest)
                    (sym (
                      round_partial fuel s buf (omega arith)
                        (omega (arith, size_p fuel s buf p rest f fs w h a.0 e.0 e.1))
                        (omega arith)))
                    (kept fuel s buf p rest f fs w h a.0 e.0 e.1 (headed fuel s buf).0
                      (headed fuel s buf).1 m.front_valid m.back_valid (m.same_offset ∙ h.offset)
                      (m.same_capacity ∙ h.capacity)
                      (sizes fuel s buf p rest f fs w h a.0 e.0 e.1 long).2
                      (omega (
                        arith,
                        goal-eq fuel s buf p rest f fs w h a.0 e.0 e.1 long,
                        sizes fuel s buf p rest f fs w h a.0 e.0 e.1 long,
                      ))
                      (joined fuel s buf p rest f fs w h a.0 e.0 e.1 long))
              | yes q ↦
                  subst (Progress s (f ∷ fs) rest)
                    (sym (
                      round_complete fuel s buf (omega arith)
                        (omega (arith, size_p fuel s buf p rest f fs w h a.0 e.0 e.1)) q))
                    (Progress-cons s (deliver s.handler (filled fuel s buf).0) f fs rest _
                      (unfold deliver_all in
                        handed_on fuel s buf p rest f fs w h a.0 e.0 e.1 long q)
                      (loop-Progress fuel (deliver s.handler (filled fuel s buf).0)
                        (filled fuel s buf).1 [] rest fs
                        (omega (arith, fewer fuel s buf p rest f fs w h a.0 e.0 e.1 long q))
                        (complete-Moved fuel s buf p rest f fs w h a.0 e.0 e.1 long q).back_valid
                        (fresh fuel s buf p rest f fs w h a.0 e.0 e.1 long q) a.1
                        (Ahead-nil _ fs a.1
                          (remaining fuel s buf p rest f fs w h a.0 e.0 e.1 long q))))
            ]
    ]
  ]

-- The pieces of a stream and what they hold together.
abbrev pub AllValid : List FlexBuffer → Type 0
AllValid [] = Unit {0}
AllValid (b ∷ bs) = IsValid b × AllValid bs

abbrev pub bytes : List FlexBuffer → List ℕ
bytes [] = []
bytes (b ∷ bs) = contents b ++ bytes bs

module _ {sys : System} where
  -- One piece after the other.
  pub feed : StreamHandler sys → List FlexBuffer → Option (StreamHandler sys)
  feed s [] = some s
  feed s (b ∷ bs) = elim (multiplex_handler_notify_data s b) [ none ↦ none | some s' ↦ feed s' bs ]

  deliver_all-append :
      (h : MultiplexHandler sys) (fs gs : List (List ℕ))
      → deliver_all h (fs ++ gs) ≡ deliver_all (deliver_all h fs) gs
  unfolding deliver_all
  deliver_all-append h [] gs = refl
  deliver_all-append h (f ∷ fs) gs =
      deliver_all-append (multiplex_handler_notify_packet h (exact f)) fs gs

  none_delivered : (h : MultiplexHandler sys) (fs : List (List ℕ)) → fs ≡ [] → h ≡ deliver_all h fs
  unfolding deliver_all
  none_delivered h fs z = sym (ap (deliver_all h) z)

  all_done :
      (s : StreamHandler sys) (p : List ℕ) (fs : List (List ℕ))
      → HasPending s p
      → Ahead p [] fs
      → (fs ≡ []) × HasPending s []
  all_done s p [] h a = (refl, subst (HasPending s) a.0 h)
  all_done s p (f ∷ fs) h a =
      absurd
        (omega (arith, a.0, ap length a.1, ap length (append-nil p), length-append f (concat fs)))

  feed-cons :
      (s : StreamHandler sys) (b : FlexBuffer) (bs : List FlexBuffer) (t : StreamHandler sys)
      → multiplex_handler_notify_data s b ≡ some t
      → feed s (b ∷ bs) ≡ feed t bs
  unfolding feed
  feed-cons s b bs t e = rw (e, feed)

  feed_from :
      (bs : List FlexBuffer) (s : StreamHandler sys) (p : List ℕ) (fs : List (List ℕ))
      → AllValid bs
      → HasPending s p
      → AllFrames fs
      → Ahead p (bytes bs) fs
      → (t : StreamHandler sys) × (feed s bs ≡ some t)
        × (t.handler ≡ deliver_all s.handler fs)
        × HasPending t []
  unfolding feed
  feed_from [] s p fs v h a e =
      let (z, h') = all_done s p fs h e in (s, refl, none_delivered s.handler fs z, h')
  feed_from (b ∷ bs) s p fs v h a e =
      let g = loop-Progress b.size s b p (bytes bs) fs (omega arith) v.0 h a e in
      let (t, r, d, h') =
        feed_from bs g.next g.part g.todo v.1 g.pending
          (AllFrames-append g.done g.todo (subst AllFrames g.split a)) g.ahead in
      (
        t,
        feed-cons s b bs g.next (unfold multiplex_handler_notify_data in g.result) ∙ r,
        d
            ∙ ap (λ x. deliver_all x g.todo) g.handled
            ∙ sym (ap (deliver_all s.handler) g.split ∙ deliver_all-append s.handler g.done g.todo),
        h',
      )

  -- If the pieces that a reliable stream hands over make up a sequence of packets, each as long as
  -- its header says and short enough for the buffer, then however the stream is cut into pieces the
  -- loop ends, has handed on exactly these packets, whole and in order, and keeps nothing back.
  pub feed_lem :
      (s : StreamHandler sys) (bs : List FlexBuffer) (fs : List (List ℕ))
      → AllValid bs
      → HasPending s []
      → AllFrames fs
      → bytes bs ≡ concat fs
      → (t : StreamHandler sys) × (feed s bs ≡ some t)
        × (t.handler ≡ deliver_all s.handler fs)
        × HasPending t []
  feed_lem s bs fs v h a e = feed_from bs s [] fs v h a (Ahead-nil (bytes bs) fs a e)
