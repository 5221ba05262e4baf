-- ===== src/Invite/Sending.antt =====
-- What the loop of `ela_invite_friend` of src/carrier/ela_carrier.c sends, and what it leaves in the
-- table of callbacks.
use elastos_net_carrier_nati.Base.{
  ℕ, zero, suc, ◌≤◌, ◌<◌, ◌≡◌, refl, sym, ap, ◌∙◌, List, [], ◌∷◌, ◌++◌, Bool, true, false, Option,
  none, some, arith, length, append_assoc, append-nil, Bool-cases, ◌⊎◌, inl, inr, ◌==◌,
}
use elastos_net_carrier_nati.Mux.Channel.{Rc, ok, err}
use elastos_net_carrier_nati.Elaerr
use elastos_net_carrier_nati.Invite.Data.{
  Fragment, Message, invite_request, Env, ElaCarrier, TransactedCallback, IsLawfulTable, tid_key,
  ela_max_bundle_len,
}
use elastos_net_carrier_nati.Invite.Send.{
  later_bundle_len, allocate, send_message, send_last, invite_loop,
}
use elastos_net_carrier_nati.Invite.Fragments.{
  request_pieces, sent, left, fragment_lem, later_bound,
}

-- The messages of the fragments to a friend.
abbrev pub requests : ℕ → List Fragment → List (ℕ × Message)
requests n [] = []
requests n (f ∷ fs) = (n, invite_request f) ∷ requests n fs

module _ (env : Env) where
  open env use {World, alloc, dht_friend_message}

  -- A record of the messages that the network has taken.
  pub record IsLog (log : World → List (ℕ × Message)) : Type 0 where
    pub log-alloc : (w : World) → log (alloc w).1 ≡ log w
    pub log-send :
        (n : ℕ) (m : Message) (w : World) (k : ℕ)
        → (dht_friend_message n m w).0 ≡ ok k
        → log (dht_friend_message n m w).1 ≡ log w ++ (n, m) ∷ []

module _ {env : Env} where
  open env use {World, table_get}

  -- What comes of sending `fs`: all are sent and the callback is in the table, or there is an error
  -- and it is not.
  pub data Sent (log : World → List (ℕ × Message)) (c : ElaCarrier env)
      (tcb : TransactedCallback env) (ms : List (ℕ × Message)) (r : Rc × ElaCarrier env)
      : Type 0 where
    all_sent :
        (k : ℕ)
        → r.0 ≡ ok k
        → log r.1.world ≡ log c.world ++ ms
        → table_get r.1.tcallbacks (tid_key tcb.tid) ≡ some tcb
        → Sent log c tcb ms r
    failed :
        (e : ℕ)
        → r.0 ≡ err e
        → table_get r.1.tcallbacks (tid_key tcb.tid) ≡ none
        → Sent log c tcb ms r

Rc-cases : (rc : Rc) → ((e : ℕ) × (rc ≡ err e)) ⊎ ((k : ℕ) × (rc ≡ ok k))
Rc-cases (err e) = inl (e, refl)
Rc-cases (ok k) = inr (k, refl)

-- A round of the loop.
module _ {env : Env} (fuel : ℕ) (c : ElaCarrier env) (n : ℕ) (ext : Option (List ℕ))
    (tcb : TransactedCallback env) (first : Bool) (bundle_len : ℕ) (data_ : List ℕ) where
  abbrev c1 : ElaCarrier env
  c1 = (allocate c).1

  abbrev c2 : ElaCarrier env
  c2 = (allocate c1).1

  abbrev message : Message
  message = invite_request (sent ext tcb.tid tcb.bundle first bundle_len data_)

  abbrev rest : List ℕ
  rest = left ext tcb.tid tcb.bundle first bundle_len data_

  abbrev loop : Option (Rc × ElaCarrier env)
  loop = invite_loop (suc fuel) c n ext tcb first bundle_len data_

  no_packet : (allocate c).0 ≡ false → loop ≡ some (err Elaerr.out_of_memory, c1)
  unfolding invite_loop
  no_packet h = ground arith

  no_encoding :
      (allocate c).0 ≡ true → (allocate c1).0 ≡ false → loop ≡ some (err Elaerr.out_of_memory, c2)
  unfolding invite_loop
  no_encoding h i = ground arith

  loop_last :
      (allocate c).0 ≡ true
      → (allocate c1).0 ≡ true
      → (length rest == 0) ≡ true
      → loop ≡ some (send_last c2 n message tcb)
  unfolding invite_loop
  loop_last h i z = ground arith

  loop_refused :
      (e : ℕ)
      → (allocate c).0 ≡ true
      → (allocate c1).0 ≡ true
      → (length rest == 0) ≡ false
      → (send_message c2 n message).0 ≡ err e
      → loop ≡ some (err e, (send_message c2 n message).1)
  unfolding invite_loop
  loop_refused e h i z s = ground arith

  loop_more :
      (k : ℕ)
      → (allocate c).0 ≡ true
      → (allocate c1).0 ≡ true
      → (length rest == 0) ≡ false
      → (send_message c2 n message).0 ≡ ok k
      → loop
        ≡ invite_loop fuel
            (send_message c2 n message).1
            n
            ext
            tcb
            false
            (later_bundle_len tcb.bundle bundle_len)
            rest
  unfolding invite_loop
  loop_more k h i z s = ground arith

module _ {env : Env} (law : IsLawfulTable env) (log : env.World → List (ℕ × Message))
    (net : IsLog env log) where
  open env use {World, table_get, table_put, table_remove}

  send_last-Sent :
      (c : ElaCarrier env) (n : ℕ) (f : Fragment) (tcb : TransactedCallback env)
      → table_get c.tcallbacks (tid_key tcb.tid) ≡ none
      → Sent log c tcb (requests n (f ∷ [])) (send_last c n (invite_request f) tcb)
  unfolding send_last allocate send_message
  send_last-Sent c n f tcb free = elim (Bool-cases (env.alloc c.world).0) [
    | inr full ↦ failed Elaerr.out_of_memory (ground arith) (ground arith)
    | inl got ↦ go (env.dht_friend_message n (invite_request f) (env.alloc c.world).1).0 refl got
  ]
    where
      go :
          (rc : Rc)
          → (env.dht_friend_message n (invite_request f) (env.alloc c.world).1).0 ≡ rc
          → (env.alloc c.world).0 ≡ true
          → Sent log c tcb (requests n (f ∷ [])) (send_last c n (invite_request f) tcb)
      go (err e) s got = failed e (ground arith) (
          ground (
            arith,
            law.get-remove (table_put c.tcallbacks (tid_key tcb.tid) tcb) (tid_key tcb.tid),
          ))
      go (ok k) s got =
          all_sent 0 (ground arith)
            (ground (
              arith,
              net.log-send n (invite_request f) (env.alloc c.world).1 k s
                  ∙ ap (λ l. l ++ (n, invite_request f) ∷ []) (net.log-alloc c.world),
            ))
            (ground (arith, law.get-put c.tcallbacks (tid_key tcb.tid) tcb))

  Sent-trans :
      (c d : ElaCarrier env) (tcb : TransactedCallback env) (ms ns : List (ℕ × Message))
      (r : Rc × ElaCarrier env)
      → log d.world ≡ log c.world ++ ms
      → Sent log d tcb ns r
      → Sent log c tcb (ms ++ ns) r
  Sent-trans c d tcb ms ns r e (all_sent k o l t) =
      all_sent k o (l ∙ ap (λ x. x ++ ns) e ∙ append_assoc (log c.world) ms ns) t
  Sent-trans c d tcb ms ns r e (failed x o t) = failed x o t

  log-allocate : (c : ElaCarrier env) → log (allocate c).1.world ≡ log c.world
  unfolding allocate
  log-allocate c = net.log-alloc c.world

  log-message :
      (c : ElaCarrier env) (n : ℕ) (m : Message) (k : ℕ)
      → (send_message c n m).0 ≡ ok k
      → log (send_message c n m).1.world ≡ log c.world ++ (n, m) ∷ []
  unfolding send_message
  log-message c n m k s = net.log-send n m c.world k s

  same_callbacks :
      (c : ElaCarrier env) (n : ℕ) (m : Message)
      → ((allocate c).1.tcallbacks ≡ c.tcallbacks)
        × ((send_message c n m).1.tcallbacks ≡ c.tcallbacks)
  unfolding allocate send_message
  same_callbacks c n m = (refl, refl)

  -- The loop of `ela_invite_friend` ends, on as much fuel as there are bytes, for data that are not
  -- empty, a bundle of up to 511 bytes and a transaction that has no callback yet. Either the network
  -- has taken all fragments in order and the callback stands in the table, or the loop returns an
  -- error and the callback does not.
  pub invite_loop-Sent :
      (fuel : ℕ) (c : ElaCarrier env) (n : ℕ) (ext : Option (List ℕ)) (tcb : TransactedCallback env)
      (first : Bool) (bundle_len : ℕ) (data_ : List ℕ)
      → 0 < length data_
      → length data_ ≤ fuel
      → bundle_len ≤ ela_max_bundle_len
      → table_get c.tcallbacks (tid_key tcb.tid) ≡ none
      → (r : Rc × ElaCarrier env) × (invite_loop fuel c n ext tcb first bundle_len data_ ≡ some r)
        × Sent log c tcb
            (requests n (request_pieces fuel ext tcb.tid tcb.bundle first bundle_len data_))
            r
  unfolding request_pieces
  invite_loop-Sent zero c n ext tcb first bundle_len data_ p q b free = absurd (omega arith)
  invite_loop-Sent (suc fuel) c n ext tcb first bundle_len data_ p q b free =
      let d1 = (allocate c).1 in
      let d2 = (allocate d1).1 in
      let m = message fuel c n ext tcb first bundle_len data_ in
      let d3 = (send_message d2 n m).1 in
      let (piece, joined, fewer) = fragment_lem ext tcb.tid tcb.bundle first bundle_len data_ p b in
      let logged : log d2.world ≡ log c.world = log-allocate d1 ∙ log-allocate c in
      let free1 : table_get d1.tcallbacks (tid_key tcb.tid) ≡ none =
        rw (same_callbacks c n m).0 free in
      let free2 : table_get d2.tcallbacks (tid_key tcb.tid) ≡ none =
        rw (same_callbacks d1 n m).0 free1 in
      let free3 : table_get d3.tcallbacks (tid_key tcb.tid) ≡ none =
        rw (same_callbacks d2 n m).1 free2 in
      elim (Bool-cases (allocate c).0) [
        | inr full ↦ (
          _,
          no_packet fuel c n ext tcb first bundle_len data_ full,
          failed Elaerr.out_of_memory refl free1,
        )
        | inl got ↦ elim (Bool-cases (allocate d1).0) [
          | inr full ↦ (
            _,
            no_encoding fuel c n ext tcb first bundle_len data_ got full,
            failed Elaerr.out_of_memory refl free2,
          )
          | inl had ↦
              elim (Bool-cases (length (rest fuel c n ext tcb first bundle_len data_) == 0)) [
                | inl z ↦ (
                  _,
                  loop_last fuel c n ext tcb first bundle_len data_ got had z,
                  rw z (
                      Sent-trans c d2 tcb [] _ _ (logged ∙ sym (append-nil (log c.world)))
                        (send_last-Sent d2 n _ tcb free2)),
                )
                | inr more ↦ elim (Rc-cases (send_message d2 n m).0) [
                  | inl (e, s) ↦ (
                    _,
                    loop_refused fuel c n ext tcb first bundle_len data_ e got had more s,
                    failed e refl free3,
                  )
                  | inr (k, s) ↦
                      let (r, ends, u) =
                        invite_loop-Sent fuel d3 n ext tcb false
                          (later_bundle_len tcb.bundle bundle_len)
                          (rest fuel c n ext tcb first bundle_len data_) (ground arith)
                          (omega arith) (later_bound tcb.bundle bundle_len b) free3 in
                      (
                        r,
                        loop_more fuel c n ext tcb first bundle_len data_ k got had more s ∙ ends,
                        rw more (
                            Sent-trans c d3 tcb ((n, m) ∷ []) _ r
                              (log-message d2 n m k s ∙ ap (λ x. x ++ (n, m) ∷ []) logged) u),
                      )
                ]
              ]
        ]
      ]
