-- ===== src/Invite/Completion.antt =====
-- Invitations that come in whole: the run of `handle_invite_request` of src/carrier/ela_carrier.c
-- over all fragments.
use elastos_net_carrier_nati.Base.{
  ℕ, ◌+◌, ◌≤◌, ◌<◌, ◌≡◌, refl, sym, ap, subst, ◌∙◌, List, [], ◌∷◌, ◌++◌, Bool, true, false, Option,
  none, some, arith, length, length-append, take_all, append_assoc, append-nil,
}
use elastos_net_carrier_nati.Invite.Data.{
  Fragment, TransactedAssembly, Env, ElaCarrier, InviteCallback, IsLawfulTable, tid_key,
  history_key, ela_max_invite_data_len,
}
use elastos_net_carrier_nati.Invite.Send.{allocate}
use elastos_net_carrier_nati.Invite.Receive.{
  new_assembly, add_data, notify_invite, complete_request, assemble_request, request_assembly,
  handle_invite_request, invite_callback, sender,
}
use elastos_net_carrier_nati.Invite.Assembly.{
  IsPartial, add_data-IsPartial, IsFor, add_data-IsFor, new_assembly-IsPartial, new_assembly-IsFor,
  AllPieces, all_data, receive_all, invited, assemble_more, assemble_last,
}

module _ {env : Env} where
  open env use {World, table_get, table_put, table_remove, friends_get, gettimeofday, alloc}

  -- An invitation has come in whole: its callback has been called once, on these data, its sender
  -- stands in the history, and nothing is left of it in the table.
  pub record IsCompleted (c c' : ElaCarrier env) (friendid : List ℕ) (name bundle : Option (List ℕ))
      (bs : List ℕ) (tid : ℕ) : Type 0 where
    pub called : c'.world ≡ invited c friendid name bundle bs
    pub remembered : table_get c'.thistory (history_key (sender friendid name)) ≡ some tid
    pub removed : table_get c'.tassembly_ireqs (tid_key tid) ≡ none

  notify_invite-tables :
      (c : ElaCarrier env) (friendid : List ℕ) (name : Option (List ℕ)) (a : TransactedAssembly)
      → ((notify_invite c friendid name a).world ≡ invited c friendid name a.bundle a.data_)
        × ((notify_invite c friendid name a).thistory ≡ c.thistory)
        × ((notify_invite c friendid name a).tassembly_ireqs ≡ c.tassembly_ireqs)
  unfolding notify_invite
  notify_invite-tables c friendid name a = go (invite_callback c name) refl
    where
      go :
          (o : Option (InviteCallback env))
          → invite_callback c name ≡ o
          → ((notify_invite c friendid name a).world ≡ invited c friendid name a.bundle a.data_)
            × ((notify_invite c friendid name a).thistory ≡ c.thistory)
            × ((notify_invite c friendid name a).tassembly_ireqs ≡ c.tassembly_ireqs)
      go none e = rw (e, notify_invite) (refl, refl, refl)
      go (some f) e = rw (e, notify_invite) (refl, refl, refl)

  -- The carrier once the clock has been read for the first fragment.
  abbrev pub begun : ElaCarrier env → ElaCarrier env
  begun c = record c { world = (gettimeofday (alloc c.world).1).1 }

  module _ (law : IsLawfulTable env) where
    complete_request-IsCompleted :
        (c : ElaCarrier env) (friendid : List ℕ) (f : Fragment) (name bundle : Option (List ℕ))
        (a : TransactedAssembly) (tid : ℕ) (bs : List ℕ) (need_add : Bool)
        → f.tid ≡ tid
        → f.extension ≡ name
        → a.bundle ≡ bundle
        → a.data_ ≡ bs
        → (need_add ≡ true → table_get c.tassembly_ireqs (tid_key tid) ≡ none)
        → IsCompleted c (complete_request c friendid f a need_add) friendid name bundle bs tid
    unfolding complete_request
    complete_request-IsCompleted c friendid f name bundle a tid bs true t e b d free =
        let c1 : ElaCarrier env = record c {
          thistory = table_put c.thistory (history_key (sender friendid f.extension)) f.tid;
        } in
        let (w, h, r) = notify_invite-tables c1 friendid f.extension a in
        record {
          called =
              w
              ∙ ap (λ x. invited c friendid x a.bundle a.data_) e
              ∙ ap (λ x. invited c friendid name x a.data_) b
              ∙ ap (invited c friendid name bundle) d;
          remembered =
              ap (λ x. table_get x (history_key (sender friendid name))) h
              ∙ rw (e, t) (law.get-put c.thistory (history_key (sender friendid name)) tid);
          removed = ap (λ x. table_get x (tid_key tid)) r ∙ free refl;
        }
    complete_request-IsCompleted c friendid f name bundle a tid bs false t e b d free =
        let c1 : ElaCarrier env = record c {
          thistory = table_put c.thistory (history_key (sender friendid f.extension)) f.tid;
        } in
        let (w, h, r) = notify_invite-tables c1 friendid f.extension a in
        record {
          called =
              w
              ∙ ap (λ x. invited c friendid x a.bundle a.data_) e
              ∙ ap (λ x. invited c friendid name x a.data_) b
              ∙ ap (invited c friendid name bundle) d;
          remembered =
              ap (λ x. table_get x (history_key (sender friendid name))) h
              ∙ rw (e, t) (law.get-put c.thistory (history_key (sender friendid name)) tid);
          removed =
              ap (λ x. table_get (table_remove x (tid_key f.tid)) (tid_key tid)) r
              ∙ rw t (law.get-remove c.tassembly_ireqs (tid_key tid));
        }

    module _ (friendid : List ℕ) (name bundle : Option (List ℕ)) (tid friend_number : ℕ)
        (known : (w : World) → friends_get friend_number w ≡ some friendid) where
      -- A fragment for an assembly that stands in the table.
      handle-assemble :
          (c : ElaCarrier env) (f : Fragment) (a : TransactedAssembly)
          → f.tid ≡ tid
          → table_get c.tassembly_ireqs (tid_key tid) ≡ some a
          → handle_invite_request c friend_number f ≡ assemble_request c friendid f a false
      unfolding handle_invite_request request_assembly
      handle-assemble c f a t e =
          ground (arith, known c.world, ap (λ k. table_get c.tassembly_ireqs (tid_key k)) t ∙ e)

      whole :
          (a : TransactedAssembly) (p : List ℕ) (n : ℕ)
          → IsPartial a p n
          → length p ≡ n
          → a.data_ ≡ p
      whole a p n v h =
          sym (take_all a.data_off a.data_ (omega (arith, v.offset, v.block))) ∙ v.received

      rest-IsCompleted :
          (fs : List Fragment) (f : Fragment) (c : ElaCarrier env) (a : TransactedAssembly)
          (p : List ℕ) (n : ℕ)
          → IsFor a friendid name bundle
          → IsPartial a p n
          → AllPieces tid name (f ∷ fs)
          → length p + length (all_data (f ∷ fs)) ≡ n
          → table_get c.tassembly_ireqs (tid_key tid) ≡ some a
          → IsCompleted c
              (receive_all c friend_number (f ∷ fs))
              friendid
              name
              bundle
              (p ++ all_data (f ∷ fs))
              tid
      unfolding receive_all
      rest-IsCompleted [] f c a p n o v q h e =
          let short = append-nil f.raw_data in
          let q' = add_data-IsPartial a p f.raw_data n v (omega (arith, ap length short)) in
          subst (λ x. IsCompleted c x friendid name bundle (p ++ (f.raw_data ++ [])) tid)
            (sym (
              handle-assemble c f a q.0.transaction e
              ∙ assemble_last c friendid p f name bundle a tid n o v q.0 false
                  (omega (arith, ap length short))))
            (complete_request-IsCompleted c friendid f name bundle (add_data a f.raw_data) tid
              (p ++ (f.raw_data ++ [])) false q.0.transaction q.0.extension
              (add_data-IsFor a friendid f.raw_data name bundle o).same_bundle
              (whole (add_data a f.raw_data) (p ++ f.raw_data) n q'
                  (omega (arith, ap length short, length-append p f.raw_data))
                ∙ ap (λ xs. p ++ xs) (sym short))
              (λ x. ground arith))
      rest-IsCompleted (g ∷ gs) f c a p n o v q h e =
          let cut = length-append f.raw_data (all_data (g ∷ gs)) in
          let later = length-append g.raw_data (all_data gs) in
          let q' = add_data-IsPartial a p f.raw_data n v (omega (arith, cut)) in
          let c1 : ElaCarrier env = record c {
            tassembly_ireqs = table_put c.tassembly_ireqs (tid_key tid) (add_data a f.raw_data);
          } in
          let step =
            handle-assemble c f a q.0.transaction e
            ∙ assemble_more c friendid p f name bundle a tid n o v q.0 false
                (omega (arith, cut, later, q.1.0.positive)) in
          let ih =
            rest-IsCompleted gs g c1 (add_data a f.raw_data) (p ++ f.raw_data) n
              (add_data-IsFor a friendid f.raw_data name bundle o) q' q.1
              (omega (arith, cut, length-append p f.raw_data))
              (law.get-put c.tassembly_ireqs (tid_key tid) (add_data a f.raw_data)) in
          subst
            (λ x.
              IsCompleted c (receive_all x friend_number (g ∷ gs)) friendid name bundle
                (p ++ all_data (f ∷ g ∷ gs)) tid)
            (sym step)
            (subst
              (λ bs.
                IsCompleted c (receive_all c1 friend_number (g ∷ gs)) friendid name bundle bs tid)
              (append_assoc p f.raw_data (all_data (g ∷ gs)))
              (record { called = ih.called; remembered = ih.remembered; removed = ih.removed }))

      handle-first :
          (c : ElaCarrier env) (f : Fragment)
          → f.tid ≡ tid
          → table_get c.tassembly_ireqs (tid_key tid) ≡ none
          → (alloc c.world).0 ≡ true
          → 0 < f.totalsz
          → f.totalsz ≤ ela_max_invite_data_len
          → handle_invite_request c friend_number f
            ≡ assemble_request
                (begun c)
                friendid
                f
                (new_assembly friendid f none (gettimeofday (alloc c.world).1).0)
                true
      unfolding handle_invite_request request_assembly allocate
      handle-first c f t e g p q =
          ground (arith, known c.world, ap (λ k. table_get c.tassembly_ireqs (tid_key k)) t ∙ e, g)

      -- The fragments of an invitation from a friend, of which the first has the total size and the
      -- bundle, come in one after the other while nothing of the transaction is in the table and there
      -- is memory for it: then the callback is called exactly once, on the bundle and on the data of
      -- all fragments joined, the sender is noted in the history, and the table is left without it.
      pub receive_all-IsCompleted :
          (c : ElaCarrier env) (f : Fragment) (fs : List Fragment)
          → AllPieces tid name (f ∷ fs)
          → f.bundle ≡ bundle
          → f.totalsz ≡ length (all_data (f ∷ fs))
          → f.totalsz ≤ ela_max_invite_data_len
          → table_get c.tassembly_ireqs (tid_key tid) ≡ none
          → (alloc c.world).0 ≡ true
          → IsCompleted
              (begun c)
              (receive_all c friend_number (f ∷ fs))
              friendid
              name
              bundle
              (all_data (f ∷ fs))
              tid
      unfolding receive_all
      receive_all-IsCompleted c f fs q b z s e g = go fs q z
        where
          a : TransactedAssembly
          a = new_assembly friendid f none (gettimeofday (alloc c.world).1).0

          go :
              (fs : List Fragment)
              → AllPieces tid name (f ∷ fs)
              → f.totalsz ≡ length (all_data (f ∷ fs))
              → IsCompleted
                  (begun c)
                  (receive_all c friend_number (f ∷ fs))
                  friendid
                  name
                  bundle
                  (all_data (f ∷ fs))
                  tid
          go [] q z =
              let short = append-nil f.raw_data in
              let v =
                new_assembly-IsPartial friendid f (gettimeofday (alloc c.world).1).0 f.totalsz refl
                  s in
              let o =
                new_assembly-IsFor friendid f (gettimeofday (alloc c.world).1).0 name bundle
                  q.0.extension b in
              let q' =
                add_data-IsPartial a [] f.raw_data f.totalsz v
                  (omega (arith, z, ap length short)) in
              subst (λ x. IsCompleted (begun c) x friendid name bundle (f.raw_data ++ []) tid)
                (sym (
                  handle-first c f q.0.transaction e g
                    (omega (arith, z, q.0.positive, ap length short)) s
                  ∙ assemble_last (begun c) friendid [] f name bundle a tid f.totalsz o v q.0 true
                      (omega (arith, z, ap length short))))
                (complete_request-IsCompleted (begun c) friendid f name bundle
                  (add_data a f.raw_data) tid (f.raw_data ++ []) true q.0.transaction q.0.extension
                  (add_data-IsFor a friendid f.raw_data name bundle o).same_bundle
                  (whole (add_data a f.raw_data) f.raw_data f.totalsz q'
                      (omega (arith, z, ap length short))
                    ∙ sym short)
                  (λ x. e))
          go (h ∷ hs) q z =
              let cut = length-append f.raw_data (all_data (h ∷ hs)) in
              let later = length-append h.raw_data (all_data hs) in
              let v =
                new_assembly-IsPartial friendid f (gettimeofday (alloc c.world).1).0 f.totalsz refl
                  s in
              let o =
                new_assembly-IsFor friendid f (gettimeofday (alloc c.world).1).0 name bundle
                  q.0.extension b in
              let q' = add_data-IsPartial a [] f.raw_data f.totalsz v (omega (arith, z, cut)) in
              let c1 : ElaCarrier env = record (begun c) {
                tassembly_ireqs = table_put c.tassembly_ireqs (tid_key tid) (add_data a f.raw_data);
              } in
              let step =
                handle-first c f q.0.transaction e g (omega (arith, z, cut, q.0.positive)) s
                ∙ assemble_more (begun c) friendid [] f name bundle a tid f.totalsz o v q.0 true
                    (omega (arith, z, cut, later, q.1.0.positive)) in
              let ih =
                rest-IsCompleted hs h c1 (add_data a f.raw_data) f.raw_data f.totalsz
                  (add_data-IsFor a friendid f.raw_data name bundle o) q' q.1
                  (omega (arith, cut, z))
                  (law.get-put c.tassembly_ireqs (tid_key tid) (add_data a f.raw_data)) in
              subst
                (λ x.
                  IsCompleted (begun c) (receive_all x friend_number (h ∷ hs)) friendid name bundle
                    (all_data (f ∷ h ∷ hs)) tid)
                (sym step)
                (record { called = ih.called; remembered = ih.remembered; removed = ih.removed })
