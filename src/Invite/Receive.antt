-- ===== src/Invite/Receive.antt =====
-- `handle_invite_request` and `handle_invite_response` of src/carrier/ela_carrier.c: the fragments of
-- an invitation are put together in a `TransactedAssembly`, one for each transaction.
use elastos_net_carrier_nati.Base.{
  ℕ, ◌+◌, List, [], ◌∷◌, ◌++◌, Bool, true, false, not, ◌||◌, Option, none, some, length, replicate,
  overwrite, eq_bytes, ◌==◌, ltb, if◌then◌else◌,
}
use elastos_net_carrier_nati.Base.Words.{add_size}
use elastos_net_carrier_nati.Mux.Channel.{Timeval}
use elastos_net_carrier_nati.Invite.Data.{
  Fragment, TransactedAssembly, Env, ElaCarrier, TransactedCallback, tid_key, history_key,
  invite_data_unit, ela_max_invite_data_len, tassembly_timeout, InviteCallback,
}
use elastos_net_carrier_nati.Invite.Send.{allocate, bytes_of}

-- "session", the only extension that takes invitations.
abbrev pub session_name : List ℕ
session_name = 115 ∷ 101 ∷ 115 ∷ 115 ∷ 105 ∷ 111 ∷ 110 ∷ []

-- An assembly as it is made from the first fragment.
unfoldable pub new_assembly : List ℕ → Fragment → Option (List ℕ) → Timeval → TransactedAssembly
new_assembly friendid f reason now = record {
  ext = bytes_of f.extension;
  friendid = friendid;
  tid = f.tid;
  bundle = f.bundle;
  reason = reason;
  data_ = replicate f.totalsz 0;
  data_len = f.totalsz;
  data_off = 0;
  expire_time = record { sec = now.sec + tassembly_timeout; usec = now.usec };
}

-- The test for a fragment that belongs elsewhere or does not fit; `size_t` sums wrap around.
unfoldable pub is_invalid_fragment : TransactedAssembly → List ℕ → Option (List ℕ) → ℕ → Bool
is_invalid_fragment a friendid name len =
    elim name [ none ↦ false | some n ↦ not (eq_bytes a.ext n) ]
    || (not (eq_bytes a.friendid friendid)
        || (ltb invite_data_unit len
            || (ltb (add_size a.data_off len) len || ltb a.data_len (add_size a.data_off len))))

-- `memcpy` to the end of what has arrived.
unfoldable pub add_data : TransactedAssembly → List ℕ → TransactedAssembly
add_data a bs = record a {
  data_ = overwrite a.data_off bs a.data_;
  data_off = add_size a.data_off (length bs);
}

-- The sender's name in the history: the friend, and the extension behind a colon.
abbrev pub sender : List ℕ → Option (List ℕ) → List ℕ
sender friendid none = friendid
sender friendid (some name) = friendid ++ 58 ∷ name

module _ {env : Env} where
  open env use {World, table_get, table_put, table_remove, friends_get, gettimeofday}

  -- The callback that an invitation is for.
  abbrev pub invite_callback : ElaCarrier env → Option (List ℕ) → Option (InviteCallback env)
  invite_callback c none = c.friend_invite
  invite_callback c (some name) = if eq_bytes name session_name then c.session_invite else none

  unfoldable pub notify_invite :
      ElaCarrier env → List ℕ → Option (List ℕ) → TransactedAssembly → ElaCarrier env
  notify_invite c friendid name a = elim (invite_callback c name) [
    | none ↦ c
    | some f ↦ record c { world = f friendid a.bundle a.data_ c.world }
  ]

  -- A request all of whose data have arrived.
  unfoldable pub complete_request :
      ElaCarrier env → List ℕ → Fragment → TransactedAssembly → Bool → ElaCarrier env
  unfolding notify_invite
  complete_request c friendid f a need_add =
      let c1 = record c {
        thistory = table_put c.thistory (history_key (sender friendid f.extension)) f.tid;
      } in
      let c2 = notify_invite c1 friendid f.extension a in
      if need_add
      then c2
      else record c2 { tassembly_ireqs = table_remove c2.tassembly_ireqs (tid_key f.tid) }

  -- A fragment for its assembly, which is new (`need_add`) or stands in the table, where the change
  -- of the shared object is written back.
  unfoldable pub assemble_request :
      ElaCarrier env → List ℕ → Fragment → TransactedAssembly → Bool → ElaCarrier env
  unfolding is_invalid_fragment add_data complete_request
  assemble_request c friendid f ireq need_add =
      let a = add_data ireq f.raw_data in
      if length f.raw_data == 0 || is_invalid_fragment ireq friendid f.extension (length f.raw_data)
      then c
      else if a.data_off == a.data_len
      then complete_request c friendid f a need_add
      else record c { tassembly_ireqs = table_put c.tassembly_ireqs (tid_key f.tid) a }

  -- The assembly of a fragment's transaction, or a new one.
  unfoldable pub request_assembly :
      ElaCarrier env → List ℕ → Fragment → Option TransactedAssembly → ElaCarrier env
  unfolding assemble_request allocate new_assembly
  request_assembly c friendid f (some ireq) = assemble_request c friendid f ireq false
  request_assembly c friendid f none =
      let (got, c1) = allocate c in
      let (now, w) = gettimeofday c1.world in
      if f.totalsz == 0 || ltb ela_max_invite_data_len f.totalsz
      then c
      else if not got
      then c1
      else assemble_request (record c1 { world = w }) friendid f (new_assembly friendid f none now)
          true

  -- `handle_invite_request`
  unfoldable pub handle_invite_request : ElaCarrier env → ℕ → Fragment → ElaCarrier env
  unfolding request_assembly
  handle_invite_request c friend_number f = elim (friends_get friend_number c.world) [
    | none ↦ c
    | some friendid ↦ request_assembly c friendid f (table_get c.tassembly_ireqs (tid_key f.tid))
  ]

  -- A response all of whose data have arrived. Its callback is called once, since it is taken out of
  -- the table; it is given the reason of the last fragment.
  unfoldable pub complete_response :
      ElaCarrier env
      → List ℕ
      → Fragment
      → TransactedCallback env
      → TransactedAssembly
      → Bool
      → ElaCarrier env
  complete_response c friendid f tcb a need_add =
      let reason = if f.status == 0 then none else f.reason in
      let c1 = record c {
        tcallbacks = table_remove c.tcallbacks (tid_key f.tid);
        world = tcb.callback_func friendid a.bundle f.status reason a.data_ c.world;
      } in
      if need_add
      then c1
      else record c1 { tassembly_irsps = table_remove c1.tassembly_irsps (tid_key f.tid) }

  -- The data of a response count only if it is not a refusal.
  unfoldable pub assemble_response :
      ElaCarrier env
      → List ℕ
      → Fragment
      → TransactedCallback env
      → TransactedAssembly
      → Bool
      → ElaCarrier env
  unfolding is_invalid_fragment add_data complete_response
  assemble_response c friendid f tcb irsp need_add =
      let bs = if f.status == 0 then f.raw_data else [] in
      let a = add_data irsp bs in
      if is_invalid_fragment irsp friendid f.extension (length bs)
      then c
      else if a.data_off == a.data_len
      then complete_response c friendid f tcb a need_add
      else record c { tassembly_irsps = table_put c.tassembly_irsps (tid_key f.tid) a }

  unfoldable pub response_assembly :
      ElaCarrier env
      → List ℕ
      → Fragment
      → TransactedCallback env
      → Option TransactedAssembly
      → ElaCarrier env
  unfolding assemble_response allocate new_assembly
  response_assembly c friendid f tcb (some irsp) = assemble_response c friendid f tcb irsp false
  response_assembly c friendid f tcb none =
      let reason = if f.status == 0 then none else f.reason in
      let (got, c1) = allocate c in
      let (now, w) = gettimeofday c1.world in
      if ltb ela_max_invite_data_len f.totalsz
      then c
      else if not got
      then c1
      else assemble_response (record c1 { world = w }) friendid f tcb
          (new_assembly friendid f reason now) true

  -- `handle_invite_response`. A refusal without a reason, on which the source's `strlen` fails, counts
  -- here as one with an empty reason.
  unfoldable pub handle_invite_response : ElaCarrier env → ℕ → Fragment → ElaCarrier env
  unfolding response_assembly
  handle_invite_response c friend_number f = elim (friends_get friend_number c.world) [
    | none ↦ c
    | some friendid ↦ elim (table_get c.tcallbacks (tid_key f.tid)) [
      | none ↦ c
      | some tcb ↦ response_assembly c friendid f tcb (table_get c.tassembly_irsps (tid_key f.tid))
    ]
  ]
