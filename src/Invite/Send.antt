-- ===== src/Invite/Send.antt =====
-- `ela_invite_friend` and `ela_reply_friend_invite` of src/carrier/ela_carrier.c: the checks of the
-- arguments, and the loop that sends the data in fragments.
use elastos_net_carrier_nati.Base.{
  ℕ, zero, suc, ◌+◌, ◌-◌, List, [], ◌∷◌, Bool, true, false, not, ◌&&◌, ◌||◌, Option, none, some,
  length, take, drop, ◌==◌, ltb, leb, if◌then◌else◌,
}
use elastos_net_carrier_nati.Elaerr
use elastos_net_carrier_nati.Mux.Channel.{Rc, ok, err}
use elastos_net_carrier_nati.Invite.Data.{
  Fragment, Message, invite_request, invite_response, Env, ElaCarrier, TransactedCallback,
  ResponseCallback, tid_key, history_key, invite_data_unit, ela_max_invite_data_len,
  ela_max_bundle_len, ela_max_invite_reply_reason_len, ela_max_id_len, ela_max_extension_name_len,
}

abbrev pub bytes_of : Option (List ℕ) → List ℕ
bytes_of none = []
bytes_of (some bs) = bs

-- `send_len` of a request, where `bundle_len` is 0 after the first fragment.
unfoldable pub request_send_len : Option (List ℕ) → ℕ → ℕ → ℕ
request_send_len none bundle_len len = if ltb invite_data_unit len then invite_data_unit else len
request_send_len (some bundle) bundle_len len =
    if leb (len + bundle_len) invite_data_unit then len else invite_data_unit - bundle_len

-- `send_len` and the new `bundle_len` of a response.
unfoldable pub reply_send_len : ℕ → ℕ → ℕ × ℕ
reply_send_len bundle_len len =
    if leb (bundle_len + len) invite_data_unit
    then (len, bundle_len)
    else if ltb 0 bundle_len
    then (invite_data_unit - bundle_len, 0)
    else (invite_data_unit, bundle_len)

-- A fragment of a request with the next bytes of the data, and what is left.
unfoldable pub request_fragment :
    Option (List ℕ) → ℕ → Option (List ℕ) → Bool → ℕ → List ℕ → Fragment × List ℕ
unfolding request_send_len
request_fragment ext tid bundle first bundle_len data_ =
    let n = request_send_len bundle bundle_len (length data_) in
    (
      record {
        extension = ext;
        tid = tid;
        bundle = if first then bundle else none;
        totalsz = if first then length data_ else 0;
        status = 0;
        reason = none;
        raw_data = take n data_;
      },
      drop n data_,
    )

-- A fragment of a response. A refusal has no data.
unfoldable pub reply_fragment :
    Option (List ℕ)
    → ℕ
    → Option (List ℕ)
    → ℕ
    → Option (List ℕ)
    → Bool
    → ℕ
    → List ℕ
    → Fragment × List ℕ
unfolding reply_send_len
reply_fragment ext tid bundle status reason first bundle_len data_ =
    let n = (reply_send_len bundle_len (length data_)).0 in
    let carries = status == 0 && not (length data_ == 0) in
    (
      record {
        extension = ext;
        tid = tid;
        bundle = if first then bundle else none;
        totalsz = if carries then (if first then length data_ else 0) else 0;
        status = status;
        reason = if first && not (status == 0) then reason else none;
        raw_data = if carries then take n data_ else [];
      },
      if carries then drop n data_ else data_,
    )

-- `parse_address`: the user id, and the extension behind the first colon.
unfoldable pub parse_address : List ℕ → List ℕ × Option (List ℕ)
parse_address [] = ([], none)
parse_address (c ∷ cs) =
    let (userid, ext) = parse_address cs in if c == 58 then ([], some cs) else (c ∷ userid, ext)

-- A bundle or extension that is there must not be empty or too long.
abbrev pub is_bad_string : Option (List ℕ) → ℕ → Bool
is_bad_string none limit = false
is_bad_string (some s) limit = length s == 0 || ltb limit (length s)

-- The bundle counts in the size of the first fragment.
abbrev pub later_bundle_len : Option (List ℕ) → ℕ → ℕ
later_bundle_len none bundle_len = bundle_len
later_bundle_len (some bundle) bundle_len = 0

-- Whether `to` cannot be an address: `sizeof(':')` is the size of an `int`, 4.
abbrev pub is_bad_address : List ℕ → Bool
is_bad_address to =
    length to == 0 || ltb (ela_max_id_len + 4 + ela_max_extension_name_len) (length to)

module _ {env : Env} where
  open env use {
    World, alloc, dht_friend_message, table_put, table_remove, table_get, is_valid_key,
    get_friend_number, friends_get, generate_tid,
  }

  -- One message over the network.
  unfoldable pub send_message : ElaCarrier env → ℕ → Message → Rc × ElaCarrier env
  send_message c friend_number m =
      let (rc, w) = dht_friend_message friend_number m c.world in (rc, record c { world = w })

  unfoldable pub allocate : ElaCarrier env → Bool × ElaCarrier env
  allocate c = let (got, w) = alloc c.world in (got, record c { world = w })

  -- The last fragment of a request: the callback stands in the table before it is sent, and is taken
  -- out again if it cannot be.
  unfoldable pub send_last :
      ElaCarrier env → ℕ → Message → TransactedCallback env → Rc × ElaCarrier env
  unfolding allocate send_message
  send_last c friend_number m tcb =
      let (got, c1) = allocate c in
      let c2 = record c1 { tcallbacks = table_put c1.tcallbacks (tid_key tcb.tid) tcb } in
      let (rc, c3) = send_message c2 friend_number m in
      if not got then (err Elaerr.out_of_memory, c1) else elim rc [
        | err e ↦ (err e, record c3 { tcallbacks = table_remove c3.tcallbacks (tid_key tcb.tid) })
        | ok n ↦ (ok 0, c3)
      ]

  -- The loop of `ela_invite_friend`, which is entered with data left to send, with fuel; `none` means
  -- that the fuel ran out.
  unfoldable pub invite_loop :
      ℕ
      → ElaCarrier env
      → ℕ
      → Option (List ℕ)
      → TransactedCallback env
      → Bool
      → ℕ
      → List ℕ
      → Option (Rc × ElaCarrier env)
  unfolding request_fragment allocate send_message send_last
  invite_loop zero c friend_number ext tcb first bundle_len data_ = none
  invite_loop (suc fuel) c friend_number ext tcb first bundle_len data_ =
      let (created, c1) = allocate c in
      let (fragment, rest) = request_fragment ext tcb.tid tcb.bundle first bundle_len data_ in
      let (encoded, c2) = allocate c1 in
      let (rc, c3) = send_message c2 friend_number (invite_request fragment) in
      let again =
        invite_loop fuel c3 friend_number ext tcb false (later_bundle_len tcb.bundle bundle_len)
          rest in
      if not created
      then some (err Elaerr.out_of_memory, c1)
      else if not encoded
      then some (err Elaerr.out_of_memory, c2)
      else if length rest == 0
      then some (send_last c2 friend_number (invite_request fragment) tcb)
      else elim rc [ err e ↦ some (err e, c3) | ok n ↦ again ]

  -- Go on with the friend of an address, if it is valid and belongs to a friend.
  unfoldable pub find_friend :
      ElaCarrier env
      → List ℕ
      → Option (List ℕ)
      → (ℕ → Option (Rc × ElaCarrier env))
      → Option (Rc × ElaCarrier env)
  find_friend c userid ext go =
      if not (is_valid_key userid)
      then some (err Elaerr.invalid_args, c)
      else if is_bad_string ext ela_max_extension_name_len
      then some (err Elaerr.invalid_args, c)
      else if not c.is_ready
      then some (err Elaerr.not_ready, c)
      else elim (get_friend_number userid c.world) [
        | none ↦ some (err Elaerr.not_exist, c)
        | some n ↦ elim (friends_get n c.world) [
          | none ↦ some (err Elaerr.not_exist, c)
          | some id ↦ go n
        ]
      ]

  -- `ela_invite_friend`, with a carrier and a callback that are not null; null data are empty here.
  unfoldable pub ela_invite_friend :
      ElaCarrier env
      → List ℕ
      → Option (List ℕ)
      → List ℕ
      → ResponseCallback env
      → Option (Rc × ElaCarrier env)
  unfolding parse_address find_friend invite_loop
  ela_invite_friend c to bundle data_ callback =
      let (userid, ext) = parse_address to in
      let (tid, w) = generate_tid c.world in
      let tcb : TransactedCallback env = record {
        tid = tid;
        callback_func = callback;
        bundle = bundle;
      } in
      if is_bad_string bundle ela_max_bundle_len
        || (length data_ == 0 || ltb ela_max_invite_data_len (length data_))
      then some (err Elaerr.invalid_args, c)
      else if is_bad_address to
      then some (err Elaerr.invalid_args, c)
      else find_friend c userid ext (λ n.
        invite_loop (length data_) (record c { world = w }) n ext tcb true
          (length (bytes_of bundle)) data_)

  -- The loop of `ela_reply_friend_invite`, with fuel; `none` means that the fuel ran out.
  unfoldable pub reply_loop :
      ℕ
      → ElaCarrier env
      → ℕ
      → Option (List ℕ)
      → ℕ
      → Option (List ℕ)
      → ℕ
      → Option (List ℕ)
      → Bool
      → ℕ
      → List ℕ
      → Option (Rc × ElaCarrier env)
  unfolding reply_fragment reply_send_len allocate send_message
  reply_loop zero c friend_number ext tid bundle status reason first bundle_len data_ = none
  reply_loop (suc fuel) c friend_number ext tid bundle status reason first bundle_len data_ =
      let (created, c1) = allocate c in
      let (fragment, rest) = reply_fragment ext tid bundle status reason first bundle_len data_ in
      let (encoded, c2) = allocate c1 in
      let (rc, c3) = send_message c2 friend_number (invite_response fragment) in
      let left = (reply_send_len bundle_len (length data_)).1 in
      let again = reply_loop fuel c3 friend_number ext tid bundle status reason false left rest in
      if not created
      then some (err Elaerr.out_of_memory, c1)
      else if not encoded
      then some (err Elaerr.out_of_memory, c2)
      else elim rc [
        | err e ↦ some (err e, c3)
        | ok n ↦ if length rest == 0 then some (ok 0, c3) else again
      ]

  -- The history forgets the invitation that has been answered.
  unfoldable pub forget_invite :
      List ℕ → Option (Rc × ElaCarrier env) → Option (Rc × ElaCarrier env)
  forget_invite to none = none
  forget_invite to (some (err e, c)) = some (err e, c)
  forget_invite to (some (ok n, c)) =
      some (ok n, record c { thistory = table_remove c.thistory (history_key to) })

  -- `ela_reply_friend_invite`, with a carrier that is not null; null data are empty here. Its loop
  -- takes one round at least.
  unfoldable pub ela_reply_friend_invite :
      ElaCarrier env
      → List ℕ
      → Option (List ℕ)
      → ℕ
      → Option (List ℕ)
      → List ℕ
      → Option (Rc × ElaCarrier env)
  unfolding parse_address find_friend reply_loop forget_invite
  ela_reply_friend_invite c to bundle status reason data_ =
      let (userid, ext) = parse_address to in
      let missing : Bool = elim reason [ none ↦ true | some r ↦ false ] in
      let refuses = not (status == 0) in
      if is_bad_string bundle ela_max_bundle_len
      then some (err Elaerr.invalid_args, c)
      else if refuses
          && (missing
              || (ltb ela_max_invite_reply_reason_len (length (bytes_of reason))
                  || not (length data_ == 0)))
      then some (err Elaerr.invalid_args, c)
      else if not refuses
          && (not missing || (length data_ == 0 || ltb ela_max_invite_data_len (length data_)))
      then some (err Elaerr.invalid_args, c)
      else if is_bad_address to
      then some (err Elaerr.invalid_args, c)
      else find_friend c userid ext (λ n. elim (table_get c.thistory (history_key to)) [
        | none ↦ some (err Elaerr.no_matched_request, c)
        | some tid ↦
            if tid == 0
            then some (err Elaerr.no_matched_request, c)
            else forget_invite to (
                reply_loop (suc (length data_)) c n ext tid bundle status reason true
                  (length (bytes_of bundle)) data_)
      ])
