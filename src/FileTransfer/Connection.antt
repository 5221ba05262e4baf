-- ===== src/FileTransfer/Connection.antt =====
-- The connection of a transfer: `notify_state_changed`, `remove_stream_secure`, the completion of the
-- session request, the stream's state changes, and `ela_filetransfer_connect`,
-- `ela_filetransfer_accept_connect` and `ela_filetransfer_close` of src/filetransfer/filetransfer.c.
use elastos_net_carrier_nati.Base.{
  ℕ, List, [], ◌∷◌, Bool, true, false, not, ◌&&◌, Option, some, ◌==◌, if◌then◌else◌, eq_bytes,
}
use elastos_net_carrier_nati.Elaerr
use elastos_net_carrier_nati.Mux.Channel.{Rc, ok, err}
use elastos_net_carrier_nati.FileTransfer.Data.{
  FileState, FileTransferItem, ElaFileTransfer, Env, Connection, StreamState, unset, sender,
  receiver, is_sender, is_standby, connection_number, is_over, zero_item, put_file, tell,
}
use elastos_net_carrier_nati.FileTransfer.Cookie.{
  bundle_prefix, file_cookie, reply_bundle, has_blank, has_prefix, parse_reply,
}

-- The first slot, which is there: a transfer has five.
abbrev pub first_file : List FileTransferItem → FileTransferItem
first_file [] = zero_item
first_file (x ∷ xs) = x

-- A name that `%s` prints.
abbrev pub or_empty : Option (List ℕ) → List ℕ
or_empty Option.none = []
or_empty (some name) = name

-- The bundle of a connection request.
abbrev pub request_bundle : FileTransferItem → List ℕ
unfolding file_cookie
request_bundle x =
    if is_standby x then file_cookie (or_empty x.filename) x.fileid x.filesz else bundle_prefix

module _ {env : Env} where
  open env use {
    World, ela_session_request, ela_session_reply_request, ela_session_start,
    ela_session_add_stream, ela_session_remove_stream, ela_session_close, ela_stream_open_channel,
    filereqs_remove, alloc,
  }

  -- `notify_state_changed`
  unfoldable pub notify_state_changed : ElaFileTransfer env → Connection → ElaFileTransfer env
  unfolding tell
  notify_state_changed ft state =
      if connection_number ft.state == connection_number state
      then ft
      else tell (record ft { state = state }) ft.callbacks.state_changed (λ f. f state)

  -- `remove_stream_secure`, for a stream that is there.
  unfoldable pub remove_stream_secure : ElaFileTransfer env → ℕ → ElaFileTransfer env
  remove_stream_secure ft error = elim ft.stream [
    | err e ↦ ft
    | ok stream ↦ record ft {
      stream = err 1;
      error = error;
      world = ela_session_remove_stream stream ft.world;
    }
  ]

  -- The reply names the file of the request.
  abbrev pub names_first : ElaFileTransfer env → Option (List ℕ) → Bool
  names_first ft Option.none = false
  names_first ft (some fileid) = eq_bytes fileid (first_file ft.files).fileid

  -- Whether the reply of the peer is for the file of the request.
  unfoldable pub reply_matches : ElaFileTransfer env → List ℕ → Bool
  unfolding has_blank parse_reply
  reply_matches ft bundle = if has_blank bundle then names_first ft (parse_reply bundle) else true

  -- The peer has accepted, and the transport is started.
  unfoldable pub start_request : ElaFileTransfer env → Rc × World → ElaFileTransfer env
  unfolding remove_stream_secure
  start_request ft (err e, w) = remove_stream_secure (record ft { world = w }) 1
  start_request ft (ok n, w) = record ft { world = w }

  abbrev pub is_failed : ElaFileTransfer env → Bool
  is_failed ft = connection_number ft.state == connection_number Connection.failed

  -- `sessionreq_complete_callback` after its waiting loop.
  unfoldable pub complete_request :
      ElaFileTransfer env → List ℕ → Bool → List ℕ → ElaFileTransfer env
  unfolding remove_stream_secure reply_matches start_request
  complete_request ft bundle accepted sdp =
      if is_failed ft
      then ft
      else if not accepted
      then remove_stream_secure ft 0
      else if not (reply_matches ft bundle)
      then remove_stream_secure ft 1
      else start_request ft (ela_session_start sdp ft.world)

  -- `sessionreq_complete_callback`: `none` while it waits for the transport to be ready or failed.
  unfoldable pub sessionreq_complete_callback :
      ElaFileTransfer env → List ℕ → Bool → List ℕ → Option (ElaFileTransfer env)
  unfolding complete_request has_prefix
  sessionreq_complete_callback ft bundle accepted sdp =
      if not (is_sender ft)
      then some ft
      else if not (has_prefix bundle_prefix bundle)
      then some ft
      else if not ft.ready_to_connect && not (is_failed ft)
      then Option.none
      else some (complete_request ft bundle accepted sdp)

  -- The sender's channel for the file of its first slot.
  unfoldable pub open_first_channel : ElaFileTransfer env → FileTransferItem → ElaFileTransfer env
  unfolding file_cookie put_file
  open_first_channel ft x =
      let (rc, w) =
        ela_stream_open_channel (file_cookie (or_empty x.filename) x.fileid x.filesz) ft.world in
      let item : FileTransferItem = elim rc [
        | err e ↦ record x { channel = err e; filename = Option.none; state = FileState.none }
        | ok n ↦ record x { channel = ok n }
      ] in
      put_file (record ft { world = w }) 0 item

  -- What follows `notify_state_changed` of a request or a reply that the session took or refused.
  unfoldable pub fail_on_error : ElaFileTransfer env → Rc × World → ElaFileTransfer env
  unfolding notify_state_changed
  fail_on_error ft (err e, w) = notify_state_changed (record ft { world = w }) Connection.failed
  fail_on_error ft (ok n, w) = record ft { world = w }

  -- The request of a sender whose application has not closed the transfer meanwhile.
  unfoldable pub request_session : ElaFileTransfer env → ElaFileTransfer env
  unfolding fail_on_error
  request_session ft =
      if is_over ft.state
      then ft
      else fail_on_error ft (ela_session_request (request_bundle (first_file ft.files)) ft.world)

  -- The file of the first slot, if it waits.
  unfoldable pub offer_first : ElaFileTransfer env → ElaFileTransfer env
  unfolding open_first_channel
  offer_first ft =
      if is_over ft.state
      then ft
      else if not (is_standby (first_file ft.files))
      then ft
      else open_first_channel ft (first_file ft.files)

  -- `sender_state_changed`
  unfoldable pub sender_state_changed : ElaFileTransfer env → StreamState → ElaFileTransfer env
  unfolding notify_state_changed request_session offer_first
  sender_state_changed ft StreamState.initialized =
      request_session (notify_state_changed ft Connection.connecting)
  sender_state_changed ft StreamState.transport_ready = record ft { ready_to_connect = true }
  sender_state_changed ft StreamState.connecting = ft
  sender_state_changed ft StreamState.connected =
      offer_first (notify_state_changed ft Connection.connected)
  sender_state_changed ft StreamState.deactivated = ft
  sender_state_changed ft StreamState.closed =
      notify_state_changed ft (if ft.error == 0 then Connection.closed else Connection.failed)
  sender_state_changed ft StreamState.failed = notify_state_changed ft Connection.failed

  -- The reply of a receiver, likewise.
  unfoldable pub reply_session : ElaFileTransfer env → ElaFileTransfer env
  unfolding fail_on_error reply_bundle
  reply_session ft =
      let x = first_file ft.files in
      let bundle : List ℕ = if is_standby x then reply_bundle x.fileid else bundle_prefix in
      if is_over ft.state
      then ft
      else fail_on_error ft (ela_session_reply_request bundle true ft.world)

  -- `receiver_state_changed`
  unfoldable pub receiver_state_changed : ElaFileTransfer env → StreamState → ElaFileTransfer env
  unfolding notify_state_changed fail_on_error reply_session
  receiver_state_changed ft StreamState.initialized =
      reply_session (notify_state_changed ft Connection.connecting)
  receiver_state_changed ft StreamState.transport_ready =
      fail_on_error ft (ela_session_start ft.sdp ft.world)
  receiver_state_changed ft StreamState.connecting = ft
  receiver_state_changed ft StreamState.connected = notify_state_changed ft Connection.connected
  receiver_state_changed ft StreamState.deactivated = ft
  receiver_state_changed ft StreamState.closed = notify_state_changed ft Connection.closed
  receiver_state_changed ft StreamState.failed = notify_state_changed ft Connection.failed

  -- `stream_state_changed`
  unfoldable pub stream_state_changed : ElaFileTransfer env → StreamState → ElaFileTransfer env
  unfolding sender_state_changed receiver_state_changed
  stream_state_changed ft state = elim ft.sender_receiver [
    | sender ↦ sender_state_changed ft state
    | receiver ↦ receiver_state_changed ft state
    | unset ↦ ft
  ]

  -- The end of `ela_filetransfer_connect` and `ela_filetransfer_accept_connect`.
  unfoldable pub add_stream : ElaFileTransfer env → Rc × ElaFileTransfer env
  add_stream ft =
      let (rc, w) = ela_session_add_stream ft.world in
      (elim rc [ err e ↦ err e | ok n ↦ ok 0 ], record ft { stream = rc; world = w })

  abbrev pub is_initialized : ElaFileTransfer env → Bool
  is_initialized ft = connection_number ft.state == connection_number Connection.initialized

  -- `ela_filetransfer_connect`
  unfoldable pub ela_filetransfer_connect : ElaFileTransfer env → Rc × ElaFileTransfer env
  unfolding add_stream
  ela_filetransfer_connect ft =
      if not (is_initialized ft)
      then (err Elaerr.wrong_state, ft)
      else add_stream (record ft { sender_receiver = sender })

  -- A request that was there; it is lost when there is no memory for its description.
  unfoldable pub accept_request :
      ElaFileTransfer env → Option (List ℕ) × World → Rc × ElaFileTransfer env
  unfolding add_stream
  accept_request ft (Option.none, w) = (err Elaerr.not_exist, record ft { world = w })
  accept_request ft (some sdp, w) =
      let (allocated, w1) = alloc w in
      if not allocated
      then (err Elaerr.out_of_memory, record ft { world = w1 })
      else add_stream (record ft { world = w1; sdp = sdp; sender_receiver = receiver })

  -- `ela_filetransfer_accept_connect`
  unfoldable pub ela_filetransfer_accept_connect : ElaFileTransfer env → Rc × ElaFileTransfer env
  unfolding accept_request
  ela_filetransfer_accept_connect ft =
      if not (is_initialized ft)
      then (err Elaerr.wrong_state, ft)
      else accept_request ft (filereqs_remove ft.address ft.world)

  -- A request that has not been accepted is refused, whatever the session answers.
  unfoldable pub refuse_request :
      ElaFileTransfer env → Option (List ℕ) × World → ElaFileTransfer env
  refuse_request ft (Option.none, w) = record ft { world = w }
  refuse_request ft (some sdp, w) = record ft {
    world = (ela_session_reply_request bundle_prefix false w).1;
  }

  unfoldable pub drop_stream : ElaFileTransfer env → Rc → ElaFileTransfer env
  drop_stream ft (err e) = ft
  drop_stream ft (ok n) =
      if n == 0
      then ft
      else record ft { stream = err 1; world = ela_session_remove_stream n ft.world }

  -- `ela_filetransfer_close`, before the memory is given back.
  unfoldable pub ela_filetransfer_close : ElaFileTransfer env → ElaFileTransfer env
  unfolding refuse_request drop_stream
  ela_filetransfer_close ft =
      let ft1 = refuse_request ft (filereqs_remove ft.address ft.world) in
      let ft2 = drop_stream ft1 ft1.stream in
      record ft2 { state = Connection.closed; world = ela_session_close ft2.world }
