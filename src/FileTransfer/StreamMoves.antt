-- ===== src/FileTransfer/StreamMoves.antt =====
-- The whole transfer: its events and calls, each of which changes at most one slot, by a move of its
-- state machine.
use elastos_net_carrier_nati.Base.{
  ℕ, ◌≡◌, refl, ◌∙◌, subst, List, [], ◌∷◌, Bool, true, not, ◌&&◌, Option, some, ◌==◌, if◌then◌else◌,
  if_cases, if_both,
}
use elastos_net_carrier_nati.Mux.Channel.{Rc, ok, err}
use elastos_net_carrier_nati.FileTransfer.Data.{
  FileState, FileTransferItem, ElaFileTransfer, Env, Role, Connection, StreamState, unset, sender,
  receiver, is_sender, is_standby, is_over, connection_number, set_item, put_file,
}
use elastos_net_carrier_nati.FileTransfer.Slots.{
  carried, freed, Changes, nothing, here, standby_state,
}
use elastos_net_carrier_nati.FileTransfer.Cookie.{
  has_prefix, file_cookie, bundle_prefix, reply_bundle,
}
use elastos_net_carrier_nati.FileTransfer.Connection.{
  is_initialized, is_failed, start_request, first_file, request_bundle, or_empty,
  notify_state_changed, remove_stream_secure, reply_matches, complete_request,
  sessionreq_complete_callback, open_first_channel, fail_on_error, request_session, reply_session,
  offer_first, sender_state_changed, receiver_state_changed, stream_state_changed, add_stream,
  ela_filetransfer_connect, accept_request, ela_filetransfer_accept_connect,
}
use elastos_net_carrier_nati.FileTransfer.Moves.{not-false, same-Changes, tell-files}

module _ {env : Env} where
  pub notify-files :
      (ft : ElaFileTransfer env) (state : Connection)
      → (notify_state_changed ft state).files ≡ ft.files
  unfolding notify_state_changed
  notify-files ft state =
      if_both {A = ElaFileTransfer env} (λ r. r.files ≡ ft.files)
        (connection_number ft.state == connection_number state) refl
        (tell-files (record ft { state = state }) ft.callbacks.state_changed _)

  fail_on_error-files :
      (ft : ElaFileTransfer env) (r : Rc × env.World) → (fail_on_error ft r).files ≡ ft.files
  unfolding fail_on_error
  fail_on_error-files ft (err e, w) = notify-files (record ft { world = w }) Connection.failed
  fail_on_error-files ft (ok n, w) = refl

  remove_stream-files :
      (ft : ElaFileTransfer env) (e : ℕ) → (remove_stream_secure ft e).files ≡ ft.files
  unfolding remove_stream_secure
  remove_stream-files ft e = go ft.stream
    where
      go :
          (rc : Rc)
          → (elim rc as (λ _. ElaFileTransfer env) [
            | err n ↦ ft
            | ok n ↦ record ft {
              stream = err 1;
              error = e;
              world = env.ela_session_remove_stream n ft.world;
            }
          ]).files
            ≡ ft.files
      go (err n) = refl
      go (ok n) = refl

  -- The first slot is that of the file that the sender gave for the connection.
  open_first_channel-Changes :
      (ft : ElaFileTransfer env)
      → is_standby (first_file ft.files) ≡ true
      → Changes ft.files (open_first_channel ft (first_file ft.files)).files
  unfolding open_first_channel put_file set_item
  open_first_channel-Changes ft b =
      go ft.files b
        (env.ela_stream_open_channel
          (file_cookie (or_empty (first_file ft.files).filename) (first_file ft.files).fileid
            (first_file ft.files).filesz)
          ft.world).0
    where
      go :
          (xs : List FileTransferItem)
          → is_standby (first_file xs) ≡ true
          → (rc : Rc)
          → Changes xs (
              set_item xs 0 (elim rc as (λ _. FileTransferItem) [
                | err e ↦ record (first_file xs) {
                  channel = err e;
                  filename = Option.none;
                  state = FileState.none;
                }
                | ok n ↦ record (first_file xs) { channel = ok n }
              ]))
      go [] b rc = nothing
      go (x ∷ xs) b (err e) = here (freed refl refl refl)
      go (x ∷ xs) b (ok n) = here (carried (ok n) (standby_state x b) refl)

  request_session-files : (ft : ElaFileTransfer env) → (request_session ft).files ≡ ft.files
  unfolding request_session
  request_session-files ft =
      if_both {A = ElaFileTransfer env} (λ r. r.files ≡ ft.files) (is_over ft.state) refl
        (fail_on_error-files ft
          (env.ela_session_request (request_bundle (first_file ft.files)) ft.world))

  reply_session-files : (ft : ElaFileTransfer env) → (reply_session ft).files ≡ ft.files
  unfolding reply_session
  reply_session-files ft =
      if_both {A = ElaFileTransfer env} (λ r. r.files ≡ ft.files) (is_over ft.state) refl
        (fail_on_error-files ft (env.ela_session_reply_request bundle true ft.world))
    where
      bundle : List ℕ
      bundle =
          if is_standby (first_file ft.files)
          then reply_bundle (first_file ft.files).fileid
          else bundle_prefix

  offer_first-Changes : (ft : ElaFileTransfer env) → Changes ft.files (offer_first ft).files
  unfolding offer_first
  offer_first-Changes ft =
      if_both {A = ElaFileTransfer env} (λ r. Changes ft.files r.files) (is_over ft.state) nothing
        (if_cases {A = ElaFileTransfer env} (λ r. Changes ft.files r.files)
          (not (is_standby (first_file ft.files))) (λ b. nothing)
          (λ b. open_first_channel-Changes ft (not-false _ b)))

  sender_state_changed-Changes :
      (ft : ElaFileTransfer env) (state : StreamState)
      → Changes ft.files (sender_state_changed ft state).files
  unfolding sender_state_changed
  sender_state_changed-Changes ft StreamState.initialized = same-Changes _ _ (
      request_session-files (notify_state_changed ft Connection.connecting)
      ∙ notify-files ft Connection.connecting)
  sender_state_changed-Changes ft StreamState.transport_ready = nothing
  sender_state_changed-Changes ft StreamState.connecting = nothing
  sender_state_changed-Changes ft StreamState.connected =
      subst (λ xs. Changes xs (offer_first (notify_state_changed ft Connection.connected)).files)
        (notify-files ft Connection.connected)
        (offer_first-Changes (notify_state_changed ft Connection.connected))
  sender_state_changed-Changes ft StreamState.deactivated = nothing
  sender_state_changed-Changes ft StreamState.closed =
      same-Changes _ _
        (notify-files ft (if ft.error == 0 then Connection.closed else Connection.failed))
  sender_state_changed-Changes ft StreamState.failed =
      same-Changes _ _ (notify-files ft Connection.failed)

  receiver_state_changed-files :
      (ft : ElaFileTransfer env) (state : StreamState)
      → (receiver_state_changed ft state).files ≡ ft.files
  unfolding receiver_state_changed
  receiver_state_changed-files ft StreamState.initialized =
      reply_session-files (notify_state_changed ft Connection.connecting)
      ∙ notify-files ft Connection.connecting
  receiver_state_changed-files ft StreamState.transport_ready =
      fail_on_error-files ft (env.ela_session_start ft.sdp ft.world)
  receiver_state_changed-files ft StreamState.connecting = refl
  receiver_state_changed-files ft StreamState.connected = notify-files ft Connection.connected
  receiver_state_changed-files ft StreamState.deactivated = refl
  receiver_state_changed-files ft StreamState.closed = notify-files ft Connection.closed
  receiver_state_changed-files ft StreamState.failed = notify-files ft Connection.failed

  pub stream_state_changed-Changes :
      (ft : ElaFileTransfer env) (state : StreamState)
      → Changes ft.files (stream_state_changed ft state).files
  unfolding stream_state_changed
  stream_state_changed-Changes ft state = go ft.sender_receiver
    where
      go :
          (role : Role)
          → Changes ft.files
              (elim role as (λ _. ElaFileTransfer env) [
                | sender ↦ sender_state_changed ft state
                | receiver ↦ receiver_state_changed ft state
                | unset ↦ ft
              ]).files
      go sender = sender_state_changed-Changes ft state
      go receiver = same-Changes _ _ (receiver_state_changed-files ft state)
      go unset = nothing

  start_request-files :
      (ft : ElaFileTransfer env) (r : Rc × env.World) → (start_request ft r).files ≡ ft.files
  unfolding start_request
  start_request-files ft (err e, w) = remove_stream-files (record ft { world = w }) 1
  start_request-files ft (ok n, w) = refl

  complete_request-files :
      (ft : ElaFileTransfer env) (bundle : List ℕ) (accepted : Bool) (sdp : List ℕ)
      → (complete_request ft bundle accepted sdp).files ≡ ft.files
  unfolding complete_request
  complete_request-files ft bundle accepted sdp =
      if_both {A = ElaFileTransfer env} P (is_failed ft) refl (
        if_both {A = ElaFileTransfer env} P (not accepted) (remove_stream-files ft 0) (
          if_both {A = ElaFileTransfer env} P (not (reply_matches ft bundle))
            (remove_stream-files ft 1)
            (start_request-files ft (env.ela_session_start sdp ft.world))))
    where
      P : ElaFileTransfer env → Type 0
      P r = r.files ≡ ft.files

  -- A completion that still waits leaves the transfer as it is.
  abbrev pub completed : ElaFileTransfer env → Option (ElaFileTransfer env) → ElaFileTransfer env
  completed ft Option.none = ft
  completed ft (some ft') = ft'

  pub completed-files :
      (ft : ElaFileTransfer env) (bundle : List ℕ) (accepted : Bool) (sdp : List ℕ)
      → (completed ft (sessionreq_complete_callback ft bundle accepted sdp)).files ≡ ft.files
  unfolding sessionreq_complete_callback
  completed-files ft bundle accepted sdp =
      if_both {A = Option (ElaFileTransfer env)} P (not (is_sender ft)) refl (
        if_both {A = Option (ElaFileTransfer env)} P (not (has_prefix bundle_prefix bundle)) refl (
          if_both {A = Option (ElaFileTransfer env)} P
            (not ft.ready_to_connect && not (is_failed ft)) refl
            (complete_request-files ft bundle accepted sdp)))
    where
      P : Option (ElaFileTransfer env) → Type 0
      P o = (completed ft o).files ≡ ft.files

  pub connect-files : (ft : ElaFileTransfer env) → (ela_filetransfer_connect ft).1.files ≡ ft.files
  unfolding ela_filetransfer_connect add_stream
  connect-files ft =
      if_both {A = Rc × ElaFileTransfer env} (λ r. r.1.files ≡ ft.files) (not (is_initialized ft))
        refl refl

  accept_request-files :
      (ft : ElaFileTransfer env) (r : Option (List ℕ) × env.World)
      → (accept_request ft r).1.files ≡ ft.files
  unfolding accept_request add_stream
  accept_request-files ft (Option.none, w) = refl
  accept_request-files ft (some sdp, w) =
      if_both {A = Rc × ElaFileTransfer env} (λ r. r.1.files ≡ ft.files) (not (env.alloc w).0) refl
        refl

  pub accept_connect-files :
      (ft : ElaFileTransfer env) → (ela_filetransfer_accept_connect ft).1.files ≡ ft.files
  unfolding ela_filetransfer_accept_connect
  accept_connect-files ft =
      if_both {A = Rc × ElaFileTransfer env} (λ r. r.1.files ≡ ft.files) (not (is_initialized ft))
        refl (accept_request-files ft (env.filereqs_remove ft.address ft.world))
