-- ===== src/EasyFile.antt =====
-- src/filetransfer/easyfile.c and easyfile.h: one file sent or received over a transfer. The functions
-- are the callbacks that the transfer calls, each the last thing that its event does, and the loop of
-- the sending thread. `assert` is taken as compiled out.
pub mod Sending
pub mod Receiving
mod Tests
use elastos_net_carrier_nati.Base.{
  ℕ, zero, suc, ◌≤◌, List, [], ◌∷◌, Bool, true, false, not, ◌||◌, Option, none, some, ltb, leb,
  ◌==◌, if◌then◌else◌, length,
}
use elastos_net_carrier_nati.Base.Words.{add_size, sub_size}
use elastos_net_carrier_nati.Elaerr
use elastos_net_carrier_nati.FlexBuffer.{ela_max_user_data_len}
use elastos_net_carrier_nati.Mux.Channel.{Rc, ok, err}
use elastos_net_carrier_nati.FileTransfer.Data.{ElaFileTransfer, Env, Connection, connection_number}
use elastos_net_carrier_nati.FileTransfer.Connection.{ela_filetransfer_close}
use elastos_net_carrier_nati.FileTransfer.Calls.{
  ela_filetransfer_pull, ela_filetransfer_send, ela_filetransfer_cancel,
}

-- What the code calls of the C library. `fread` gives the buffer after the read; its result is a
-- count, which is never negative, so that the branch of a negative result is left out, here and for
-- `fwrite`. `finish` is `fclose` and `rename` to the file's own name.
pub record Stdio (World : Type 0) : Type 0 where
  pub fseek : ℕ → World → Option ℕ × World
  pub fread : ℕ → World → List ℕ × World
  pub fwrite : List ℕ → World → World
  pub finish : List ℕ → World → World
  pub pthread_create : World → Bool × World
  pub einval : ℕ
  pub erange : ℕ
  pub strerror : ℕ → List ℕ

-- `EasyFile`, with the progress callbacks of the application; `released` is set when the reference of
-- the transfer is given up.
pub record EasyFile (env : Env) : Type 0 where
  pub ft : ElaFileTransfer env
  pub fileid : List ℕ
  pub filename : List ℕ
  pub filesz : ℕ
  pub offset : ℕ
  pub open_ : Bool
  pub sys_errno : ℕ
  pub carrier_errno : ℕ
  pub released : Bool
  pub state_changed : Option (Connection → env.World → env.World)
  pub sent : Option (ℕ → ℕ → env.World → env.World)
  pub received : Option (ℕ → ℕ → env.World → env.World)

-- How much the next round sends.
unfoldable pub send_length : ℕ → ℕ → ℕ
send_length filesz offset =
    let left = sub_size filesz offset in
    if ltb ela_max_user_data_len left then ela_max_user_data_len else left

-- What a progress callback makes of the world.
abbrev pub heard : {World : Type 0} → Option (ℕ → ℕ → World → World) → ℕ → ℕ → World → World
heard none offset filesz w = w
heard (some call) offset filesz w = call offset filesz w

module _ {env : Env} where
  open env use {World}

  abbrev pub world_of : EasyFile env → World
  world_of f = f.ft.world

  abbrev pub with_world : EasyFile env → World → EasyFile env
  with_world f w = record f { ft = record f.ft { world = w } }

  -- A progress callback, if the application has set it.
  unfoldable pub report : EasyFile env → Option (ℕ → ℕ → World → World) → ℕ → EasyFile env
  report f call offset = with_world f (heard call offset f.filesz (world_of f))

  unfoldable pub close_file : EasyFile env → EasyFile env
  unfolding ela_filetransfer_close
  close_file f = record f { ft = ela_filetransfer_close f.ft }

  abbrev tell_state : EasyFile env → Option (Connection → World → World) → Connection → EasyFile env
  tell_state f none state = f
  tell_state f (some call) state = with_world f (call state (world_of f))

  -- `notify_state_changed_cb`
  unfoldable pub notify_state_changed_cb : EasyFile env → Connection → EasyFile env
  notify_state_changed_cb f state =
      let n = connection_number state in
      let told = tell_state f f.state_changed state in
      if leb n (connection_number Connection.initialized)
        || ltb (connection_number Connection.closed) n
      then f
      else if leb (connection_number Connection.closed) n
      then record told { released = true }
      else told

  -- `notify_cancel_cb`
  unfoldable pub notify_cancel_cb : EasyFile env → EasyFile env
  unfolding close_file
  notify_cancel_cb f = close_file f

  module _ (io : Stdio World) where
    open io use {fseek, fread, fwrite, finish, pthread_create, einval, erange, strerror}

    -- The error is noted and the sender is told why.
    unfoldable pub cancel_file : EasyFile env → List ℕ → ℕ → EasyFile env
    unfolding ela_filetransfer_cancel
    cancel_file f fileid errno = record f {
      sys_errno = errno;
      ft = (ela_filetransfer_cancel f.ft fileid errno (strerror errno)).1;
    }

    -- What follows a call of the transfer that fails.
    unfoldable pub close_on_error : EasyFile env → Rc × ElaFileTransfer env → EasyFile env
    unfolding close_file
    close_on_error f (err e, ft) = close_file (record f { ft = ft; carrier_errno = e })
    close_on_error f (ok n, ft) = record f { ft = ft }

    -- `notify_file_cb`
    unfoldable pub notify_file_cb : EasyFile env → List ℕ → ℕ → EasyFile env
    unfolding cancel_file close_on_error ela_filetransfer_pull
    notify_file_cb f fileid size =
        let named = record f { fileid = fileid; filesz = size } in
        if leb size f.offset
        then cancel_file named fileid einval
        else close_on_error named (ela_filetransfer_pull f.ft fileid f.offset)

    -- `notify_pull_cb`, with whether the sending thread was started.
    unfoldable pub notify_pull_cb : EasyFile env → List ℕ → ℕ → Bool × EasyFile env
    unfolding close_file
    notify_pull_cb f fileid offset =
        let (failed, w) = pthread_create (world_of f) in
        if leb f.filesz offset
        then (false, close_file (record f { sys_errno = erange }))
        else (not failed, with_world (record f { fileid = fileid; offset = offset }) w)

    -- The last byte has come: the file gets its name, and the transfer is closed.
    unfoldable pub complete_file : EasyFile env → EasyFile env
    unfolding close_file
    complete_file f =
        close_file (with_world (record f { open_ = false }) (finish f.filename (world_of f)))

    -- The part of `notify_data_cb` after the bytes have been written.
    unfoldable pub count_data : EasyFile env → List ℕ → EasyFile env
    unfolding cancel_file complete_file report
    count_data f fileid =
        if ltb f.filesz f.offset
        then cancel_file f fileid erange
        else if f.offset == f.filesz
        then report (complete_file f) f.received f.offset
        else report f f.received f.offset

    -- `notify_data_cb`: `none` when the file has been closed, and `fwrite` is called on a null pointer.
    unfoldable pub notify_data_cb : EasyFile env → List ℕ → List ℕ → Option (EasyFile env)
    unfolding count_data
    notify_data_cb f fileid data_ =
        let written = with_world f (fwrite data_ (world_of f)) in
        if f.open_
        then some (count_data (record written { offset = add_size f.offset (length data_) }) fileid)
        else none

    -- `ela_filetransfer_send` with a buffer, which it refuses when the length is 0.
    unfoldable pub send_piece : EasyFile env → List ℕ → Rc × ElaFileTransfer env
    unfolding ela_filetransfer_send
    send_piece f buf =
        if length buf == 0
        then (err Elaerr.invalid_args, f.ft)
        else ela_filetransfer_send f.ft f.fileid buf

    -- The end of a round: `more` are the rounds that follow.
    unfoldable pub send_next :
        EasyFile env
        → ℕ
        → Rc × ElaFileTransfer env
        → EasyFile env
        → Option (EasyFile env)
        → Option (EasyFile env)
    unfolding close_on_error
    send_next f offset (err e, ft) told more = some (close_on_error f (err e, ft))
    send_next f offset (ok n, ft) told more = if ltb offset f.filesz then more else some told

    -- The loop of `sending_file_routine`; `none` is out of fuel.
    unfoldable pub send_loop : ℕ → EasyFile env → ℕ → Option (EasyFile env)
    unfolding send_length send_piece report send_next
    send_loop zero f offset = none
    send_loop (suc fuel) f offset =
        let len = send_length f.filesz offset in
        let (buf, w) = fread len (world_of f) in
        let read = with_world f w in
        let r = send_piece read buf in
        let told = report (record read { ft = r.1 }) f.sent (add_size offset len) in
        let more = send_loop fuel told (add_size offset len) in
        send_next read (add_size offset len) r told more

    unfoldable pub start_sending : ℕ → EasyFile env → Option ℕ × World → Option (EasyFile env)
    unfolding send_loop close_file
    start_sending fuel f (some errno, w) =
        some (close_file (record (with_world f w) { sys_errno = errno }))
    start_sending fuel f (none, w) = send_loop fuel (with_world f w) f.offset

    -- `sending_file_routine`
    unfoldable pub sending_file_routine : ℕ → EasyFile env → Option (EasyFile env)
    unfolding start_sending
    sending_file_routine fuel f = start_sending fuel f (fseek f.offset (world_of f))
