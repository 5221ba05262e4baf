-- ===== src/FileTransfer/Calls.antt =====
-- The calls of the application on a transfer: `ela_filetransfer_new`, `…_add`, `…_pull`, `…_send`,
-- `…_cancel`, `…_pend`, `…_resume` and the ones that read and set what is known of a file, of
-- src/filetransfer/filetransfer.c. A null argument is not modelled; an empty string is.
use elastos_net_carrier_nati.Base.{
  ℕ, List, [], ◌∷◌, Bool, true, false, not, ◌&&◌, ◌||◌, Option, some, ltb, leb, ◌==◌, if◌then◌else◌,
  eq_bytes, length,
}
use elastos_net_carrier_nati.Elaerr
use elastos_net_carrier_nati.Mux.Channel.{Rc, ok, err}
use elastos_net_carrier_nati.FileTransfer.Data.{
  FileState, FileTransferItem, ElaFileTransferInfo, ElaFileTransfer, Env, standby, transfering,
  is_free, is_standby, is_transfering, is_sender, is_receiver, is_connected, get_fileinfo_free,
  get_fileinfo_fileid, put_file,
}
use elastos_net_carrier_nati.FileTransfer.Cookie.{file_cookie}
use elastos_net_carrier_nati.FileTransfer.Packet.{pull_bytes, cancel_bytes}

abbrev pub is_empty : List ℕ → Bool
is_empty [] = true
is_empty (c ∷ cs) = false

-- `get_fileinfo_name`: a slot without a name is compared with a null pointer, which is undefined.
unfoldable pub get_fileinfo_name : List FileTransferItem → List ℕ → Option (Option FileTransferItem)
get_fileinfo_name [] filename = some Option.none
get_fileinfo_name (x ∷ xs) filename =
    let later = get_fileinfo_name xs filename in
    elim x.filename [
      | Option.none ↦ Option.none
      | some name ↦ if eq_bytes filename name then some (some x) else later
    ]

-- A file that the code may use: a name, a size, and a valid id or none.
abbrev pub is_valid_info : (List ℕ → Bool) → ElaFileTransferInfo → Bool
is_valid_info id_is_valid info =
    not (is_empty info.filename)
    && (not (info.size == 0) && (is_empty info.fileid || id_is_valid info.fileid))

module _ {env : Env} where
  open env use {
    World, ela_stream_open_channel, ela_stream_write_channel, ela_stream_pend_channel,
    ela_stream_resume_channel, ela_session_new, extension, alloc, ela_filetransfer_fileid, basename,
    ela_id_is_valid, stack,
  }

  -- The id of the caller, or a new one.
  unfoldable pub choose_fileid : List ℕ → ElaFileTransfer env → List ℕ × ElaFileTransfer env
  choose_fileid [] ft =
      let (id, w) = ela_filetransfer_fileid ft.world in (id, record ft { world = w })
  choose_fileid (c ∷ cs) ft = (c ∷ cs, ft)

  -- The end of `ela_filetransfer_add`: the channel of the new file. Without a channel the slot stays
  -- free, but keeps the id, the size and the error code.
  unfoldable pub open_added :
      ElaFileTransfer env → ℕ → FileTransferItem → List ℕ → Rc × ElaFileTransfer env
  unfolding file_cookie put_file
  open_added ft i x name =
      let (rc, w) = ela_stream_open_channel (file_cookie name x.fileid x.filesz) ft.world in
      let ft1 = record ft { world = w } in
      elim rc [
        | err e ↦ (err e, put_file ft1 i (record x { channel = err e; filename = Option.none }))
        | ok n ↦ (ok 0, put_file ft1 i (record x { channel = ok n; state = standby }))
      ]

  unfoldable pub name_added :
      ElaFileTransfer env
      → ElaFileTransferInfo
      → ℕ
      → FileTransferItem
      → List ℕ
      → Option (List ℕ)
      → Rc × ElaFileTransfer env
  unfolding open_added
  name_added ft info i x fileid Option.none = (err Elaerr.invalid_args, ft)
  name_added ft info i x fileid (some name) =
      let (allocated, w) = alloc ft.world in
      let ft1 = record ft { world = w } in
      let item : FileTransferItem = record x {
        fileid = fileid;
        filename = some name;
        filesz = info.size;
        userdata = info.userdata;
      } in
      if not allocated then (err Elaerr.out_of_memory, ft1) else open_added ft1 i item info.filename

  unfoldable pub add_to_slot :
      ElaFileTransfer env
      → ElaFileTransferInfo
      → Option (ℕ × FileTransferItem)
      → Rc × ElaFileTransfer env
  unfolding choose_fileid name_added
  add_to_slot ft info Option.none = (err Elaerr.limit_exceeded, ft)
  add_to_slot ft info (some (i, x)) =
      let (fileid, ft1) = choose_fileid info.fileid ft in
      name_added ft1 info i x fileid (basename info.filename)

  -- `ela_filetransfer_add`. The cookie has the name as the caller gave it, with its directories.
  unfoldable pub ela_filetransfer_add :
      ElaFileTransfer env → ElaFileTransferInfo → Rc × ElaFileTransfer env
  unfolding add_to_slot get_fileinfo_free
  ela_filetransfer_add ft info =
      if not (is_valid_info ela_id_is_valid info)
      then (err Elaerr.invalid_args, ft)
      else if not (is_sender ft)
      then (err Elaerr.wrong_state, ft)
      else if not (is_connected ft)
      then (err Elaerr.wrong_state, ft)
      else add_to_slot ft info (get_fileinfo_free ft.files)

  -- A packet written on the channel of a file; a result below 0 leaves the transfer as it is.
  unfoldable pub write_on :
      ElaFileTransfer env → FileTransferItem → List ℕ → Rc × ElaFileTransfer env
  write_on ft x data_ =
      let (rc, w) = ela_stream_write_channel x.channel data_ ft.world in
      (rc, record ft { world = w })

  -- A result that moves the slot to a new state.
  unfoldable pub moved :
      ℕ → FileTransferItem → FileState → Rc × ElaFileTransfer env → Rc × ElaFileTransfer env
  unfolding put_file
  moved i x state (err e, ft) = (err e, ft)
  moved i x state (ok n, ft) = (ok 0, put_file ft i (record x { state = state }))

  -- `ela_filetransfer_pull`
  unfoldable pub pull_slot :
      ElaFileTransfer env → ℕ → Option (ℕ × FileTransferItem) → Rc × ElaFileTransfer env
  unfolding moved write_on pull_bytes
  pull_slot ft offset Option.none = (err Elaerr.not_exist, ft)
  pull_slot ft offset (some (i, x)) =
      if leb x.filesz offset
      then (err Elaerr.invalid_args, ft)
      else if not (is_receiver ft)
      then (err Elaerr.wrong_state, ft)
      else if not (is_connected ft)
      then (err Elaerr.wrong_state, ft)
      else if not (is_standby x)
      then (err Elaerr.wrong_state, ft)
      else moved i x transfering (write_on ft x (pull_bytes stack offset))

  unfoldable pub ela_filetransfer_pull : ElaFileTransfer env → List ℕ → ℕ → Rc × ElaFileTransfer env
  unfolding pull_slot get_fileinfo_fileid
  ela_filetransfer_pull ft fileid offset =
      if is_empty fileid
      then (err Elaerr.invalid_args, ft)
      else pull_slot ft offset (get_fileinfo_fileid ft.files fileid)

  -- `ela_filetransfer_send`; `data_` is empty when the caller gives no data and the length 0.
  unfoldable pub send_slot :
      ElaFileTransfer env → List ℕ → Option (ℕ × FileTransferItem) → Rc × ElaFileTransfer env
  unfolding write_on
  send_slot ft data_ Option.none = (err Elaerr.not_exist, ft)
  send_slot ft data_ (some (i, x)) =
      if ltb x.filesz (length data_)
      then (err Elaerr.invalid_args, ft)
      else if not (is_sender ft)
      then (err Elaerr.wrong_state, ft)
      else if not (is_connected ft)
      then (err Elaerr.wrong_state, ft)
      else if not (is_transfering x)
      then (err Elaerr.wrong_state, ft)
      else write_on ft x data_

  unfoldable pub ela_filetransfer_send :
      ElaFileTransfer env → List ℕ → List ℕ → Rc × ElaFileTransfer env
  unfolding send_slot get_fileinfo_fileid
  ela_filetransfer_send ft fileid data_ =
      if is_empty fileid
      then (err Elaerr.invalid_args, ft)
      else send_slot ft data_ (get_fileinfo_fileid ft.files fileid)

  -- `ela_filetransfer_cancel`. The slot keeps its state until the channel is closed.
  unfoldable pub cancel_slot :
      ElaFileTransfer env → ℕ → List ℕ → Option (ℕ × FileTransferItem) → Rc × ElaFileTransfer env
  unfolding write_on cancel_bytes
  cancel_slot ft status reason Option.none = (err Elaerr.not_exist, ft)
  cancel_slot ft status reason (some (i, x)) =
      let (rc, ft1) = write_on ft x (cancel_bytes stack status reason) in
      if not (is_receiver ft)
      then (err Elaerr.wrong_state, ft)
      else if not (is_connected ft)
      then (err Elaerr.wrong_state, ft)
      else if is_free x
      then (err Elaerr.wrong_state, ft)
      else (elim rc [ err e ↦ err e | ok n ↦ ok 0 ], ft1)

  unfoldable pub ela_filetransfer_cancel :
      ElaFileTransfer env → List ℕ → ℕ → List ℕ → Rc × ElaFileTransfer env
  unfolding cancel_slot get_fileinfo_fileid
  ela_filetransfer_cancel ft fileid status reason =
      if is_empty fileid
      then (err Elaerr.invalid_args, ft)
      else cancel_slot ft status reason (get_fileinfo_fileid ft.files fileid)

  -- `ela_filetransfer_pend`
  unfoldable pub pend_slot :
      ElaFileTransfer env → Option (ℕ × FileTransferItem) → Rc × ElaFileTransfer env
  unfolding moved
  pend_slot ft Option.none = (err Elaerr.not_exist, ft)
  pend_slot ft (some (i, x)) =
      let (rc, w) = ela_stream_pend_channel x.channel ft.world in
      if not (is_receiver ft)
      then (err Elaerr.wrong_state, ft)
      else if not (is_connected ft)
      then (err Elaerr.wrong_state, ft)
      else if not (is_transfering x)
      then (err Elaerr.wrong_state, ft)
      else moved i x standby (rc, record ft { world = w })

  unfoldable pub ela_filetransfer_pend : ElaFileTransfer env → List ℕ → Rc × ElaFileTransfer env
  unfolding pend_slot get_fileinfo_fileid
  ela_filetransfer_pend ft fileid =
      if is_empty fileid
      then (err Elaerr.invalid_args, ft)
      else pend_slot ft (get_fileinfo_fileid ft.files fileid)

  -- `ela_filetransfer_resume`
  unfoldable pub resume_slot :
      ElaFileTransfer env → Option (ℕ × FileTransferItem) → Rc × ElaFileTransfer env
  unfolding moved
  resume_slot ft Option.none = (err Elaerr.not_exist, ft)
  resume_slot ft (some (i, x)) =
      let (rc, w) = ela_stream_resume_channel x.channel ft.world in
      if not (is_receiver ft)
      then (err Elaerr.wrong_state, ft)
      else if not (is_connected ft)
      then (err Elaerr.wrong_state, ft)
      else if not (is_standby x)
      then (err Elaerr.wrong_state, ft)
      else moved i x transfering (rc, record ft { world = w })

  unfoldable pub ela_filetransfer_resume : ElaFileTransfer env → List ℕ → Rc × ElaFileTransfer env
  unfolding resume_slot get_fileinfo_fileid
  ela_filetransfer_resume ft fileid =
      if is_empty fileid
      then (err Elaerr.invalid_args, ft)
      else resume_slot ft (get_fileinfo_fileid ft.files fileid)
