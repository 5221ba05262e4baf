-- ===== src/FileTransfer/Files.antt =====
-- `ela_filetransfer_new`, and what the application asks of a file and notes with it, of
-- src/filetransfer/filetransfer.c.
use elastos_net_carrier_nati.Base.{
  ℕ, List, [], ◌∷◌, Bool, true, false, not, ◌⊎◌, inl, inr, Option, some, leb, ◌==◌, if◌then◌else◌,
  length,
}
use elastos_net_carrier_nati.Elaerr
use elastos_net_carrier_nati.Mux.Channel.{Rc, ok, err}
use elastos_net_carrier_nati.FileTransfer.Data.{
  FileTransferItem, ElaFileTransferInfo, ElaFileTransferCallbacks, ElaFileTransfer, Env, Connection,
  unset, standby, zero_item, get_fileinfo_fileid, put_file, is_connected, ela_max_file_id_len,
}
use elastos_net_carrier_nati.FileTransfer.Calls.{is_empty, is_valid_info, get_fileinfo_name}

abbrev is_valid_file : (List ℕ → Bool) → Option ElaFileTransferInfo → Bool
is_valid_file id_is_valid Option.none = true
is_valid_file id_is_valid (some info) = is_valid_info id_is_valid info

-- The name of a file, if the buffer has room for it; a null name is undefined behaviour.
unfoldable pub name_of_slot : ℕ → Option (ℕ × FileTransferItem) → Option (ℕ ⊎ List ℕ)
name_of_slot size Option.none = some (inl Elaerr.not_exist)
name_of_slot size (some (i, x)) = elim x.filename [
  | Option.none ↦ Option.none
  | some name ↦
      if leb size (length name) then some (inl Elaerr.buffer_too_small) else some (inr name)
]

module _ (env : Env) where
  open env use {World, alloc, ela_filetransfer_fileid, basename}

  -- The id of the caller's file, or a new one.
  unfoldable pub first_fileid : List ℕ → World → List ℕ × World
  first_fileid [] w = ela_filetransfer_fileid w
  first_fileid (c ∷ cs) w = (c ∷ cs, w)

  -- The slots of a new transfer: the caller's file, or nothing, in the first.
  unfoldable pub new_files :
      Option ElaFileTransferInfo → World → (ℕ ⊎ List FileTransferItem) × World
  unfolding first_fileid
  new_files Option.none w =
      (inr (zero_item ∷ zero_item ∷ zero_item ∷ zero_item ∷ zero_item ∷ []), w)
  new_files (some info) w = elim (basename info.filename) [
    | Option.none ↦ (inl Elaerr.invalid_args, w)
    | some name ↦
        let (allocated, w1) = alloc w in
        let item : FileTransferItem = record {
          fileid = info.fileid;
          filename = some name;
          filesz = info.size;
          userdata = info.userdata;
          state = standby;
          channel = err 1;
        } in
        if allocated
        then (inr (item ∷ zero_item ∷ zero_item ∷ zero_item ∷ zero_item ∷ []), w1)
        else (inl Elaerr.out_of_memory, w1)
  ]

  unfoldable pub with_fileid :
      Option ElaFileTransferInfo → World → Option ElaFileTransferInfo × World
  unfolding first_fileid
  with_fileid Option.none w = (Option.none, w)
  with_fileid (some info) w =
      let (fileid, w1) = first_fileid info.fileid w in (some (record info { fileid = fileid }), w1)

module _ {env : Env} where
  open env use {World, ela_session_new, extension, alloc, ela_id_is_valid}

  unfoldable pub new_on_session :
      List ℕ
      → ElaFileTransferCallbacks env
      → (ℕ ⊎ List FileTransferItem) × World
      → (ℕ ⊎ ElaFileTransfer env) × World
  new_on_session address callbacks (inl e, w) = (inl e, w)
  new_on_session address callbacks (inr files, w) =
      let (rc, w1) = ela_session_new address w in
      let ft : ElaFileTransfer env = record {
        address = address;
        files = files;
        stream = err 1;
        error = 0;
        state = Connection.initialized;
        callbacks = callbacks;
        sdp = [];
        sender_receiver = unset;
        ready_to_connect = false;
        world = w1;
      } in
      elim rc [ err e ↦ (inl e, w1) | ok n ↦ (inr ft, w1) ]

  -- `ela_filetransfer_new`, for arguments that have been checked.
  unfoldable pub new_transfer :
      List ℕ
      → Option ElaFileTransferInfo
      → ElaFileTransferCallbacks env
      → World
      → (ℕ ⊎ ElaFileTransfer env) × World
  unfolding new_on_session new_files
  new_transfer address info callbacks w =
      let (allocated, w1) = alloc w in
      if not (extension w)
      then (inl Elaerr.not_exist, w)
      else if not allocated
      then (inl Elaerr.out_of_memory, w1)
      else new_on_session address callbacks (new_files env info w1)

  -- `ela_filetransfer_new`: an error code or the transfer.
  unfoldable pub ela_filetransfer_new :
      List ℕ
      → Option ElaFileTransferInfo
      → ElaFileTransferCallbacks env
      → World
      → (ℕ ⊎ ElaFileTransfer env) × World
  unfolding new_transfer with_fileid
  ela_filetransfer_new address info callbacks w =
      let (named, w1) = with_fileid env info w in
      if is_empty address
      then (inl Elaerr.invalid_args, w)
      else if not (is_valid_file ela_id_is_valid info)
      then (inl Elaerr.invalid_args, w)
      else new_transfer address named callbacks w1

  -- `ela_filetransfer_get_fileid`: `none` is undefined behaviour.
  unfoldable pub ela_filetransfer_get_fileid :
      ElaFileTransfer env → List ℕ → ℕ → Option (ℕ ⊎ List ℕ)
  unfolding get_fileinfo_name
  ela_filetransfer_get_fileid ft filename size =
      if is_empty filename
      then some (inl Elaerr.invalid_args)
      else if leb size ela_max_file_id_len
      then some (inl Elaerr.invalid_args)
      else elim (get_fileinfo_name ft.files filename) [
        | Option.none ↦ Option.none
        | some Option.none ↦ some (inl Elaerr.invalid_args)
        | some (some x) ↦ some (inr x.fileid)
      ]

  -- `ela_filetransfer_get_filename`: `none` is undefined behaviour.
  unfoldable pub ela_filetransfer_get_filename :
      ElaFileTransfer env → List ℕ → ℕ → Option (ℕ ⊎ List ℕ)
  unfolding name_of_slot get_fileinfo_fileid
  ela_filetransfer_get_filename ft fileid size =
      if is_empty fileid
      then some (inl Elaerr.invalid_args)
      else if size == 0
      then some (inl Elaerr.invalid_args)
      else name_of_slot size (get_fileinfo_fileid ft.files fileid)

  unfoldable pub set_slot :
      ElaFileTransfer env → ℕ → Option (ℕ × FileTransferItem) → Rc × ElaFileTransfer env
  unfolding put_file
  set_slot ft userdata Option.none = (err Elaerr.not_exist, ft)
  set_slot ft userdata (some (i, x)) =
      if not (is_connected ft)
      then (err Elaerr.wrong_state, ft)
      else (ok 0, put_file ft i (record x { userdata = userdata }))

  -- `ela_filetransfer_set_userdata`
  unfoldable pub ela_filetransfer_set_userdata :
      ElaFileTransfer env → List ℕ → ℕ → Rc × ElaFileTransfer env
  unfolding set_slot get_fileinfo_fileid
  ela_filetransfer_set_userdata ft fileid userdata =
      if is_empty fileid
      then (err Elaerr.invalid_args, ft)
      else set_slot ft userdata (get_fileinfo_fileid ft.files fileid)

  -- `ela_filetransfer_get_userdata`: an error code or what was noted.
  unfoldable pub ela_filetransfer_get_userdata : ElaFileTransfer env → List ℕ → ℕ ⊎ ℕ
  unfolding get_fileinfo_fileid
  ela_filetransfer_get_userdata ft fileid =
      if is_empty fileid
      then inl Elaerr.invalid_args
      else elim (get_fileinfo_fileid ft.files fileid) [
        | Option.none ↦ inl Elaerr.not_exist
        | some (i, x) ↦ if not (is_connected ft) then inl Elaerr.wrong_state else inr x.userdata
      ]
