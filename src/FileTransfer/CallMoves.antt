-- ===== src/FileTransfer/CallMoves.antt =====
-- Each call of the application on a file changes at most one slot, by a move of its state machine.
use elastos_net_carrier_nati.Base.{
  ℕ, ◌≡◌, refl, ◌∙◌, List, [], ◌∷◌, Bool, not, Option, some, ltb, leb, if_cases, if_both, length,
}
use elastos_net_carrier_nati.Mux.Channel.{Rc, ok, err}
use elastos_net_carrier_nati.FileTransfer.Data.{
  FileState, FileTransferItem, ElaFileTransferInfo, ElaFileTransfer, Env, standby, transfering,
  is_sender, is_receiver, is_connected, is_free, is_standby, is_transfering, has_fileid, find_item,
  get_fileinfo_free, get_fileinfo_fileid, put_file,
}
use elastos_net_carrier_nati.FileTransfer.Slots.{
  Move, taken, started, paused, left_free, noted, Changes, nothing, free_state, standby_state,
  transfering_state, find_item-found,
}
use elastos_net_carrier_nati.FileTransfer.Moves.{not-false, put-Changes, same-Changes}
use elastos_net_carrier_nati.FileTransfer.Cookie.{file_cookie}
use elastos_net_carrier_nati.FileTransfer.Calls.{
  is_empty, is_valid_info, choose_fileid, open_added, name_added, add_to_slot, ela_filetransfer_add,
  write_on, moved, pull_slot, ela_filetransfer_pull, send_slot, ela_filetransfer_send, cancel_slot,
  ela_filetransfer_cancel, pend_slot, ela_filetransfer_pend, resume_slot, ela_filetransfer_resume,
}
use elastos_net_carrier_nati.FileTransfer.Files.{set_slot, ela_filetransfer_set_userdata}

module _ {env : Env} where
  module _ (ft : ElaFileTransfer env) where
    abbrev Kept : ElaFileTransfer env → Type 0
    Kept ft' = Changes ft.files ft'.files

    abbrev Kept2 : Rc × ElaFileTransfer env → Type 0
    Kept2 r = Changes ft.files r.1.files

    moved-Changes :
        (p : FileTransferItem → Bool) (i : ℕ) (x : FileTransferItem) (state : FileState)
        (r : Rc × ElaFileTransfer env)
        → r.1.files ≡ ft.files
        → find_item p ft.files ≡ some (i, x)
        → Move x (record x { state = state })
        → Kept2 (moved i x state r)
    unfolding moved put_file
    moved-Changes p i x state (err n, ft') s e m = same-Changes _ _ s
    moved-Changes p i x state (ok n, ft') s e m = rw s (put-Changes ft.files p i x _ e m)

    pull_slot-Changes :
        (id : List ℕ) (offset : ℕ) (o : Option (ℕ × FileTransferItem))
        → find_item (has_fileid id) ft.files ≡ o
        → Kept2 (pull_slot ft offset o)
    unfolding pull_slot write_on
    pull_slot-Changes id offset Option.none e = nothing
    pull_slot-Changes id offset (some (i, x)) e = if_both Kept2 (leb x.filesz offset) nothing (
        if_both Kept2 (not (is_receiver ft)) nothing (
          if_both Kept2 (not (is_connected ft)) nothing (
            if_cases Kept2 (not (is_standby x)) (λ b. nothing)
              (λ b.
                moved-Changes _ i x transfering _ refl e
                  (started (standby_state x (not-false _ b)) refl)))))

    pub ela_filetransfer_pull-Changes :
        (id : List ℕ) (offset : ℕ) → Kept2 (ela_filetransfer_pull ft id offset)
    unfolding ela_filetransfer_pull get_fileinfo_fileid
    ela_filetransfer_pull-Changes id offset =
        if_both Kept2 (is_empty id) nothing (pull_slot-Changes id offset _ refl)

    send_slot-Changes :
        (data_ : List ℕ) (o : Option (ℕ × FileTransferItem)) → Kept2 (send_slot ft data_ o)
    unfolding send_slot write_on
    send_slot-Changes data_ Option.none = nothing
    send_slot-Changes data_ (some (i, x)) = if_both Kept2 (ltb x.filesz (length data_)) nothing (
        if_both Kept2 (not (is_sender ft)) nothing (
          if_both Kept2 (not (is_connected ft)) nothing
            (if_both Kept2 (not (is_transfering x)) nothing nothing)))

    pub ela_filetransfer_send-Changes :
        (id data_ : List ℕ) → Kept2 (ela_filetransfer_send ft id data_)
    unfolding ela_filetransfer_send
    ela_filetransfer_send-Changes id data_ =
        if_both Kept2 (is_empty id) nothing (send_slot-Changes data_ _)

    cancel_slot-Changes :
        (status : ℕ) (reason : List ℕ) (o : Option (ℕ × FileTransferItem))
        → Kept2 (cancel_slot ft status reason o)
    unfolding cancel_slot write_on
    cancel_slot-Changes status reason Option.none = nothing
    cancel_slot-Changes status reason (some (i, x)) =
        if_both Kept2 (not (is_receiver ft)) nothing (
          if_both Kept2 (not (is_connected ft)) nothing (if_both Kept2 (is_free x) nothing nothing))

    pub ela_filetransfer_cancel-Changes :
        (id : List ℕ) (status : ℕ) (reason : List ℕ)
        → Kept2 (ela_filetransfer_cancel ft id status reason)
    unfolding ela_filetransfer_cancel
    ela_filetransfer_cancel-Changes id status reason =
        if_both Kept2 (is_empty id) nothing (cancel_slot-Changes status reason _)

    pend_slot-Changes :
        (id : List ℕ) (o : Option (ℕ × FileTransferItem))
        → find_item (has_fileid id) ft.files ≡ o
        → Kept2 (pend_slot ft o)
    unfolding pend_slot
    pend_slot-Changes id Option.none e = nothing
    pend_slot-Changes id (some (i, x)) e = if_both Kept2 (not (is_receiver ft)) nothing (
        if_both Kept2 (not (is_connected ft)) nothing (
          if_cases Kept2 (not (is_transfering x)) (λ b. nothing)
            (λ b.
              moved-Changes _ i x standby _ refl e
                (paused (transfering_state x (not-false _ b)) refl))))

    pub ela_filetransfer_pend-Changes : (id : List ℕ) → Kept2 (ela_filetransfer_pend ft id)
    unfolding ela_filetransfer_pend get_fileinfo_fileid
    ela_filetransfer_pend-Changes id =
        if_both Kept2 (is_empty id) nothing (pend_slot-Changes id _ refl)

    resume_slot-Changes :
        (id : List ℕ) (o : Option (ℕ × FileTransferItem))
        → find_item (has_fileid id) ft.files ≡ o
        → Kept2 (resume_slot ft o)
    unfolding resume_slot
    resume_slot-Changes id Option.none e = nothing
    resume_slot-Changes id (some (i, x)) e = if_both Kept2 (not (is_receiver ft)) nothing (
        if_both Kept2 (not (is_connected ft)) nothing (
          if_cases Kept2 (not (is_standby x)) (λ b. nothing)
            (λ b.
              moved-Changes _ i x transfering _ refl e
                (started (standby_state x (not-false _ b)) refl))))

    pub ela_filetransfer_resume-Changes : (id : List ℕ) → Kept2 (ela_filetransfer_resume ft id)
    unfolding ela_filetransfer_resume get_fileinfo_fileid
    ela_filetransfer_resume-Changes id =
        if_both Kept2 (is_empty id) nothing (resume_slot-Changes id _ refl)

    open_added-Changes :
        (ft1 : ElaFileTransfer env) (i : ℕ) (x item : FileTransferItem) (name : List ℕ)
        → ft1.files ≡ ft.files
        → find_item is_free ft.files ≡ some (i, x)
        → item.state ≡ x.state
        → Kept2 (open_added ft1 i item name)
    unfolding open_added put_file
    open_added-Changes ft1 i x item name s e same = go opened.0
      where
        opened : Rc × env.World
        opened = env.ela_stream_open_channel (file_cookie name item.fileid item.filesz) ft1.world

        free : x.state ≡ FileState.none
        free = free_state x (find_item-found is_free ft.files i x e).1

        go :
            (rc : Rc)
            → Kept2 (elim rc as (λ _. Rc × ElaFileTransfer env) [
              | err n ↦ (
                err n,
                put_file
                    (record ft1 { world = opened.1 })
                    i
                    (record item { channel = err n; filename = Option.none }),
              )
              | ok n ↦ (
                ok 0,
                put_file
                    (record ft1 { world = opened.1 })
                    i
                    (record item { channel = ok n; state = standby }),
              )
            ])
        go (err n) = rw s (put-Changes ft.files is_free i x _ e (left_free free (same ∙ free)))
        go (ok n) = rw s (put-Changes ft.files is_free i x _ e (taken free refl))

    name_added-Changes :
        (ft1 : ElaFileTransfer env) (info : ElaFileTransferInfo) (i : ℕ) (x : FileTransferItem)
        (fileid : List ℕ) (name : Option (List ℕ))
        → ft1.files ≡ ft.files
        → find_item is_free ft.files ≡ some (i, x)
        → Kept2 (name_added ft1 info i x fileid name)
    unfolding name_added
    name_added-Changes ft1 info i x fileid Option.none s e = same-Changes _ _ s
    name_added-Changes ft1 info i x fileid (some name) s e =
        if_both Kept2 (not (env.alloc ft1.world).0) (same-Changes _ _ s) (
          open_added-Changes (record ft1 { world = (env.alloc ft1.world).1 }) i x item info.filename
            s e refl)
      where
        item : FileTransferItem
        item = record x {
          fileid = fileid;
          filename = some name;
          filesz = info.size;
          userdata = info.userdata;
        }

    choose_fileid-files : (id : List ℕ) → (choose_fileid id ft).1.files ≡ ft.files
    unfolding choose_fileid
    choose_fileid-files [] = refl
    choose_fileid-files (c ∷ cs) = refl

    add_to_slot-Changes :
        (info : ElaFileTransferInfo) (o : Option (ℕ × FileTransferItem))
        → find_item is_free ft.files ≡ o
        → Kept2 (add_to_slot ft info o)
    unfolding add_to_slot
    add_to_slot-Changes info Option.none e = nothing
    add_to_slot-Changes info (some (i, x)) e =
        name_added-Changes _ info i x _ _ (choose_fileid-files info.fileid) e

    pub ela_filetransfer_add-Changes :
        (info : ElaFileTransferInfo) → Kept2 (ela_filetransfer_add ft info)
    unfolding ela_filetransfer_add get_fileinfo_free
    ela_filetransfer_add-Changes info =
        if_both Kept2 (not (is_valid_info env.ela_id_is_valid info)) nothing (
          if_both Kept2 (not (is_sender ft)) nothing
            (if_both Kept2 (not (is_connected ft)) nothing (add_to_slot-Changes info _ refl)))

    set_slot-Changes :
        (id : List ℕ) (u : ℕ) (o : Option (ℕ × FileTransferItem))
        → find_item (has_fileid id) ft.files ≡ o
        → Kept2 (set_slot ft u o)
    unfolding set_slot put_file
    set_slot-Changes id u Option.none e = nothing
    set_slot-Changes id u (some (i, x)) e =
        if_both Kept2 (not (is_connected ft)) nothing
          (put-Changes ft.files _ i x _ e (noted u refl))

    pub ela_filetransfer_set_userdata-Changes :
        (id : List ℕ) (u : ℕ) → Kept2 (ela_filetransfer_set_userdata ft id u)
    unfolding ela_filetransfer_set_userdata get_fileinfo_fileid
    ela_filetransfer_set_userdata-Changes id u =
        if_both Kept2 (is_empty id) nothing (set_slot-Changes id u _ refl)
