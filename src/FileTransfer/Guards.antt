-- ===== src/FileTransfer/Guards.antt =====
-- When the calls of the application on a file are refused: pull, send, cancel, pend and resume of
-- src/filetransfer/filetransfer.c.
use elastos_net_carrier_nati.Base.{
  ℕ, ◌≡◌, ◌≤◌, ◌<◌, ◌≢◌, refl, ap, List, Bool, true, not, Option, some, arith, leb, ltb,
  if◌then◌else◌, if_cases, length, le_of_ltb-false,
}
use elastos_net_carrier_nati.Mux.Channel.{Rc, err}
use elastos_net_carrier_nati.FileTransfer.Data.{
  FileState, FileTransferItem, ElaFileTransfer, Env, standby, transfering, is_sender, is_receiver,
  is_connected, is_free, is_none_state, is_standby, is_transfering, get_fileinfo_fileid,
}
use elastos_net_carrier_nati.FileTransfer.Slots.{standby_state, transfering_state}
use elastos_net_carrier_nati.FileTransfer.Moves.{not-false}
use elastos_net_carrier_nati.FileTransfer.Calls.{
  is_empty, pull_slot, ela_filetransfer_pull, send_slot, ela_filetransfer_send, cancel_slot,
  ela_filetransfer_cancel, pend_slot, ela_filetransfer_pend, resume_slot, ela_filetransfer_resume,
}

-- What a slot must be for a call.
abbrev pub Waits : ℕ → FileTransferItem → Type 0
Waits offset x = (x.state ≡ standby) × (offset < x.filesz)

abbrev pub Runs : ℕ → FileTransferItem → Type 0
Runs size x = (x.state ≡ transfering) × (size ≤ x.filesz)

abbrev pub Used : FileTransferItem → Type 0
Used x = x.state ≢ FileState.none

abbrev pub IsStandby : FileTransferItem → Type 0
IsStandby x = x.state ≡ standby

abbrev pub IsTransfering : FileTransferItem → Type 0
IsTransfering x = x.state ≡ transfering

-- A call is refused with an error, and the transfer and the world below it are as they were; or the
-- transfer is connected, the caller has the right role, and the file has a slot that allows the call.
pub data Verdict {env : Env} (ft : ElaFileTransfer env) (r : Rc × ElaFileTransfer env)
    (fileid : List ℕ) (role : Bool) (allows : FileTransferItem → Type 0) : Type 0 where
  refused : (e : ℕ) → r ≡ (err e, ft) → Verdict ft r fileid role allows
  allowed :
      (i : ℕ) (x : FileTransferItem)
      → get_fileinfo_fileid ft.files fileid ≡ some (i, x)
      → role ≡ true
      → is_connected ft ≡ true
      → allows x
      → Verdict ft r fileid role allows

module _ {env : Env} (ft : ElaFileTransfer env) (fileid : List ℕ) where
  module _ (role : Bool) (allows : FileTransferItem → Type 0) where
    abbrev V : Rc × ElaFileTransfer env → Type 0
    V r = Verdict ft r fileid role allows

    -- The guards that all calls share.
    guarded :
        (i e1 e2 e3 : ℕ) (x : FileTransferItem) (fits : Bool) (r : Rc × ElaFileTransfer env)
        → get_fileinfo_fileid ft.files fileid ≡ some (i, x)
        → (fits ≡ true → allows x)
        → V (
            if not role
            then (err e1, ft)
            else if not (is_connected ft)
            then (err e2, ft)
            else if not fits
            then (err e3, ft)
            else r)
    guarded i e1 e2 e3 x fits r found ok_state =
        if_cases V (not role) (λ b. refused e1 refl)
          (λ b.
            if_cases V (not (is_connected ft)) (λ c. refused e2 refl)
              (λ c.
                if_cases V (not fits) (λ d. refused e3 refl)
                  (λ d.
                    allowed i x found (not-false _ b) (not-false _ c) (ok_state (not-false _ d)))))

  pull-Verdict :
      (offset : ℕ) (o : Option (ℕ × FileTransferItem))
      → get_fileinfo_fileid ft.files fileid ≡ o
      → Verdict ft (pull_slot ft offset o) fileid (is_receiver ft) (Waits offset)
  unfolding pull_slot
  pull-Verdict offset Option.none e = refused _ refl
  pull-Verdict offset (some (i, x)) e =
      if_cases (V (is_receiver ft) (Waits offset)) (leb x.filesz offset) (λ b. refused _ refl)
        (λ b.
          guarded (is_receiver ft) (Waits offset) i _ _ _ x (is_standby x) _ e
            (λ d. (standby_state x d, ground arith)))

  send-Verdict :
      (data_ : List ℕ) (o : Option (ℕ × FileTransferItem))
      → get_fileinfo_fileid ft.files fileid ≡ o
      → Verdict ft (send_slot ft data_ o) fileid (is_sender ft) (Runs (length data_))
  unfolding send_slot
  send-Verdict data_ Option.none e = refused _ refl
  send-Verdict data_ (some (i, x)) e =
      if_cases (V (is_sender ft) (Runs (length data_))) (ltb x.filesz (length data_))
        (λ b. refused _ refl)
        (λ b.
          guarded (is_sender ft) (Runs (length data_)) i _ _ _ x (is_transfering x) _ e
            (λ d. (transfering_state x d, le_of_ltb-false x.filesz (length data_) b)))

  cancel-Verdict :
      (status : ℕ) (reason : List ℕ) (o : Option (ℕ × FileTransferItem))
      → get_fileinfo_fileid ft.files fileid ≡ o
      → Verdict ft (cancel_slot ft status reason o) fileid (is_receiver ft) Used
  unfolding cancel_slot
  cancel-Verdict status reason Option.none e = refused _ refl
  cancel-Verdict status reason (some (i, x)) e =
      if_cases P (not (is_receiver ft)) (λ b. refused _ refl)
        (λ b.
          if_cases P (not (is_connected ft)) (λ c. refused _ refl)
            (λ c.
              if_cases P (is_free x) (λ d. refused _ refl)
                (λ d.
                  allowed i x e (not-false _ b) (not-false _ c)
                    (λ s. ground (arith, ap is_none_state s)))))
    where
      P : Rc × ElaFileTransfer env → Type 0
      P = V (is_receiver ft) Used

  pend-Verdict :
      (o : Option (ℕ × FileTransferItem))
      → get_fileinfo_fileid ft.files fileid ≡ o
      → Verdict ft (pend_slot ft o) fileid (is_receiver ft) IsTransfering
  unfolding pend_slot
  pend-Verdict Option.none e = refused _ refl
  pend-Verdict (some (i, x)) e =
      guarded (is_receiver ft) IsTransfering i _ _ _ x (is_transfering x) _ e (transfering_state x)

  resume-Verdict :
      (o : Option (ℕ × FileTransferItem))
      → get_fileinfo_fileid ft.files fileid ≡ o
      → Verdict ft (resume_slot ft o) fileid (is_receiver ft) IsStandby
  unfolding resume_slot
  resume-Verdict Option.none e = refused _ refl
  resume-Verdict (some (i, x)) e =
      guarded (is_receiver ft) IsStandby i _ _ _ x (is_standby x) _ e (standby_state x)

  named_call :
      (role : Bool) (allows : FileTransferItem → Type 0) (n : ℕ) (r : Rc × ElaFileTransfer env)
      → Verdict ft r fileid role allows
      → Verdict ft (if is_empty fileid then (err n, ft) else r) fileid role allows
  named_call role allows n r v =
      if_cases (V role allows) (is_empty fileid) (λ b. refused n refl) (λ b. v)

  -- Pull, send, cancel, pend and resume: each is refused with an error that changes nothing and sends
  -- nothing, or the transfer is connected and the file has a slot, and: to pull, the caller is the
  -- receiver, the file waits and the offset is inside it; to send, the caller is the sender, the
  -- transfer of the file runs and the data is no longer than the file; to cancel, the caller is the
  -- receiver and the slot is in use; to pend and to resume, the caller is the receiver, and the
  -- transfer runs or waits.
  pub calls-Verdict :
      (offset status : ℕ) (data_ reason : List ℕ)
      → Verdict ft (ela_filetransfer_pull ft fileid offset) fileid (is_receiver ft) (Waits offset)
        × Verdict ft
            (ela_filetransfer_send ft fileid data_)
            fileid
            (is_sender ft)
            (Runs (length data_))
        × Verdict ft (ela_filetransfer_cancel ft fileid status reason) fileid (is_receiver ft) Used
        × Verdict ft (ela_filetransfer_pend ft fileid) fileid (is_receiver ft) IsTransfering
        × Verdict ft (ela_filetransfer_resume ft fileid) fileid (is_receiver ft) IsStandby
  unfolding ela_filetransfer_pull ela_filetransfer_send ela_filetransfer_cancel
      ela_filetransfer_pend ela_filetransfer_resume
  calls-Verdict offset status data_ reason = (
    named_call _ _ _ _ (pull-Verdict offset _ refl),
    named_call _ _ _ _ (send-Verdict data_ _ refl),
    named_call _ _ _ _ (cancel-Verdict status reason _ refl),
    named_call _ _ _ _ (pend-Verdict _ refl),
    named_call _ _ _ _ (resume-Verdict _ refl),
  )
