-- ===== src/FileTransfer/Run.antt =====
-- A transfer as a machine: the events that the session reports and the calls of the application, in
-- any order.
use elastos_net_carrier_nati.Base.{ℕ, List, Bool, Option}
use elastos_net_carrier_nati.FileTransfer.Data.{
  ElaFileTransferInfo, ElaFileTransfer, Env, StreamState,
}
use elastos_net_carrier_nati.FileTransfer.Slots.{Changes}
use elastos_net_carrier_nati.FileTransfer.Events.{
  stream_channel_open, stream_channel_opened, stream_channel_close, stream_channel_data,
  stream_channel_pending, stream_channel_resume,
}
use elastos_net_carrier_nati.FileTransfer.Connection.{
  sessionreq_complete_callback, stream_state_changed, ela_filetransfer_connect,
  ela_filetransfer_accept_connect,
}
use elastos_net_carrier_nati.FileTransfer.Calls.{
  ela_filetransfer_add, ela_filetransfer_pull, ela_filetransfer_send, ela_filetransfer_cancel,
  ela_filetransfer_pend, ela_filetransfer_resume,
}
use elastos_net_carrier_nati.FileTransfer.Files.{ela_filetransfer_set_userdata}
use elastos_net_carrier_nati.FileTransfer.Moves.{
  same-Changes, stream_channel_open-Changes, stream_channel_opened-Changes,
  stream_channel_close-Changes, stream_channel_data-Changes, stream_channel_pending-Changes,
  stream_channel_resume-Changes,
}
use elastos_net_carrier_nati.FileTransfer.CallMoves.{
  ela_filetransfer_add-Changes, ela_filetransfer_pull-Changes, ela_filetransfer_send-Changes,
  ela_filetransfer_cancel-Changes, ela_filetransfer_pend-Changes, ela_filetransfer_resume-Changes,
  ela_filetransfer_set_userdata-Changes,
}
use elastos_net_carrier_nati.FileTransfer.StreamMoves.{
  stream_state_changed-Changes, completed, completed-files, connect-files, accept_connect-files,
}

-- What may happen to a transfer, with its arguments.
pub data Event : Type 0 where
  channel_open : ℕ → Option (List ℕ) → Event
  channel_opened channel_close channel_pending channel_resume : ℕ → Event
  channel_data : ℕ → List ℕ → Event
  state_changed : StreamState → Event
  request_completed : List ℕ → Bool → List ℕ → Event
  connect accept_connect : Event
  add : ElaFileTransferInfo → Event
  pull : List ℕ → ℕ → Event
  send : List ℕ → List ℕ → Event
  cancel : List ℕ → ℕ → List ℕ → Event
  pend resume : List ℕ → Event
  set_userdata : List ℕ → ℕ → Event

module _ {env : Env} where
  unfoldable pub step : ElaFileTransfer env → Event → ElaFileTransfer env
  unfolding stream_channel_open stream_channel_opened stream_channel_close stream_channel_data
      stream_channel_pending stream_channel_resume stream_state_changed sessionreq_complete_callback
      ela_filetransfer_connect ela_filetransfer_accept_connect ela_filetransfer_add
      ela_filetransfer_pull ela_filetransfer_send ela_filetransfer_cancel ela_filetransfer_pend
      ela_filetransfer_resume ela_filetransfer_set_userdata
  step ft (channel_open c cookie) = (stream_channel_open ft c cookie).1
  step ft (channel_opened c) = stream_channel_opened ft c
  step ft (channel_close c) = stream_channel_close ft c
  step ft (channel_pending c) = stream_channel_pending ft c
  step ft (channel_resume c) = stream_channel_resume ft c
  step ft (channel_data c data_) = (stream_channel_data ft c data_).1
  step ft (state_changed state) = stream_state_changed ft state
  step ft (request_completed bundle accepted sdp) =
      completed ft (sessionreq_complete_callback ft bundle accepted sdp)
  step ft connect = (ela_filetransfer_connect ft).1
  step ft accept_connect = (ela_filetransfer_accept_connect ft).1
  step ft (add info) = (ela_filetransfer_add ft info).1
  step ft (pull id offset) = (ela_filetransfer_pull ft id offset).1
  step ft (send id data_) = (ela_filetransfer_send ft id data_).1
  step ft (cancel id status reason) = (ela_filetransfer_cancel ft id status reason).1
  step ft (pend id) = (ela_filetransfer_pend ft id).1
  step ft (resume id) = (ela_filetransfer_resume ft id).1
  step ft (set_userdata id u) = (ela_filetransfer_set_userdata ft id u).1

  -- Every event of the session and every call of the application leaves the slots as they were, or
  -- changes one slot only, by a move of its state machine.
  pub step-Changes :
      (ft : ElaFileTransfer env) (event : Event) → Changes ft.files (step ft event).files
  unfolding step
  step-Changes ft (channel_open c cookie) = stream_channel_open-Changes ft c cookie
  step-Changes ft (channel_opened c) = stream_channel_opened-Changes ft c
  step-Changes ft (channel_close c) = stream_channel_close-Changes ft c
  step-Changes ft (channel_pending c) = stream_channel_pending-Changes ft c
  step-Changes ft (channel_resume c) = stream_channel_resume-Changes ft c
  step-Changes ft (channel_data c data_) = stream_channel_data-Changes ft c data_
  step-Changes ft (state_changed state) = stream_state_changed-Changes ft state
  step-Changes ft (request_completed bundle accepted sdp) =
      same-Changes _ _ (completed-files ft bundle accepted sdp)
  step-Changes ft connect = same-Changes _ _ (connect-files ft)
  step-Changes ft accept_connect = same-Changes _ _ (accept_connect-files ft)
  step-Changes ft (add info) = ela_filetransfer_add-Changes ft info
  step-Changes ft (pull id offset) = ela_filetransfer_pull-Changes ft id offset
  step-Changes ft (send id data_) = ela_filetransfer_send-Changes ft id data_
  step-Changes ft (cancel id status reason) = ela_filetransfer_cancel-Changes ft id status reason
  step-Changes ft (pend id) = ela_filetransfer_pend-Changes ft id
  step-Changes ft (resume id) = ela_filetransfer_resume-Changes ft id
  step-Changes ft (set_userdata id u) = ela_filetransfer_set_userdata-Changes ft id u
