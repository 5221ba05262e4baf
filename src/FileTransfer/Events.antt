-- ===== src/FileTransfer/Events.antt =====
-- What `stream_channel_…` of src/filetransfer/filetransfer.c do on the events of a channel. The
-- assertions, which say that the transfer is connected, are left out; an event function returns the
-- answer of the source, if it has one, and the transfer afterwards.
use elastos_net_carrier_nati.Base.{
  ℕ, List, Bool, true, false, not, Option, some, ◌==◌, if◌then◌else◌,
}
use elastos_net_carrier_nati.Mux.Channel.{ok}
use elastos_net_carrier_nati.FileTransfer.Data.{
  FileState, FileTransferItem, ElaFileTransfer, Env, standby, transfering, is_sender, is_receiver,
  is_standby, is_transfering, get_fileinfo_free, get_fileinfo_channel, get_fileinfo_fileid,
  put_file, tell,
}
use elastos_net_carrier_nati.FileTransfer.Cookie.{FileOffer, parse_cookie}
use elastos_net_carrier_nati.FileTransfer.Packet.{
  packet_pull, packet_cancel, packet_type, pull_offset, cancel_status, cancel_reason,
}

module _ {env : Env} where
  open env use {World, alloc}

  -- A file that the receiver does not know yet takes a free slot. `strdup` may fail.
  unfoldable pub open_new_file :
      ElaFileTransfer env
      → ℕ
      → FileOffer
      → Option (ℕ × FileTransferItem)
      → Bool × ElaFileTransfer env
  unfolding put_file
  open_new_file ft channel offer Option.none = (false, ft)
  open_new_file ft channel offer (some (i, x)) =
      let (allocated, w) = alloc ft.world in
      let item : FileTransferItem = record x {
        fileid = offer.fileid;
        filename = if allocated then some offer.filename else Option.none;
        filesz = offer.size;
        channel = ok channel;
        state = standby;
      } in
      (true, put_file (record ft { world = w }) i item)

  -- A file that the receiver knows, from the connection request, takes the channel.
  unfoldable pub open_file :
      ElaFileTransfer env
      → ℕ
      → FileOffer
      → Option (ℕ × FileTransferItem)
      → Bool × ElaFileTransfer env
  unfolding open_new_file get_fileinfo_free put_file
  open_file ft channel offer Option.none =
      open_new_file ft channel offer (get_fileinfo_free ft.files)
  open_file ft channel offer (some (i, x)) =
      if not (is_standby x)
      then (false, ft)
      else if not (x.filesz == offer.size)
      then (false, ft)
      else (true, put_file ft i (record x { channel = ok channel }))

  unfoldable pub open_offer :
      ElaFileTransfer env → ℕ → Option FileOffer → Bool × ElaFileTransfer env
  unfolding open_file get_fileinfo_fileid
  open_offer ft channel Option.none = (false, ft)
  open_offer ft channel (some offer) =
      open_file ft channel offer (get_fileinfo_fileid ft.files offer.fileid)

  -- `stream_channel_open`
  unfoldable pub stream_channel_open :
      ElaFileTransfer env → ℕ → Option (List ℕ) → Bool × ElaFileTransfer env
  unfolding open_offer parse_cookie
  stream_channel_open ft channel Option.none = (false, ft)
  stream_channel_open ft channel (some cookie) =
      if not (is_receiver ft) then (false, ft) else open_offer ft channel (parse_cookie cookie)

  unfoldable pub opened_file :
      ElaFileTransfer env → Option (ℕ × FileTransferItem) → ElaFileTransfer env
  unfolding tell
  opened_file ft Option.none = ft
  opened_file ft (some (i, x)) = tell ft ft.callbacks.file (λ f. f x.fileid x.filename x.filesz)

  -- `stream_channel_opened`
  unfoldable pub stream_channel_opened : ElaFileTransfer env → ℕ → ElaFileTransfer env
  unfolding opened_file get_fileinfo_channel
  stream_channel_opened ft channel =
      if not (is_receiver ft) then ft else opened_file ft (get_fileinfo_channel ft.files channel)

  unfoldable pub closed_file :
      ElaFileTransfer env → Option (ℕ × FileTransferItem) → ElaFileTransfer env
  unfolding put_file
  closed_file ft Option.none = ft
  closed_file ft (some (i, x)) =
      put_file ft i (record x { state = FileState.none; filename = Option.none })

  -- `stream_channel_close`. The id, the size and the channel stay in the slot.
  unfoldable pub stream_channel_close : ElaFileTransfer env → ℕ → ElaFileTransfer env
  unfolding closed_file get_fileinfo_channel
  stream_channel_close ft channel = closed_file ft (get_fileinfo_channel ft.files channel)

  -- `PACKET_PULL` at the sender
  unfoldable pub sender_pull :
      ElaFileTransfer env → ℕ → FileTransferItem → List ℕ → Bool × ElaFileTransfer env
  unfolding put_file tell pull_offset
  sender_pull ft i x data_ = if not (is_standby x) then (false, ft) else (
    true,
    tell (put_file ft i (record x { state = transfering })) ft.callbacks.pull
        (λ f. f x.fileid (pull_offset data_)),
  )

  -- `PACKET_CANCEL` at the sender; the answer `false` closes the channel.
  unfoldable pub sender_cancel :
      ElaFileTransfer env → ℕ → FileTransferItem → List ℕ → Bool × ElaFileTransfer env
  unfolding put_file tell cancel_status cancel_reason
  sender_cancel ft i x data_ = (
    false,
    tell (put_file ft i (record x { state = FileState.none })) ft.callbacks.cancel
        (λ f. f x.fileid (cancel_status data_) (cancel_reason data_)),
  )

  -- Data at the receiver; `false` of the application, which ends the transfer, closes the channel.
  unfoldable pub ask_more :
      ElaFileTransfer env
      → Option (List ℕ → List ℕ → World → Bool × World)
      → List ℕ
      → List ℕ
      → Bool × ElaFileTransfer env
  ask_more ft Option.none fileid data_ = (true, ft)
  ask_more ft (some f) fileid data_ =
      let (more, w) = f fileid data_ ft.world in (more, record ft { world = w })

  unfoldable pub receiver_data :
      ElaFileTransfer env → FileTransferItem → List ℕ → Bool × ElaFileTransfer env
  unfolding ask_more
  receiver_data ft x data_ =
      if not (is_transfering x) then (true, ft) else ask_more ft ft.callbacks.data_ x.fileid data_

  unfoldable pub data_on_file :
      ElaFileTransfer env → List ℕ → Option (ℕ × FileTransferItem) → Bool × ElaFileTransfer env
  unfolding sender_pull sender_cancel receiver_data packet_type
  data_on_file ft data_ Option.none = (false, ft)
  data_on_file ft data_ (some (i, x)) =
      let from_receiver =
        if packet_type data_ == packet_pull
        then sender_pull ft i x data_
        else if packet_type data_ == packet_cancel
        then sender_cancel ft i x data_
        else (false, ft) in
      if is_sender ft
      then from_receiver
      else if is_receiver ft
      then receiver_data ft x data_
      else (true, ft)

  -- `stream_channel_data`
  unfoldable pub stream_channel_data : ElaFileTransfer env → ℕ → List ℕ → Bool × ElaFileTransfer env
  unfolding data_on_file get_fileinfo_channel
  stream_channel_data ft channel data_ =
      data_on_file ft data_ (get_fileinfo_channel ft.files channel)

  unfoldable pub pending_file :
      ElaFileTransfer env → Option (ℕ × FileTransferItem) → ElaFileTransfer env
  unfolding put_file tell
  pending_file ft Option.none = ft
  pending_file ft (some (i, x)) =
      if not (is_transfering x)
      then ft
      else put_file (tell ft ft.callbacks.pending (λ f. f x.fileid)) i
          (record x { state = standby })

  -- `stream_channel_pending`
  unfoldable pub stream_channel_pending : ElaFileTransfer env → ℕ → ElaFileTransfer env
  unfolding pending_file get_fileinfo_channel
  stream_channel_pending ft channel =
      if not (is_sender ft) then ft else pending_file ft (get_fileinfo_channel ft.files channel)

  unfoldable pub resumed_file :
      ElaFileTransfer env → Option (ℕ × FileTransferItem) → ElaFileTransfer env
  unfolding put_file tell
  resumed_file ft Option.none = ft
  resumed_file ft (some (i, x)) =
      if not (is_standby x)
      then ft
      else put_file (tell ft ft.callbacks.resume (λ f. f x.fileid)) i
          (record x { state = transfering })

  -- `stream_channel_resume`
  unfoldable pub stream_channel_resume : ElaFileTransfer env → ℕ → ElaFileTransfer env
  unfolding resumed_file get_fileinfo_channel
  stream_channel_resume ft channel =
      if not (is_sender ft) then ft else resumed_file ft (get_fileinfo_channel ft.files channel)
