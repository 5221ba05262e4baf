-- ===== src/FileTransfer/Delivery.antt =====
-- The pull and cancel packets: what the receiver's calls of src/filetransfer/filetransfer.c write, the
-- sender's event reads.
use elastos_net_carrier_nati.Base.{
  ℕ, ◌^◌, ◌<◌, ◌≡◌, refl, ◌∙◌, ap, ap₂, List, true, false, some, leb,
}
use elastos_net_carrier_nati.Mux.Channel.{ok}
use elastos_net_carrier_nati.FileTransfer.Data.{
  FileState, FileTransferItem, ElaFileTransfer, Env, transfering, is_sender, is_receiver,
  is_connected, is_free, is_standby, get_fileinfo_channel, get_fileinfo_fileid, put_file, tell,
}
use elastos_net_carrier_nati.FileTransfer.Packet.{
  packet_pull, packet_cancel, packet_type, pull_bytes, pull_offset, cancel_bytes, cancel_status,
  cancel_reason, pull_bytes_fields, cancel_bytes_fields, HasNoZero,
}
use elastos_net_carrier_nati.FileTransfer.Events.{
  sender_pull, sender_cancel, data_on_file, stream_channel_data,
}
use elastos_net_carrier_nati.FileTransfer.Calls.{
  is_empty, write_on, moved, pull_slot, ela_filetransfer_pull, cancel_slot, ela_filetransfer_cancel,
}

module _ {env : Env} (ft : ElaFileTransfer env) where
  pull_packet :
      (i : ℕ) (x : FileTransferItem) (data_ : List ℕ)
      → is_sender ft ≡ true
      → is_standby x ≡ true
      → packet_type data_ ≡ packet_pull
      → data_on_file ft data_ (some (i, x)) ≡ (
        true,
        tell
            (put_file ft i (record x { state = transfering }))
            ft.callbacks.pull
            (λ f. f x.fileid (pull_offset data_)),
      )
  unfolding data_on_file sender_pull
  pull_packet i x data_ s b t = rw (s, t, b) refl

  cancel_packet :
      (i : ℕ) (x : FileTransferItem) (data_ : List ℕ)
      → is_sender ft ≡ true
      → packet_type data_ ≡ packet_cancel
      → data_on_file ft data_ (some (i, x)) ≡ (
        false,
        tell
            (put_file ft i (record x { state = FileState.none }))
            ft.callbacks.cancel
            (λ f. f x.fileid (cancel_status data_) (cancel_reason data_)),
      )
  unfolding data_on_file sender_cancel
  cancel_packet i x data_ s t = rw (s, t) refl

  stream_channel_data-found :
      (c : ℕ) (data_ : List ℕ) (i : ℕ) (x : FileTransferItem)
      → get_fileinfo_channel ft.files c ≡ some (i, x)
      → stream_channel_data ft c data_ ≡ data_on_file ft data_ (some (i, x))
  unfolding stream_channel_data
  stream_channel_data-found c data_ i x e = rw e refl

  pull_written :
      (fileid : List ℕ) (offset i n : ℕ) (x : FileTransferItem)
      → is_empty fileid ≡ false
      → get_fileinfo_fileid ft.files fileid ≡ some (i, x)
      → leb x.filesz offset ≡ false
      → is_receiver ft ≡ true
      → is_connected ft ≡ true
      → is_standby x ≡ true
      → (env.ela_stream_write_channel x.channel (pull_bytes env.stack offset) ft.world).0 ≡ ok n
      → ela_filetransfer_pull ft fileid offset ≡ (
        ok 0,
        put_file
            (record ft {
              world =
                  (env.ela_stream_write_channel x.channel (pull_bytes env.stack offset) ft.world).1;
            })
            i
            (record x { state = transfering }),
      )
  unfolding ela_filetransfer_pull pull_slot moved write_on
  pull_written fileid offset i n x named found inside r c s w =
      rw (named, found, inside, r, c, s, w) refl

  cancel_written :
      (fileid : List ℕ) (status : ℕ) (reason : List ℕ) (i n : ℕ) (x : FileTransferItem)
      → is_empty fileid ≡ false
      → get_fileinfo_fileid ft.files fileid ≡ some (i, x)
      → is_receiver ft ≡ true
      → is_connected ft ≡ true
      → is_free x ≡ false
      → (env.ela_stream_write_channel x.channel (cancel_bytes env.stack status reason) ft.world).0
        ≡ ok n
      → ela_filetransfer_cancel ft fileid status reason ≡ (
        ok 0,
        record ft {
          world =
              (env.ela_stream_write_channel x.channel
                (cancel_bytes env.stack status reason)
                ft.world).1;
        },
      )
  unfolding ela_filetransfer_cancel cancel_slot write_on
  cancel_written fileid status reason i n x named found r c s w = rw (named, found, r, c, s, w) refl

  sender_pulled :
      (pad : ℕ → ℕ) (c offset i : ℕ) (x : FileTransferItem)
      → offset < 2 ^ 64
      → is_sender ft ≡ true
      → get_fileinfo_channel ft.files c ≡ some (i, x)
      → is_standby x ≡ true
      → stream_channel_data ft c (pull_bytes pad offset) ≡ (
        true,
        tell
            (put_file ft i (record x { state = transfering }))
            ft.callbacks.pull
            (λ f. f x.fileid offset),
      )
  sender_pulled pad c offset i x h s found waits =
      stream_channel_data-found c _ i x found
      ∙ pull_packet i x _ s waits (pull_bytes_fields pad offset h).0
      ∙ ap
          (λ o. (
            true,
            tell (put_file ft i (record x { state = transfering })) ft.callbacks.pull
                (λ f. f x.fileid o),
          ))
          (pull_bytes_fields pad offset h).1

  sender_cancelled :
      (pad : ℕ → ℕ) (c status : ℕ) (reason : List ℕ) (i : ℕ) (x : FileTransferItem)
      → status < 2 ^ 32
      → HasNoZero reason
      → is_sender ft ≡ true
      → get_fileinfo_channel ft.files c ≡ some (i, x)
      → stream_channel_data ft c (cancel_bytes pad status reason) ≡ (
        false,
        tell
            (put_file ft i (record x { state = FileState.none }))
            ft.callbacks.cancel
            (λ f. f x.fileid status reason),
      )
  sender_cancelled pad c status reason i x h z s found =
      let (t, u, v) = cancel_bytes_fields pad status reason h z in
      stream_channel_data-found c _ i x found
      ∙ cancel_packet i x _ s t
      ∙ ap₂
          (λ n r. (
            false,
            tell (put_file ft i (record x { state = FileState.none })) ft.callbacks.cancel
                (λ f. f x.fileid n r),
          ))
          u v

-- What holds of the receiver when it pulls or cancels a file: it is connected, and has a slot for the
-- file in a state that allows the call.
pub record Receives {env : Env} (ft : ElaFileTransfer env) (fileid : List ℕ) (i : ℕ)
    (x : FileTransferItem) : Type 0 where
  pub named : is_empty fileid ≡ false
  pub found : get_fileinfo_fileid ft.files fileid ≡ some (i, x)
  pub role : is_receiver ft ≡ true
  pub connected : is_connected ft ≡ true

-- A pull of a file that waits, at an offset inside it, that the session writes: the receiver's slot
-- is transfering, and the sender, when it gets what was written on the channel of a file that waits
-- there, is transfering too and is asked by its application's callback for the offset of the call.
pub ela_filetransfer_pull-stream_channel_data :
    {env env' : Env} (rt : ElaFileTransfer env) (st : ElaFileTransfer env') (fileid : List ℕ)
    (offset i n c j : ℕ) (x y : FileTransferItem)
    → offset < 2 ^ 64
    → Receives rt fileid i x
    → leb x.filesz offset ≡ false
    → is_standby x ≡ true
    → (env.ela_stream_write_channel x.channel (pull_bytes env.stack offset) rt.world).0 ≡ ok n
    → is_sender st ≡ true
    → get_fileinfo_channel st.files c ≡ some (j, y)
    → is_standby y ≡ true
    → (ela_filetransfer_pull rt fileid offset ≡ (
      ok 0,
      put_file
          (record rt {
            world =
                (env.ela_stream_write_channel x.channel (pull_bytes env.stack offset) rt.world).1;
          })
          i
          (record x { state = transfering }),
    ))
      × (stream_channel_data st c (pull_bytes env.stack offset) ≡ (
        true,
        tell
            (put_file st j (record y { state = transfering }))
            st.callbacks.pull
            (λ f. f y.fileid offset),
      ))
ela_filetransfer_pull-stream_channel_data {env = env} rt st fileid offset i n c j x y h r inside
      waits w s found waits' =
    (
      pull_written rt fileid offset i n x r.named r.found inside r.role r.connected waits w,
      sender_pulled st env.stack c offset j y h s found waits',
    )

-- A cancellation of a file in use that the session writes, with a status of 32 bits and a reason that
-- is a C string: the sender, when it gets what was written on the file's channel, gives its slot up,
-- asks for the channel to be closed, and tells its application the status and the reason of the call.
pub ela_filetransfer_cancel-stream_channel_data :
    {env env' : Env} (rt : ElaFileTransfer env) (st : ElaFileTransfer env') (fileid : List ℕ)
    (status : ℕ) (reason : List ℕ) (i n c j : ℕ) (x y : FileTransferItem)
    → status < 2 ^ 32
    → HasNoZero reason
    → Receives rt fileid i x
    → is_free x ≡ false
    → (env.ela_stream_write_channel x.channel (cancel_bytes env.stack status reason) rt.world).0
      ≡ ok n
    → is_sender st ≡ true
    → get_fileinfo_channel st.files c ≡ some (j, y)
    → (ela_filetransfer_cancel rt fileid status reason ≡ (
      ok 0,
      record rt {
        world =
            (env.ela_stream_write_channel x.channel
              (cancel_bytes env.stack status reason)
              rt.world).1;
      },
    ))
      × (stream_channel_data st c (cancel_bytes env.stack status reason) ≡ (
        false,
        tell
            (put_file st j (record y { state = FileState.none }))
            st.callbacks.cancel
            (λ f. f y.fileid status reason),
      ))
ela_filetransfer_cancel-stream_channel_data {env = env} rt st fileid status reason i n c j x y h z r
      used w s found =
    (
      cancel_written rt fileid status reason i n x r.named r.found r.role r.connected used w,
      sender_cancelled st env.stack c status reason j y h z s found,
    )
