-- ===== src/FileTransfer/Tests.antt =====
-- A session that writes everything down, and runs of src/filetransfer/filetransfer.c on it.
use elastos_net_carrier_nati.Base.{
  ℕ, ◌≡◌, refl, List, [], ◌∷◌, true, false, Option, some, arith, length,
}
use elastos_net_carrier_nati.Mux.Channel.{ok}
use elastos_net_carrier_nati.FileTransfer.Data.{
  FileState, FileTransferItem, ElaFileTransferCallbacks, ElaFileTransfer, Env, Role, Connection,
  sender, receiver, transfering, zero_item, get_fileinfo_free, get_fileinfo_channel,
  get_fileinfo_fileid, find_item, put_file, tell,
}
use elastos_net_carrier_nati.FileTransfer.Cookie.{
  IsWord, HasNoSpace, file_cookie, parse_offer, parse_reply, reply_bundle, parse_offer-parse_reply,
}
use elastos_net_carrier_nati.FileTransfer.Packet.{pull_bytes, cancel_bytes, HasNoZero}
use elastos_net_carrier_nati.FileTransfer.Slots.{Changes}
use elastos_net_carrier_nati.FileTransfer.Events.{
  stream_channel_open, stream_channel_close, stream_channel_data,
}
use elastos_net_carrier_nati.FileTransfer.Calls.{
  ela_filetransfer_pull, ela_filetransfer_cancel, ela_filetransfer_send, ela_filetransfer_pend,
  ela_filetransfer_resume,
}
use elastos_net_carrier_nati.FileTransfer.Exchange.{
  taken_slot, channel_open-cookie, channel_close-channel_open,
}
use elastos_net_carrier_nati.FileTransfer.Delivery.{
  Receives, ela_filetransfer_pull-stream_channel_data, ela_filetransfer_cancel-stream_channel_data,
}
use elastos_net_carrier_nati.FileTransfer.Guards.{
  Waits, Runs, Used, IsStandby, IsTransfering, Verdict, calls-Verdict,
}
use elastos_net_carrier_nati.FileTransfer.Run.{channel_close, step, step-Changes}

-- Everything succeeds; the world is what was written, the last first.
abbrev logged : Env
logged = record {
  World = List (List ℕ);
  ela_stream_open_channel = λ cookie w. (ok 7, cookie ∷ w);
  ela_stream_write_channel = λ c data_ w. (ok (length data_), data_ ∷ w);
  ela_stream_pend_channel = λ c w. (ok 0, w);
  ela_stream_resume_channel = λ c w. (ok 0, w);
  ela_session_new = λ address w. (ok 0, w);
  ela_session_request = λ bundle w. (ok 0, bundle ∷ w);
  ela_session_reply_request = λ bundle accepted w. (ok 0, bundle ∷ w);
  ela_session_start = λ sdp w. (ok 0, w);
  ela_session_add_stream = λ w. (ok 1, w);
  ela_session_remove_stream = λ stream w. w;
  ela_session_close = λ w. w;
  extension = λ w. true;
  filereqs_remove = λ address w. (Option.none, w);
  alloc = λ w. (true, w);
  ela_filetransfer_fileid = λ w. (70 ∷ [], w);
  basename = λ path. some path;
  ela_id_is_valid = λ id. true;
  stack = λ i. 0;
}

abbrev quiet : ElaFileTransferCallbacks logged
quiet = record {
  state_changed = Option.none;
  file = Option.none;
  pull = some (λ id offset w. (offset ∷ id) ∷ w);
  data_ = Option.none;
  pending = Option.none;
  resume = Option.none;
  cancel = some (λ id status reason w. reason ∷ w);
}

-- The file "F" of 10 bytes, named "a", on channel 7.
abbrev waiting : FileTransferItem
waiting = taken_slot zero_item 7 (97 ∷ []) (70 ∷ []) 10

abbrev transfer : Role → List FileTransferItem → ElaFileTransfer logged
transfer role files = record {
  address = 65 ∷ [];
  files = files;
  stream = ok 1;
  error = 0;
  state = Connection.connected;
  callbacks = quiet;
  sdp = [];
  sender_receiver = role;
  ready_to_connect = true;
  world = [];
}

abbrev empty_slots : List FileTransferItem
empty_slots = zero_item ∷ zero_item ∷ zero_item ∷ zero_item ∷ zero_item ∷ []

abbrev one_file : List FileTransferItem
one_file = waiting ∷ zero_item ∷ zero_item ∷ zero_item ∷ zero_item ∷ []

F-IsWord : IsWord 45 (70 ∷ [])
unfolding HasNoSpace
F-IsWord = record { filled = omega arith; fits = omega arith; solid = (refl, tt) }

a-IsWord : IsWord 255 (97 ∷ [])
unfolding HasNoSpace
a-IsWord = record { filled = omega arith; fits = omega arith; solid = (refl, tt) }

F-Receives : Receives (transfer receiver one_file) (70 ∷ []) 0 waiting
unfolding get_fileinfo_fileid find_item
F-Receives = record { named = refl; found = refl; role = refl; connected = refl }

channel_open-cookie_example :
    stream_channel_open
      (transfer receiver empty_slots)
      7
      (some (file_cookie (97 ∷ []) (70 ∷ []) 10))
    ≡ (true, put_file (transfer receiver empty_slots) 0 waiting)
unfolding get_fileinfo_fileid get_fileinfo_free find_item
channel_open-cookie_example =
    channel_open-cookie (transfer receiver empty_slots) 7 (97 ∷ []) (70 ∷ []) 10 0 zero_item
      a-IsWord F-IsWord (omega arith) refl refl refl refl

channel_close-channel_open_example :
    stream_channel_open
      (stream_channel_close (transfer receiver one_file) 7)
      8
      (some (file_cookie (97 ∷ []) (70 ∷ []) 10))
    ≡ (false, stream_channel_close (transfer receiver one_file) 7)
unfolding get_fileinfo_channel get_fileinfo_fileid find_item
channel_close-channel_open_example =
    channel_close-channel_open (transfer receiver one_file) 7 8 0 waiting (97 ∷ []) 10 a-IsWord
      F-IsWord (omega arith) refl refl refl

pull-data_example :
    (ela_filetransfer_pull (transfer receiver one_file) (70 ∷ []) 3 ≡ (
      ok 0,
      put_file
          (record (transfer receiver one_file) { world = pull_bytes (λ i. 0) 3 ∷ [] })
          0
          (record waiting { state = transfering }),
    ))
    × (stream_channel_data (transfer sender one_file) 7 (pull_bytes (λ i. 0) 3) ≡ (
      true,
      tell
          (put_file (transfer sender one_file) 0 (record waiting { state = transfering }))
          quiet.pull
          (λ f. f (70 ∷ []) 3),
    ))
unfolding get_fileinfo_channel find_item pull_bytes
pull-data_example =
    ela_filetransfer_pull-stream_channel_data (transfer receiver one_file)
      (transfer sender one_file) (70 ∷ []) 3 0 16 7 0 waiting waiting (omega arith) F-Receives refl
      refl refl refl refl refl

cancel-data_example :
    (ela_filetransfer_cancel (transfer receiver one_file) (70 ∷ []) 5 (110 ∷ []) ≡ (
      ok 0,
      record (transfer receiver one_file) { world = cancel_bytes (λ i. 0) 5 (110 ∷ []) ∷ [] },
    ))
    × (stream_channel_data (transfer sender one_file) 7 (cancel_bytes (λ i. 0) 5 (110 ∷ [])) ≡ (
      false,
      tell
          (put_file (transfer sender one_file) 0 (record waiting { state = FileState.none }))
          quiet.cancel
          (λ f. f (70 ∷ []) 5 (110 ∷ [])),
    ))
unfolding get_fileinfo_channel find_item cancel_bytes HasNoZero
cancel-data_example =
    ela_filetransfer_cancel-stream_channel_data (transfer receiver one_file)
      (transfer sender one_file) (70 ∷ []) 5 (110 ∷ []) 0 13 7 0 waiting waiting (omega arith)
      (refl, tt) F-Receives refl refl refl refl

parse_offer-parse_reply_example :
    (parse_offer (file_cookie (97 ∷ []) (70 ∷ []) 10)
      ≡ some (record { filename = 97 ∷ []; fileid = 70 ∷ []; size = 10 }))
    × (parse_reply (reply_bundle (70 ∷ [])) ≡ some (70 ∷ []))
parse_offer-parse_reply_example =
    parse_offer-parse_reply (97 ∷ []) (70 ∷ []) 10 a-IsWord F-IsWord (omega arith)

step-Changes_example : Changes one_file (step (transfer receiver one_file) (channel_close 7)).files
step-Changes_example = step-Changes (transfer receiver one_file) (channel_close 7)

abbrev rt : ElaFileTransfer logged
rt = transfer receiver one_file

abbrev id : List ℕ
id = 70 ∷ []

calls-Verdict_example :
    Verdict rt (ela_filetransfer_pull rt id 3) id true (Waits 3)
    × Verdict rt (ela_filetransfer_send rt id (1 ∷ [])) id false (Runs 1)
    × Verdict rt (ela_filetransfer_cancel rt id 5 (110 ∷ [])) id true Used
    × Verdict rt (ela_filetransfer_pend rt id) id true IsTransfering
    × Verdict rt (ela_filetransfer_resume rt id) id true IsStandby
calls-Verdict_example = calls-Verdict rt id 3 5 (1 ∷ []) (110 ∷ [])
