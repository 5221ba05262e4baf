-- ===== src/EasyFile/Tests.antt =====
-- A disk and a session that keep their bytes, and a file sent and received over them.
use elastos_net_carrier_nati.Base.{
  ℕ, refl, List, [], ◌∷◌, ◌++◌, true, false, none, some, arith, length, take, drop,
}
use elastos_net_carrier_nati.Mux.Channel.{ok}
use elastos_net_carrier_nati.FileTransfer.Data.{
  FileTransferItem, ElaFileTransferCallbacks, Env, Connection, Role, sender, receiver, transfering,
  zero_item, get_fileinfo_fileid, find_item,
}
use elastos_net_carrier_nati.FileTransfer.Exchange.{taken_slot}
use elastos_net_carrier_nati.EasyFile.{Stdio, EasyFile, sending_file_routine}
use elastos_net_carrier_nati.EasyFile.Sending.{Watch, Sends, Sent, sending_file_routine-Sent}
use elastos_net_carrier_nati.EasyFile.Receiving.{
  Keeps, Received, receive_pieces, receive_pieces-Received,
}

-- What was written on the channel, what is left to read, and what was written to the local file.
pub record Disk : Type 0 where
  pub written : List ℕ
  pub rest : List ℕ
  pub stored : List ℕ

abbrev disk : Env
disk = record {
  World = Disk;
  ela_stream_open_channel = λ cookie w. (ok 7, w);
  ela_stream_write_channel =
      λ c data_ w. (ok (length data_), record w { written = w.written ++ data_ });
  ela_stream_pend_channel = λ c w. (ok 0, w);
  ela_stream_resume_channel = λ c w. (ok 0, w);
  ela_session_new = λ address w. (ok 0, w);
  ela_session_request = λ bundle w. (ok 0, w);
  ela_session_reply_request = λ bundle accepted w. (ok 0, w);
  ela_session_start = λ sdp w. (ok 0, w);
  ela_session_add_stream = λ w. (ok 1, w);
  ela_session_remove_stream = λ stream w. w;
  ela_session_close = λ w. w;
  extension = λ w. true;
  filereqs_remove = λ address w. (none, w);
  alloc = λ w. (true, w);
  ela_filetransfer_fileid = λ w. (70 ∷ [], w);
  basename = λ path. some path;
  ela_id_is_valid = λ id. true;
  stack = λ i. 0;
}

abbrev io : Stdio Disk
io = record {
  fseek = λ offset w. (none, w);
  fread = λ len w. (take len w.rest, record w { rest = drop len w.rest });
  fwrite = λ data_ w. record w { stored = w.stored ++ data_ };
  finish = λ name w. w;
  pthread_create = λ w. (false, w);
  einval = 22;
  erange = 34;
  strerror = λ e. e ∷ [];
}

abbrev no_callbacks : ElaFileTransferCallbacks disk
no_callbacks = record {
  state_changed = none;
  file = none;
  pull = none;
  data_ = none;
  pending = none;
  resume = none;
  cancel = none;
}

-- The file "F" of three bytes, on channel 7.
abbrev running_slot : FileTransferItem
running_slot = record (taken_slot zero_item 7 (97 ∷ []) (70 ∷ []) 3) { state = transfering }

abbrev easy : Role → Disk → EasyFile disk
easy role w = record {
  ft = record {
    address = 65 ∷ [];
    files = running_slot ∷ zero_item ∷ zero_item ∷ zero_item ∷ zero_item ∷ [];
    stream = ok 1;
    error = 0;
    state = Connection.connected;
    callbacks = no_callbacks;
    sdp = [];
    sender_receiver = role;
    ready_to_connect = true;
    world = w;
  };
  fileid = 70 ∷ [];
  filename = 97 ∷ [];
  filesz = 3;
  offset = 1;
  open_ = true;
  sys_errno = 0;
  carrier_errno = 0;
  released = false;
  state_changed = none;
  sent = none;
  received = none;
}

abbrev two_left : Disk
two_left = record { written = []; rest = 12 ∷ 13 ∷ []; stored = 11 ∷ [] }

disk-Watch : Watch {env = disk} io (easy sender two_left) Disk.written Disk.rest
disk-Watch = record {
  write_adds = λ c data_ w n e. refl;
  write_keeps = λ c data_ w. refl;
  read_takes = λ len w h. refl;
  read_drops = λ len w h. refl;
  read_keeps = λ len w. refl;
  sent_keeps = λ n m w. (refl, refl);
}

easy-Sends : Sends (easy sender two_left) 0 running_slot
unfolding get_fileinfo_fileid find_item
easy-Sends = record {
  named = refl;
  found = refl;
  role = refl;
  connected = refl;
  running = refl;
  same_size = refl;
  word_size = omega arith;
}

sending_file_routine-Sent_example :
    Sent {env = disk} Disk.written Disk.rest two_left
      (sending_file_routine io 2 (easy sender two_left))
sending_file_routine-Sent_example =
    sending_file_routine-Sent io (easy sender two_left) 0 running_slot Disk.written Disk.rest 2
      two_left easy-Sends disk-Watch refl refl (omega arith) (omega arith)

disk-Keeps : Keeps disk io none Disk.stored
disk-Keeps = record {
  write_adds = λ data_ w. refl;
  finish_keeps = λ name w. refl;
  remove_keeps = λ address w. refl;
  reply_keeps = λ bundle accepted w. refl;
  stream_keeps = λ n w. refl;
  session_keeps = λ w. refl;
  received_keeps = λ n m w. refl;
}

receive_pieces-Received_example :
    Received {env = disk} Disk.stored
      (11 ∷ 12 ∷ 13 ∷ [])
      (receive_pieces io ((12 ∷ []) ∷ (13 ∷ []) ∷ []) (70 ∷ []) (easy receiver two_left))
receive_pieces-Received_example =
    receive_pieces-Received io none Disk.stored disk-Keeps ((12 ∷ []) ∷ (13 ∷ []) ∷ []) (70 ∷ [])
      (easy receiver two_left) refl refl (omega arith, (omega arith, tt)) refl (omega arith)
      (omega arith)
