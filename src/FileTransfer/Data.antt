-- ===== src/FileTransfer/Data.antt =====
-- The state of a file transfer, and what the code of src/filetransfer/filetransfer.c calls: the
-- session below it, the table of connection requests and the C library.
use elastos_net_carrier_nati.Base.{
  ℕ, zero, suc, List, [], ◌∷◌, Bool, true, false, Option, eq_bytes, leb, ◌==◌, if◌then◌else◌,
}
use elastos_net_carrier_nati.Mux.Channel.{Rc, ok, err}

abbrev pub ela_max_file_id_len : ℕ
ela_max_file_id_len = 45

-- The state of a slot: `FileTransferState_…`.
pub data FileState : Type 0 where
  none standby transfering finished : FileState

-- `sender_receiver`, which is 0 until the transfer is connected or accepted.
pub data Role : Type 0 where
  unset sender receiver : Role

-- `FileTransferConnection`
pub data Connection : Type 0 where
  initialized connecting connected closed failed : Connection

-- `struct FileTransferItem`. A channel is its number, or the negative number of an error.
pub record FileTransferItem : Type 0 where
  pub fileid : List ℕ
  pub filename : Option (List ℕ)
  pub filesz : ℕ
  pub userdata : ℕ
  pub state : FileState
  pub channel : Rc

-- `ElaStreamState` of src/session/ela_session.h, which the session reports.
pub data StreamState : Type 0 where
  initialized transport_ready connecting connected deactivated closed failed : StreamState

-- A slot as `rc_zalloc` leaves it.
abbrev pub zero_item : FileTransferItem
zero_item = record {
  fileid = [];
  filename = Option.none;
  filesz = 0;
  userdata = 0;
  state = FileState.none;
  channel = ok 0;
}

-- `ElaFileTransferInfo`
pub record ElaFileTransferInfo : Type 0 where
  pub filename : List ℕ
  pub fileid : List ℕ
  pub size : ℕ
  pub userdata : ℕ

-- What the code calls. The world is the state of all of it. A channel is the `int` that opening it
-- has returned.
pub record Env : Type 1 where
  pub World : Type 0
  pub ela_stream_open_channel : List ℕ → World → Rc × World
  pub ela_stream_write_channel : Rc → List ℕ → World → Rc × World
  pub ela_stream_pend_channel : Rc → World → Rc × World
  pub ela_stream_resume_channel : Rc → World → Rc × World
  pub ela_session_new : List ℕ → World → Rc × World
  pub ela_session_request : List ℕ → World → Rc × World
  -- with `true` for status 0 and `false` for the refusal
  pub ela_session_reply_request : List ℕ → Bool → World → Rc × World
  pub ela_session_start : List ℕ → World → Rc × World
  pub ela_session_add_stream : World → Rc × World
  pub ela_session_remove_stream : ℕ → World → World
  pub ela_session_close : World → World
  -- whether the extension has been set up on the node
  pub extension : World → Bool
  -- the connection requests that have come in, by the address they came from
  pub filereqs_remove : List ℕ → World → Option (List ℕ) × World
  -- an allocation, `false` if it is out of memory; a new file id
  pub alloc : World → Bool × World
  pub ela_filetransfer_fileid : World → List ℕ × World
  pub basename : List ℕ → Option (List ℕ)
  pub ela_id_is_valid : List ℕ → Bool
  -- what stands on the stack where a packet on it is not written
  pub stack : ℕ → ℕ

abbrev pub is_number : ℕ → Rc → Bool
is_number c (ok n) = n == c
is_number c (err e) = false

-- Whether a slot has this channel, or this file id.
abbrev pub has_channel : ℕ → FileTransferItem → Bool
has_channel c x = is_number c x.channel

abbrev pub has_fileid : List ℕ → FileTransferItem → Bool
has_fileid id x = eq_bytes id x.fileid

abbrev pub is_none_state : FileState → Bool
is_none_state FileState.none = true
is_none_state FileState.standby = false
is_none_state FileState.transfering = false
is_none_state FileState.finished = false

abbrev pub is_standby_state : FileState → Bool
is_standby_state FileState.none = false
is_standby_state FileState.standby = true
is_standby_state FileState.transfering = false
is_standby_state FileState.finished = false

abbrev pub is_transfering_state : FileState → Bool
is_transfering_state FileState.none = false
is_transfering_state FileState.standby = false
is_transfering_state FileState.transfering = true
is_transfering_state FileState.finished = false

abbrev pub is_free : FileTransferItem → Bool
is_free x = is_none_state x.state

abbrev pub is_standby : FileTransferItem → Bool
is_standby x = is_standby_state x.state

abbrev pub is_transfering : FileTransferItem → Bool
is_transfering x = is_transfering_state x.state

-- The numbers of `FileTransferConnection`, and `state >= FileTransferConnection_closed`.
abbrev pub connection_number : Connection → ℕ
connection_number Connection.initialized = 1
connection_number Connection.connecting = 2
connection_number Connection.connected = 3
connection_number Connection.closed = 4
connection_number Connection.failed = 5

abbrev pub is_over : Connection → Bool
is_over state = leb 4 (connection_number state)

abbrev pub is_sender_role : Role → Bool
is_sender_role unset = false
is_sender_role sender = true
is_sender_role receiver = false

abbrev pub is_receiver_role : Role → Bool
is_receiver_role unset = false
is_receiver_role sender = false
is_receiver_role receiver = true

-- The first slot that passes a test, with its index: the loops of `get_fileinfo_…`.
abbrev pub next : Option (ℕ × FileTransferItem) → Option (ℕ × FileTransferItem)
next Option.none = Option.none
next (Option.some (i, x)) = Option.some (suc i, x)

unfoldable pub find_item :
    (FileTransferItem → Bool) → List FileTransferItem → Option (ℕ × FileTransferItem)
find_item p [] = Option.none
find_item p (x ∷ xs) =
    let later = next (find_item p xs) in if p x then Option.some (0, x) else later

unfoldable pub get_fileinfo_free : List FileTransferItem → Option (ℕ × FileTransferItem)
unfolding find_item
get_fileinfo_free files = find_item is_free files

unfoldable pub get_fileinfo_channel : List FileTransferItem → ℕ → Option (ℕ × FileTransferItem)
unfolding find_item
get_fileinfo_channel files channel = find_item (has_channel channel) files

unfoldable pub get_fileinfo_fileid : List FileTransferItem → List ℕ → Option (ℕ × FileTransferItem)
unfolding find_item
get_fileinfo_fileid files fileid = find_item (has_fileid fileid) files

-- A slot written back.
unfoldable pub set_item : List FileTransferItem → ℕ → FileTransferItem → List FileTransferItem
set_item [] i y = []
set_item (x ∷ xs) zero y = y ∷ xs
set_item (x ∷ xs) (suc i) y = x ∷ set_item xs i y

module _ (env : Env) where
  open env use {World}

  -- `ElaFileTransferCallbacks`; a callback may be missing, and does not call back into the transfer.
  pub record ElaFileTransferCallbacks : Type 0 where
    pub state_changed : Option (Connection → World → World)
    pub file : Option (List ℕ → Option (List ℕ) → ℕ → World → World)
    pub pull : Option (List ℕ → ℕ → World → World)
    pub data_ : Option (List ℕ → List ℕ → World → Bool × World)
    pub pending : Option (List ℕ → World → World)
    pub resume : Option (List ℕ → World → World)
    pub cancel : Option (List ℕ → ℕ → List ℕ → World → World)

  -- `struct ElaFileTransfer`. The stream is its number, or a negative number.
  pub record ElaFileTransfer : Type 0 where
    pub address : List ℕ
    pub files : List FileTransferItem
    pub stream : Rc
    pub error : ℕ
    pub state : Connection
    pub callbacks : ElaFileTransferCallbacks
    pub sdp : List ℕ
    pub sender_receiver : Role
    pub ready_to_connect : Bool
    pub world : World

module _ {env : Env} where
  open env use {World}

  abbrev pub is_sender : ElaFileTransfer env → Bool
  is_sender ft = is_sender_role ft.sender_receiver

  abbrev pub is_receiver : ElaFileTransfer env → Bool
  is_receiver ft = is_receiver_role ft.sender_receiver

  abbrev pub is_connected : ElaFileTransfer env → Bool
  is_connected ft = connection_number ft.state == connection_number Connection.connected

  -- A slot changed in place.
  unfoldable pub put_file : ElaFileTransfer env → ℕ → FileTransferItem → ElaFileTransfer env
  unfolding set_item
  put_file ft i x = record ft { files = set_item ft.files i x }

  -- A callback, if the application has set it.
  unfoldable pub tell :
      {A : Type 0} → ElaFileTransfer env → Option A → (A → World → World) → ElaFileTransfer env
  tell ft Option.none call = ft
  tell ft (Option.some f) call = record ft { world = call f ft.world }
