-- ===== src/Invite/Data.antt =====
-- The data of invitations, and what the code of src/carrier/ela_carrier.c takes from around it: the
-- tables of the crystal library, the encoder of packets, the clock, the network and the friends.
use elastos_net_carrier_nati.Base.{ℕ, ◌≡◌, List, [], ◌∷◌, Bool, Option, none, some}
use elastos_net_carrier_nati.Mux.Channel.{Rc, Timeval}

abbrev pub ela_max_id_len : ℕ
ela_max_id_len = 45

abbrev pub ela_max_extension_name_len : ℕ
ela_max_extension_name_len = 31

abbrev pub ela_max_invite_data_len : ℕ
ela_max_invite_data_len = 8192

abbrev pub ela_max_bundle_len : ℕ
ela_max_bundle_len = 511

abbrev pub ela_max_invite_reply_reason_len : ℕ
ela_max_invite_reply_reason_len = 255

abbrev pub tassembly_timeout : ℕ
tassembly_timeout = 60

abbrev pub invite_data_unit : ℕ
invite_data_unit = 1280

-- The `ElaCP` of an invitation: a fragment. A request has no status and no reason.
pub record Fragment : Type 0 where
  pub extension : Option (List ℕ)
  pub tid : ℕ
  pub bundle : Option (List ℕ)
  pub totalsz : ℕ
  pub status : ℕ
  pub reason : Option (List ℕ)
  pub raw_data : List ℕ

pub data Message : Type 0 where
  invite_request invite_response : Fragment → Message

-- `struct TransactedAssembly`; `data` is the block of `data_len` bytes behind it. The strings that
-- are copied into `ext` and `friendid` are taken to fit.
pub record TransactedAssembly : Type 0 where
  pub ext : List ℕ
  pub friendid : List ℕ
  pub tid : ℕ
  pub bundle : Option (List ℕ)
  pub reason : Option (List ℕ)
  pub data_ : List ℕ
  pub data_len : ℕ
  pub data_off : ℕ
  pub expire_time : Timeval

-- What the code calls. The world is the state of all of it.
pub record Env : Type 1 where
  pub World : Type 0
  -- `hashtable_t`, by the bytes of the key
  pub Table : Type 0 → Type 0
  pub table_get : {A : Type 0} → Table A → List ℕ → Option A
  pub table_put : {A : Type 0} → Table A → List ℕ → A → Table A
  pub table_remove : {A : Type 0} → Table A → List ℕ → Table A
  -- `is_valid_key`, over the base58 decoder
  pub is_valid_key : List ℕ → Bool
  -- `get_friend_number`, over the DHT, and `friends_get`, the user id of a friend
  pub get_friend_number : List ℕ → World → Option ℕ
  pub friends_get : ℕ → World → Option (List ℕ)
  pub generate_tid : World → ℕ × World
  -- an allocation, also of a packet and of its encoding; `false` if it is out of memory
  pub alloc : World → Bool × World
  pub dht_friend_message : ℕ → Message → World → Rc × World
  pub gettimeofday : World → Timeval × World

module _ (env : Env) where
  open env use {World, Table, table_get, table_put, table_remove}

  -- A callback for an invitation: the friend, the bundle and the data.
  abbrev pub InviteCallback : Type 0
  InviteCallback = List ℕ → Option (List ℕ) → List ℕ → World → World

  -- A callback for a response: the friend, the bundle, the status, the reason and the data.
  abbrev pub ResponseCallback : Type 0
  ResponseCallback = List ℕ → Option (List ℕ) → ℕ → Option (List ℕ) → List ℕ → World → World

  -- `struct TransactedCallback`, without the fields that only its expiry reads: `expire_time`, which
  -- `transacted_callbacks_put` sets, and `friend_number`, which nothing sets. `callback_context` is
  -- part of the function.
  pub record TransactedCallback : Type 0 where
    pub tid : ℕ
    pub callback_func : ResponseCallback
    pub bundle : Option (List ℕ)

  -- The part of `struct ElaCarrier` that invitations use.
  pub record ElaCarrier : Type 0 where
    pub is_ready : Bool
    pub friend_invite : Option InviteCallback
    pub session_invite : Option InviteCallback
    pub tcallbacks : Table TransactedCallback
    pub tassembly_ireqs : Table TransactedAssembly
    pub tassembly_irsps : Table TransactedAssembly
    pub thistory : Table ℕ
    pub world : World

  -- What is relied on of the tables.
  pub record IsLawfulTable : Type 1 where
    pub get-put :
        {A : Type 0} (t : Table A) (k : List ℕ) (a : A) → table_get (table_put t k a) k ≡ some a
    pub get-remove : {A : Type 0} (t : Table A) (k : List ℕ) → table_get (table_remove t k) k ≡ none

-- The key of a transaction, and that of an invitation's sender in the history.
abbrev pub tid_key : ℕ → List ℕ
tid_key tid = tid ∷ []

abbrev pub history_key : List ℕ → List ℕ
history_key from = 105 ∷ 114 ∷ 95 ∷ from
