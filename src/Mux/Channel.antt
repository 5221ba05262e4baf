-- ===== src/Mux/Channel.antt =====
-- The data of src/session/multiplex_handler.h, and what the multiplexer takes from the code around
-- it: the tables and id heap of the crystal library, the handlers above and below it in the stream's
-- pipeline, the clock and the allocator.
use elastos_net_carrier_nati.Base.{
  ℕ, ◌≤◌, ◌<◌, ◌≡◌, List, [], ◌∷◌, Bool, true, false, Option, none, some, ◌==◌, if◌then◌else◌,
}

pub data ChannelType : Type 0 where
  user udp_portforwarding tcp_portforwarding : ChannelType

pub data ChannelStatus : Type 0 where
  opening open_ pending closing : ChannelStatus

pub data CloseReason : Type 0 where
  normal timeout error : CloseReason

-- `struct timeval`
pub record Timeval : Type 0 where
  pub sec : ℕ
  pub usec : ℕ

-- `struct Channel`. Its `callbacks` are those that the handler holds for its type, and `sock` is
-- the field of `struct TcpChannel`.
pub record Channel : Type 0 where
  pub id : ℕ
  pub remote_id : ℕ
  pub type : ChannelType
  pub status : ChannelStatus
  pub local_timestamp : Timeval
  pub remote_timestamp : Timeval
  pub last_activity : Timeval
  pub timeout : ℕ
  pub sock : ℕ

-- An `int` or `ssize_t` result: a number that is at least 0, or a negative error code.
pub data Rc : Type 0 where
  ok : ℕ → Rc
  err : ℕ → Rc

-- What the code calls and does not implement. The world is the state of all of it; a callback may
-- change the world, and does not call back into the same multiplexer.
pub record System : Type 1 where
  pub World : Type 0
  -- `hashtable_t` of channels, by id
  pub Table : Type 0
  pub table_create : Table
  pub table_get : Table → ℕ → Option Channel
  pub table_put : Table → ℕ → Channel → Table
  pub table_remove : Table → ℕ → Table
  pub table_entries : Table → List Channel
  -- `ids_heap_t`
  pub Ids : Type 0
  pub ids_init : Ids
  pub ids_used : Ids → ℕ → Bool
  pub ids_alloc : Ids → Option (ℕ × Ids)
  pub ids_free : Ids → ℕ → Ids
  -- the allocator (`false` if it is out of memory) and the clock
  pub rc_zalloc : World → Bool × World
  pub gettimeofday : World → Timeval × World
  -- `handler->base.next` and `handler->base.prev`
  pub next_start : World → Rc × World
  pub next_stop : World → World
  pub next_write : List ℕ → World → Rc × World
  pub prev_on_data : List ℕ → World → World
  pub prev_on_state_changed : ℕ → World → World
  -- the worker's timer and the port forwarding worker
  pub create_timer : World → Rc × World
  pub destroy_timer : World → World
  pub worker_start : World → Rc × World
  pub worker_stop : World → World

abbrev pub max_channel_id : ℕ
max_channel_id = 2048

-- Every channel of the list is what the table has for its id.
abbrev pub AllIn : (ℕ → Option Channel) → List Channel → Type 0
AllIn get [] = Unit {0}
AllIn get (c ∷ cs) = (get c.id ≡ some c) × AllIn get cs

abbrev pub has_id : ℕ → List Channel → Bool
has_id k [] = false
has_id k (c ∷ cs) = if c.id == k then true else has_id k cs

abbrev pub HasDistinctIds : List Channel → Type 0
HasDistinctIds [] = Unit {0}
HasDistinctIds (c ∷ cs) = (has_id c.id cs ≡ false) × HasDistinctIds cs

module _ (sys : System) where
  open sys use {
    Table, table_entries, table_create, table_get, table_put, table_remove, Ids, ids_init, ids_used,
    ids_alloc, ids_free,
  }

  -- What the multiplexer relies on of the crystal library: the table's laws, and that an id that the
  -- heap hands out was free, is not 0 and is at most the heap's size.
  pub record IsLawful : Type 0 where
    -- the walk over a table whose channels stand under their own ids meets each of them once
    pub entries_found :
        (t : Table)
        → ((k : ℕ) (c : Channel) → table_get t k ≡ some c → c.id ≡ k)
        → AllIn (table_get t) (table_entries t) × HasDistinctIds (table_entries t)
    pub entries_complete :
        (t : Table) (k : ℕ) (c : Channel)
        → table_get t k ≡ some c
        → c.id ≡ k
        → has_id k (table_entries t) ≡ true
    pub get-create : (k : ℕ) → table_get table_create k ≡ none
    pub get-put :
        (t : Table) (j k : ℕ) (c : Channel)
        → table_get (table_put t j c) k ≡ (if j == k then some c else table_get t k)
    pub get-remove :
        (t : Table) (j k : ℕ)
        → table_get (table_remove t j) k ≡ (if j == k then none else table_get t k)
    pub used-init : (k : ℕ) → ids_used ids_init k ≡ false
    pub alloc_fresh :
        (i : Ids) (n : ℕ) (i' : Ids)
        → ids_alloc i ≡ some (n, i')
        → (ids_used i n ≡ false) × (0 < n) × (n ≤ max_channel_id)
    pub used-alloc :
        (i : Ids) (n : ℕ) (i' : Ids) (k : ℕ)
        → ids_alloc i ≡ some (n, i')
        → ids_used i' k ≡ (if n == k then true else ids_used i k)
    pub used-free :
        (i : Ids) (n k : ℕ) → ids_used (ids_free i n) k ≡ (if n == k then false else ids_used i k)
