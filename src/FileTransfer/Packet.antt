-- ===== src/FileTransfer/Packet.antt =====
-- src/filetransfer/message.h: the pull and cancel packets as they stand in memory, and what
-- `stream_channel_data` reads of them.
use elastos_net_carrier_nati.Base.{
  ℕ, zero, suc, ◌+◌, ◌*◌, ◌/◌, ◌%◌, ◌^◌, ◌<◌, ◌≡◌, refl, ap, ◌∙◌, List, [], ◌∷◌, ◌++◌, arith, false,
  if◌then◌else◌, ◌==◌, length, length-append, take, drop,
}

abbrev pub packet_pull : ℕ
packet_pull = 2

abbrev pub packet_cancel : ℕ
packet_cancel = 3

-- The `size` bytes of a number in network byte order: `htons`, `htonl` and `htonll`.
unfoldable pub to_network : ℕ → ℕ → List ℕ
to_network zero v = []
to_network (suc size) v = to_network size (v / 256) ++ (v % 256) ∷ []

-- The number of bytes in network byte order, behind a value already read: `ntohs`, `ntohl`, `ntohll`.
unfoldable pub from_network_onto : ℕ → List ℕ → ℕ
from_network_onto acc [] = acc
from_network_onto acc (b ∷ bs) = from_network_onto (acc * 256 + b) bs

unfoldable pub from_network : List ℕ → ℕ
unfolding from_network_onto
from_network bs = from_network_onto 0 bs

-- A C string: the bytes before the first zero.
unfoldable pub c_string : List ℕ → List ℕ
c_string [] = []
c_string (c ∷ cs) = let rest = c_string cs in if c == 0 then [] else c ∷ rest

-- `packet_pull_t`: the type, six bytes of padding, the offset. Padding has what the stack had.
unfoldable pub pull_bytes : (ℕ → ℕ) → ℕ → List ℕ
unfolding to_network
pull_bytes pad offset =
    to_network 2 packet_pull ++ pad 2 ∷ pad 3 ∷ pad 4 ∷ pad 5 ∷ pad 6 ∷ pad 7 ∷ to_network 8 offset

-- `packet_cancel_t`: the type, two bytes of padding, the status, the reason as a C string, and the
-- rest of the `sizeof(*cancel_data) + strlen(reason)` bytes.
unfoldable pub cancel_bytes : (ℕ → ℕ) → ℕ → List ℕ → List ℕ
unfolding to_network
cancel_bytes pad status reason =
    to_network 2 packet_cancel
    ++ pad 2
      ∷ pad 3
      ∷ (to_network 4 status
          ++ (reason
              ++ 0
                ∷ pad (9 + length reason)
                ∷ pad (10 + length reason)
                ∷ pad (11 + length reason)
                ∷ []))

-- The fields of a packet in memory.
unfoldable pub packet_type : List ℕ → ℕ
unfolding from_network
packet_type data_ = from_network (take 2 data_)

unfoldable pub pull_offset : List ℕ → ℕ
unfolding from_network
pull_offset data_ = from_network (take 8 (drop 8 data_))

unfoldable pub cancel_status : List ℕ → ℕ
unfolding from_network
cancel_status data_ = from_network (take 4 (drop 4 data_))

unfoldable pub cancel_reason : List ℕ → List ℕ
unfolding c_string
cancel_reason data_ = c_string (drop 8 data_)

length-to_network : (size v : ℕ) → length (to_network size v) ≡ size
unfolding to_network
length-to_network zero v = refl
length-to_network (suc size) v = omega (
  arith,
  length-append (to_network size (v / 256)) ((v % 256) ∷ []),
  length-to_network size (v / 256),
)

-- 256 to the power of a number, as a recursion.
abbrev bytes_to : ℕ → ℕ
bytes_to zero = 1
bytes_to (suc k) = bytes_to k * 256

from_network_onto-append :
    (acc : ℕ) (xs : List ℕ) (b : ℕ)
    → from_network_onto acc (xs ++ b ∷ []) ≡ from_network_onto acc xs * 256 + b
unfolding from_network_onto
from_network_onto-append acc [] b = refl
from_network_onto-append acc (x ∷ xs) b = from_network_onto-append (acc * 256 + x) xs b

from_network-to_network : (size v : ℕ) → v < bytes_to size → from_network (to_network size v) ≡ v
unfolding to_network from_network from_network_onto
from_network-to_network zero v h = omega arith
from_network-to_network (suc size) v h =
    from_network_onto-append 0 (to_network size (v / 256)) (v % 256)
    ∙ (ap (λ u. u * 256 + v % 256) (from_network-to_network size (v / 256) (omega arith))
        ∙ omega arith)

-- No byte of a C string is zero.
unfoldable pub HasNoZero : List ℕ → Type 0
HasNoZero [] = Unit {0}
HasNoZero (c ∷ cs) = ((c == 0) ≡ false) × HasNoZero cs

c_string-append : (cs rest : List ℕ) → HasNoZero cs → c_string (cs ++ 0 ∷ rest) ≡ cs
unfolding c_string HasNoZero
c_string-append [] rest n = refl
c_string-append (c ∷ cs) rest (n, ns) = rw (c_string-append cs rest ns, n) refl

-- The type and the offset of a pull packet are read back, whatever its padding.
pub pull_bytes_fields :
    (pad : ℕ → ℕ) (offset : ℕ)
    → offset < 2 ^ 64
    → (packet_type (pull_bytes pad offset) ≡ packet_pull)
      × (pull_offset (pull_bytes pad offset) ≡ offset)
unfolding pull_bytes packet_type pull_offset
pull_bytes_fields pad offset h = (refl, from_network-to_network 8 offset (omega arith))

pub cancel_bytes_fields :
    (pad : ℕ → ℕ) (status : ℕ) (reason : List ℕ)
    → status < 2 ^ 32
    → HasNoZero reason
    → (packet_type (cancel_bytes pad status reason) ≡ packet_cancel)
      × (cancel_status (cancel_bytes pad status reason) ≡ status)
      × (cancel_reason (cancel_bytes pad status reason) ≡ reason)
unfolding cancel_bytes packet_type cancel_status cancel_reason
cancel_bytes_fields pad status reason h n =
    (refl, from_network-to_network 4 status (omega arith), c_string-append reason _ n)
