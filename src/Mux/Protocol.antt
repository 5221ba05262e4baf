-- ===== src/Mux/Protocol.antt =====
-- The packets of src/session/multiplex_handler.c: an eight byte header, then the payload.
use elastos_net_carrier_nati.Base.{ℕ, ◌%◌, ◌^◌, ◌<◌, ◌≡◌, List, ◌∷◌, ◌++◌, arith, get_or}
use elastos_net_carrier_nati.Base.Words.{htons, ntohs}

abbrev pub protocol_head_len : ℕ
protocol_head_len = 8

-- `struct ProtocolBuffer` in host byte order, without the payload.
pub record ProtocolBuffer : Type 0 where
  pub type : ℕ
  pub option : ℕ
  pub local_channel_id : ℕ
  pub remote_channel_id : ℕ
  pub payload_len : ℕ

-- The header as `multiplex_handler_send_packet` lays it out: each side's id stands in the other
-- side's field.
unfoldable pub header_bytes : ℕ → ℕ → ℕ → ℕ → ℕ → List ℕ
header_bytes type option local_channel_id remote_channel_id len =
    type ∷ option ∷ (htons remote_channel_id ++ (htons local_channel_id ++ htons (len % 2 ^ 16)))

-- The header at the front of the bytes, in host byte order.
unfoldable pub parse_header : List ℕ → ProtocolBuffer
parse_header bs = record {
  type = get_or bs 0 0;
  option = get_or bs 1 0;
  local_channel_id = ntohs (get_or bs 2 0) (get_or bs 3 0);
  remote_channel_id = ntohs (get_or bs 4 0) (get_or bs 5 0);
  payload_len = ntohs (get_or bs 6 0) (get_or bs 7 0);
}

-- What the receiver reads is what the sender wrote, with the two ids exchanged, whatever follows the
-- header, if the ids fit in 16 bits and the payload is shorter than 65536 bytes.
pub parse_header-header_bytes :
    (type option local remote len : ℕ) (payload : List ℕ)
    → local < 2 ^ 16
    → remote < 2 ^ 16
    → len < 2 ^ 16
    → parse_header (header_bytes type option local remote len ++ payload) ≡ record {
      type = type;
      option = option;
      local_channel_id = remote;
      remote_channel_id = local;
      payload_len = len;
    }
unfolding parse_header header_bytes
parse_header-header_bytes type option local remote len payload hl hr hn = ground arith
