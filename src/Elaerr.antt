-- ===== src/Elaerr.antt =====
-- The error codes of src/carrier/ela_carrier.h that the modelled code returns.
use elastos_net_carrier_nati.Base.{ℕ}

abbrev pub invalid_args : ℕ
invalid_args = 0x01

abbrev pub out_of_memory : ℕ
out_of_memory = 0x02

abbrev pub not_ready : ℕ
not_ready = 0x09

abbrev pub not_exist : ℕ
not_exist = 0x0A

abbrev pub no_matched_request : ℕ
no_matched_request = 0x0C

abbrev pub wrong_state : ℕ
wrong_state = 0x0F

abbrev pub limit_exceeded : ℕ
limit_exceeded = 0x16

abbrev pub buffer_too_small : ℕ
buffer_too_small = 0x03

abbrev pub encrypt : ℕ
encrypt = 0x12
