-- ===== src/FlexBuffer/Tests.antt =====
-- Runs of the functions of src/session/flex_buffer.h.
use elastos_net_carrier_nati.Base.{◌≡◌, refl, [], ◌∷◌, arith}
use elastos_net_carrier_nati.FlexBuffer.{
  FlexBuffer, contents, flex_buffer_from, flex_buffer_forward_offset, flex_buffer_backward_offset,
  flex_buffer_append, flex_buffer_append2,
}
use elastos_net_carrier_nati.FlexBuffer.Refine.{
  IsValid, extended, append-contents, append2-contents, forward-contents, backward-contents,
  forward-backward, flex_buffer_from-contents,
}

abbrev dest : FlexBuffer
dest = record { capacity = 6; offset = 2; size = 2; buffer = 9 ∷ 9 ∷ 1 ∷ 2 ∷ 0 ∷ 0 ∷ [] }

abbrev src : FlexBuffer
src = record { capacity = 4; offset = 1; size = 3; buffer = 8 ∷ 3 ∷ 4 ∷ 5 ∷ [] }

dest-IsValid : IsValid dest
dest-IsValid = record { block = refl; inside = omega arith; small = omega arith }

src-IsValid : IsValid src
src-IsValid = record { block = refl; inside = omega arith; small = omega arith }

-- Three bytes do not fit into room for two.
append-contents_example :
    (contents (flex_buffer_append dest src) ≡ 1 ∷ 2 ∷ 3 ∷ 4 ∷ [])
    × IsValid (flex_buffer_append dest src)
append-contents_example = append-contents dest src dest-IsValid src-IsValid

append2-contents_example :
    (contents (flex_buffer_append2 dest src 1) ≡ 1 ∷ 2 ∷ 3 ∷ [])
    × IsValid (flex_buffer_append2 dest src 1)
    × (flex_buffer_append2 dest src 1 ≡ extended dest (3 ∷ []))
append2-contents_example =
    append2-contents dest src dest-IsValid src-IsValid 1 (omega arith) (omega arith)

forward-contents_example :
    (contents (flex_buffer_forward_offset src 2) ≡ 5 ∷ [])
    × IsValid (flex_buffer_forward_offset src 2)
    × ((flex_buffer_forward_offset src 2).size ≡ 1)
forward-contents_example = forward-contents src 2 src-IsValid (omega arith)

backward-contents_example :
    (contents (flex_buffer_backward_offset src 1) ≡ 8 ∷ 3 ∷ 4 ∷ 5 ∷ [])
    × IsValid (flex_buffer_backward_offset src 1)
    × (flex_buffer_backward_offset src 1 ≡ record src { offset = 0; size = 4 })
backward-contents_example = backward-contents src 1 src-IsValid (omega arith)

forward-backward_example : flex_buffer_forward_offset (flex_buffer_backward_offset src 1) 1 ≡ src
forward-backward_example = forward-backward src 1 src-IsValid (omega arith)

flex_buffer_from-contents_example :
    (contents (flex_buffer_from (0 ∷ 0 ∷ 0 ∷ 0 ∷ []) 2 (5 ∷ 6 ∷ [])) ≡ 5 ∷ 6 ∷ [])
    × IsValid (flex_buffer_from (0 ∷ 0 ∷ 0 ∷ 0 ∷ []) 2 (5 ∷ 6 ∷ []))
flex_buffer_from-contents_example =
    flex_buffer_from-contents (0 ∷ 0 ∷ 0 ∷ 0 ∷ []) 2 (5 ∷ 6 ∷ []) refl (omega arith)
