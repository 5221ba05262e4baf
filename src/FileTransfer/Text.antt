-- ===== src/FileTransfer/Text.antt =====
-- The conversions of `sscanf` that src/filetransfer/filetransfer.c uses, over the bytes of a string
-- without its final zero.
use elastos_net_carrier_nati.Base.{
  ℕ, zero, suc, ◌+◌, ◌-◌, ◌*◌, ◌%◌, ◌^◌, List, [], ◌∷◌, Bool, ◌||◌, ◌&&◌, Option, none, some, ltb,
  leb, ◌==◌, if◌then◌else◌,
}

-- `isspace`
abbrev pub is_space : ℕ → Bool
is_space c = c == 32 || leb 9 c && leb c 13

unfoldable pub skip_space : List ℕ → List ℕ
skip_space [] = []
skip_space (c ∷ cs) = let rest = skip_space cs in if is_space c then rest else c ∷ cs

-- `%<width>s` at the start of a word: at most `width` bytes up to the next white space, and the rest.
unfoldable pub take_word : ℕ → List ℕ → List ℕ × List ℕ
take_word zero cs = ([], cs)
take_word (suc width) [] = ([], [])
take_word (suc width) (c ∷ cs) =
    let (word, rest) = take_word width cs in if is_space c then ([], c ∷ cs) else (c ∷ word, rest)

abbrev pub non_empty : List ℕ × List ℕ → Option (List ℕ × List ℕ)
non_empty ([], rest) = none
non_empty (c ∷ cs, rest) = some (c ∷ cs, rest)

-- `%<width>s`: white space before the word is skipped, and an empty word is a failure.
unfoldable pub scan_word : ℕ → List ℕ → Option (List ℕ × List ℕ)
unfolding take_word skip_space
scan_word width cs = non_empty (take_word width (skip_space cs))

abbrev pub is_digit : ℕ → Bool
is_digit c = leb 48 c && leb c 57

abbrev pub max_u64 : ℕ
max_u64 = 2 ^ 64 - 1

-- The digits of a number, which stays at the largest value when it overflows.
unfoldable pub take_number : ℕ → List ℕ → ℕ
take_number acc [] = acc
take_number acc (c ∷ cs) =
    let n = acc * 10 + (c - 48) in
    let rest = take_number (if ltb max_u64 n then max_u64 else n) cs in
    if is_digit c then rest else acc

abbrev pub starts_with_digit : List ℕ → Bool
starts_with_digit [] = Bool.false
starts_with_digit (c ∷ cs) = is_digit c

abbrev pub unsigned : List ℕ → Option ℕ
unsigned cs = if starts_with_digit cs then some (take_number 0 cs) else none

-- `%llu`: white space, a sign, digits. A negative number wraps around.
unfoldable pub scan_signed : List ℕ → Option ℕ
unfolding take_number
scan_signed [] = none
scan_signed (c ∷ cs) =
    if c == 43
    then unsigned cs
    else if c == 45
    then elim (unsigned cs) [ none ↦ none | some n ↦ some ((2 ^ 64 - n) % 2 ^ 64) ]
    else unsigned (c ∷ cs)

unfoldable pub scan_llu : List ℕ → Option ℕ
unfolding scan_signed skip_space
scan_llu cs = scan_signed (skip_space cs)
