-- ===== src/FileTransfer/Cookie.antt =====
-- The cookie of a channel and the bundles of the connection requests: how `ela_filetransfer_add`,
-- `sender_state_changed` and `receiver_state_changed` of src/filetransfer/filetransfer.c print them,
-- and how `stream_channel_open`, `sessionreq_callback` and `sessionreq_complete_callback` read them.
use elastos_net_carrier_nati.Base.{
  ℕ, zero, suc, ◌≤◌, ◌<◌, ◌≡◌, refl, ◌∙◌, List, [], ◌∷◌, ◌++◌, arith, Bool, true, false, Option,
  none, some, ◌==◌, if◌then◌else◌, eq_bytes, length,
}
use elastos_net_carrier_nati.FileTransfer.Text.{
  is_space, skip_space, take_word, scan_word, scan_llu, max_u64,
}
use elastos_net_carrier_nati.FileTransfer.Decimal.{format_llu, scan_llu-format_llu}

infixl 1 ◌>>=◌
abbrev ◌>>=◌ {ℓ κ} : {A : Type ℓ} {B : Type κ} → Option A → (A → Option B) → Option B
none >>= f = none
some a >>= f = f a

-- "filetransfer"
abbrev pub bundle_prefix : List ℕ
bundle_prefix = 102 ∷ 105 ∷ 108 ∷ 101 ∷ 116 ∷ 114 ∷ 97 ∷ 110 ∷ 115 ∷ 102 ∷ 101 ∷ 114 ∷ []

-- `sprintf(bundle, "%s %s %s %llu", bundle_prefix, filename, fileid, filesz)`
unfoldable pub file_cookie : List ℕ → List ℕ → ℕ → List ℕ
unfolding format_llu
file_cookie filename fileid filesz =
    bundle_prefix ++ 32 ∷ (filename ++ 32 ∷ (fileid ++ 32 ∷ format_llu filesz))

-- `sprintf(bundle, "%s %s", bundle_prefix, fileid)`
unfoldable pub reply_bundle : List ℕ → List ℕ
reply_bundle fileid = bundle_prefix ++ 32 ∷ fileid

-- What the receiver learns of a file.
pub record FileOffer : Type 0 where
  pub filename : List ℕ
  pub fileid : List ℕ
  pub size : ℕ

-- `sscanf(cookie, "%31s %255s %45s %llu", …)`, with the result 4 and the right prefix.
unfoldable pub parse_cookie : List ℕ → Option FileOffer
unfolding scan_word scan_llu
parse_cookie cookie = do
  (prefix, r1) ← scan_word 31 cookie
  (filename, r2) ← scan_word 255 r1
  (fileid, r3) ← scan_word 45 r2
  size ← scan_llu r3
  let offer : FileOffer = record { filename = filename; fileid = fileid; size = size }
  if eq_bytes prefix bundle_prefix then some offer else none

-- `strchr(bundle, ' ')`
unfoldable pub has_blank : List ℕ → Bool
has_blank [] = false
has_blank (c ∷ cs) = let later = has_blank cs in if c == 32 then true else later

-- The white space and the word that `%*s` skips, whatever the length of the word.
unfoldable pub skip_word : List ℕ → Option (List ℕ)
unfolding scan_word
skip_word cs = elim (scan_word (length cs) cs) [ none ↦ none | some (word, rest) ↦ some rest ]

-- `sscanf(bundle, "%*s %255s %45s %llu", …)`, with the result 3.
unfoldable pub parse_offer : List ℕ → Option FileOffer
unfolding skip_word scan_word scan_llu
parse_offer bundle = do
  r1 ← skip_word bundle
  (filename, r2) ← scan_word 255 r1
  (fileid, r3) ← scan_word 45 r2
  size ← scan_llu r3
  let offer : FileOffer = record { filename = filename; fileid = fileid; size = size }
  some offer

-- `sscanf(bundle, "%*s %45s", fileid)`, with the result 1.
unfoldable pub parse_reply : List ℕ → Option (List ℕ)
unfolding skip_word scan_word
parse_reply bundle = do r1 ← skip_word bundle; (fileid, r2) ← scan_word 45 r1; some fileid

-- A word that `%<width>s` can hold: not empty, of at most `width` bytes, and without white space.
unfoldable pub HasNoSpace : List ℕ → Type 0
HasNoSpace [] = Unit {0}
HasNoSpace (c ∷ cs) = (is_space c ≡ false) × HasNoSpace cs

pub record IsWord (width : ℕ) (cs : List ℕ) : Type 0 where
  pub filled : 0 < length cs
  pub fits : length cs ≤ width
  pub solid : HasNoSpace cs

take_word-append :
    (width : ℕ) (cs rest : List ℕ)
    → HasNoSpace cs
    → length cs ≤ width
    → take_word width (cs ++ 32 ∷ rest) ≡ (cs, 32 ∷ rest)
unfolding take_word HasNoSpace
take_word-append zero [] rest s k = refl
take_word-append (suc width) [] rest s k = refl
take_word-append zero (c ∷ cs) rest s k = absurd (omega arith)
take_word-append (suc width) (c ∷ cs) rest (s, ss) k =
    rw (take_word-append width cs rest ss (omega arith), s) refl

scan_word-append :
    (width : ℕ) (cs rest : List ℕ)
    → IsWord width cs
    → scan_word width (cs ++ 32 ∷ rest) ≡ some (cs, 32 ∷ rest)
unfolding scan_word skip_space HasNoSpace
scan_word-append width [] rest w = absurd (omega (arith, w.filled))
scan_word-append width (c ∷ cs) rest w =
    rw (w.solid.0, take_word-append width (c ∷ cs) rest w.solid w.fits) refl

skip_blank : (width : ℕ) (cs : List ℕ) → scan_word width (32 ∷ cs) ≡ scan_word width cs
unfolding scan_word skip_space
skip_blank width cs = refl

cookie_words :
    (filename fileid : List ℕ) (tail : List ℕ)
    → IsWord 255 filename
    → IsWord 45 fileid
    → (scan_word 255 (32 ∷ (filename ++ 32 ∷ (fileid ++ 32 ∷ tail)))
        ≡ some (filename, 32 ∷ (fileid ++ 32 ∷ tail)))
      × (scan_word 45 (32 ∷ (fileid ++ 32 ∷ tail)) ≡ some (fileid, 32 ∷ tail))
cookie_words filename fileid tail n i = (
  skip_blank _ _ ∙ scan_word-append 255 filename (fileid ++ 32 ∷ tail) n,
  skip_blank _ _ ∙ scan_word-append 45 fileid tail i,
)

prefix-IsWord : IsWord 31 bundle_prefix
unfolding HasNoSpace
prefix-IsWord = record {
  filled = omega arith;
  fits = omega arith;
  solid = (
    refl,
    (refl, (refl, (refl, (refl, (refl, (refl, (refl, (refl, (refl, (refl, (refl, tt))))))))))),
  );
}

-- The results of the four conversions.
parse_cookie-words :
    (cookie r1 r2 r3 filename fileid : List ℕ) (filesz : ℕ)
    → scan_word 31 cookie ≡ some (bundle_prefix, r1)
    → scan_word 255 r1 ≡ some (filename, r2)
    → scan_word 45 r2 ≡ some (fileid, r3)
    → scan_llu r3 ≡ some filesz
    → parse_cookie cookie ≡ some (record { filename = filename; fileid = fileid; size = filesz })
unfolding parse_cookie
parse_cookie-words cookie r1 r2 r3 filename fileid filesz a b c d = rw (a, b, c, d) refl

parse_offer-words :
    (cookie r1 r2 r3 filename fileid : List ℕ) (filesz : ℕ)
    → skip_word cookie ≡ some r1
    → scan_word 255 r1 ≡ some (filename, r2)
    → scan_word 45 r2 ≡ some (fileid, r3)
    → scan_llu r3 ≡ some filesz
    → parse_offer cookie ≡ some (record { filename = filename; fileid = fileid; size = filesz })
unfolding parse_offer
parse_offer-words cookie r1 r2 r3 filename fileid filesz a b c d = rw (a, b, c, d) refl

-- The receiver reads the cookie of a file back, if the file's name and id are words that fit its
-- buffers and the size is an `uint64_t`.
pub parse_cookie-file_cookie :
    (filename fileid : List ℕ) (filesz : ℕ)
    → IsWord 255 filename
    → IsWord 45 fileid
    → filesz ≤ max_u64
    → parse_cookie (file_cookie filename fileid filesz)
      ≡ some (record { filename = filename; fileid = fileid; size = filesz })
unfolding file_cookie
parse_cookie-file_cookie filename fileid filesz n i k =
    let rest = filename ++ 32 ∷ (fileid ++ 32 ∷ format_llu filesz) in
    let (a, b) = cookie_words filename fileid (format_llu filesz) n i in
    parse_cookie-words (file_cookie filename fileid filesz) (32 ∷ rest) _ _ filename fileid filesz
      (scan_word-append 31 bundle_prefix rest prefix-IsWord) a b (scan_llu-format_llu filesz k)

skip_word-scan_word :
    (cs : List ℕ) {word r : List ℕ}
    → scan_word (length cs) cs ≡ some (word, r)
    → skip_word cs ≡ some r
unfolding skip_word
skip_word-scan_word cs e = rw (skip_word, e) refl

skip_word-bundle : (rest : List ℕ) → skip_word (bundle_prefix ++ 32 ∷ rest) ≡ some (32 ∷ rest)
skip_word-bundle rest =
    skip_word-scan_word _
      (scan_word-append (length (bundle_prefix ++ 32 ∷ rest)) bundle_prefix rest long)
  where
    long : IsWord (length (bundle_prefix ++ 32 ∷ rest)) bundle_prefix
    long = record { filled = omega arith; fits = omega arith; solid = prefix-IsWord.solid }

take_word-all :
    (width : ℕ) (cs : List ℕ) → HasNoSpace cs → length cs ≤ width → take_word width cs ≡ (cs, [])
unfolding take_word HasNoSpace
take_word-all zero [] s k = refl
take_word-all (suc width) [] s k = refl
take_word-all zero (c ∷ cs) s k = absurd (omega arith)
take_word-all (suc width) (c ∷ cs) (s, ss) k = rw (take_word-all width cs ss (omega arith), s) refl

scan_word-all :
    (width : ℕ) (cs : List ℕ) → IsWord width cs → scan_word width (32 ∷ cs) ≡ some (cs, [])
unfolding scan_word skip_space HasNoSpace
scan_word-all width [] w = absurd (omega (arith, w.filled))
scan_word-all width (c ∷ cs) w = rw (w.solid.0, take_word-all width (c ∷ cs) w.solid w.fits) refl

parse_offer-file_cookie :
    (filename fileid : List ℕ) (filesz : ℕ)
    → IsWord 255 filename
    → IsWord 45 fileid
    → filesz ≤ max_u64
    → parse_offer (file_cookie filename fileid filesz)
      ≡ some (record { filename = filename; fileid = fileid; size = filesz })
unfolding file_cookie
parse_offer-file_cookie filename fileid filesz n i k =
    let rest = filename ++ 32 ∷ (fileid ++ 32 ∷ format_llu filesz) in
    let (a, b) = cookie_words filename fileid (format_llu filesz) n i in
    parse_offer-words (file_cookie filename fileid filesz) (32 ∷ rest) _ _ filename fileid filesz
      (skip_word-bundle rest) a b (scan_llu-format_llu filesz k)

parse_reply-words :
    (bundle r1 r2 fileid : List ℕ)
    → skip_word bundle ≡ some r1
    → scan_word 45 r1 ≡ some (fileid, r2)
    → parse_reply bundle ≡ some fileid
unfolding parse_reply
parse_reply-words bundle r1 r2 fileid a b = rw (a, b) refl

parse_reply-reply_bundle :
    (fileid : List ℕ) → IsWord 45 fileid → parse_reply (reply_bundle fileid) ≡ some fileid
unfolding reply_bundle
parse_reply-reply_bundle fileid i =
    parse_reply-words (reply_bundle fileid) (32 ∷ fileid) [] fileid (skip_word-bundle fileid)
      (scan_word-all 45 fileid i)

-- The bundle of a connection request for a file tells the receiver the file's name, id and size, and
-- the bundle of the reply tells the sender the id back, if the name and the id are words that fit the
-- readers' buffers and the size is an `uint64_t`.
pub parse_offer-parse_reply :
    (filename fileid : List ℕ) (filesz : ℕ)
    → IsWord 255 filename
    → IsWord 45 fileid
    → filesz ≤ max_u64
    → (parse_offer (file_cookie filename fileid filesz)
        ≡ some (record { filename = filename; fileid = fileid; size = filesz }))
      × (parse_reply (reply_bundle fileid) ≡ some fileid)
parse_offer-parse_reply filename fileid filesz n i k =
    (parse_offer-file_cookie filename fileid filesz n i k, parse_reply-reply_bundle fileid i)

-- Whether a bundle starts with the prefix: `strncmp(bundle, bundle_prefix, strlen(bundle_prefix))`.
unfoldable pub has_prefix : List ℕ → List ℕ → Bool
has_prefix [] cs = true
has_prefix (p ∷ ps) [] = false
has_prefix (p ∷ ps) (c ∷ cs) = let later = has_prefix ps cs in if p == c then later else false
