-- ===== src/Invite/Fragments.antt =====
-- The fragments that `ela_invite_friend` of src/carrier/ela_carrier.c cuts the data of an
-- invitation into.
use elastos_net_carrier_nati.Base.{
  ℕ, zero, suc, ◌≤◌, ◌<◌, ◌≡◌, refl, sym, ap, subst, ◌∙◌, List, [], ◌∷◌, ◌++◌, Bool, true, false,
  Option, none, some, arith, length, length-take, length-drop, take-append-drop, Bool-cases, inl,
  inr, ◌==◌, if◌then◌else◌,
}
use elastos_net_carrier_nati.Invite.Data.{
  Fragment, Env, ElaCarrier, IsLawfulTable, tid_key, invite_data_unit, ela_max_invite_data_len,
  ela_max_bundle_len,
}
use elastos_net_carrier_nati.Invite.Send.{
  bytes_of, request_send_len, request_fragment, later_bundle_len,
}
use elastos_net_carrier_nati.Invite.Assembly.{IsPiece, AllPieces, all_data, receive_all}
use elastos_net_carrier_nati.Invite.Completion.{begun, IsCompleted, receive_all-IsCompleted}

empty : (xs : List ℕ) → length xs ≡ 0 → xs ≡ []
empty [] h = refl
empty (x ∷ xs) h = absurd (omega arith)

-- Every fragment takes a byte at least and at most what fits.
send_len_bounds :
    (bundle : Option (List ℕ)) (bundle_len len : ℕ)
    → 0 < len
    → bundle_len ≤ ela_max_bundle_len
    → (0 < request_send_len bundle bundle_len len)
      × (request_send_len bundle bundle_len len ≤ len)
      × (request_send_len bundle bundle_len len ≤ invite_data_unit)
unfolding request_send_len
send_len_bounds none bundle_len len p q = (ground arith, ground arith, ground arith)
send_len_bounds (some b) bundle_len len p q = (ground arith, ground arith, ground arith)

pub later_bound :
    (bundle : Option (List ℕ)) (bundle_len : ℕ)
    → bundle_len ≤ ela_max_bundle_len
    → later_bundle_len bundle bundle_len ≤ ela_max_bundle_len
later_bound none bundle_len h = h
later_bound (some b) bundle_len h = omega arith

-- All fragments of an invitation.
unfoldable pub request_pieces :
    ℕ → Option (List ℕ) → ℕ → Option (List ℕ) → Bool → ℕ → List ℕ → List Fragment
request_pieces zero ext tid bundle first bundle_len data_ = []
request_pieces (suc fuel) ext tid bundle first bundle_len data_ =
    let (f, rest) = request_fragment ext tid bundle first bundle_len data_ in
    let later =
      request_pieces fuel ext tid bundle false (later_bundle_len bundle bundle_len) rest in
    f ∷ (if length rest == 0 then [] else later)

module _ (ext : Option (List ℕ)) (tid : ℕ) (bundle : Option (List ℕ)) where
  abbrev pub sent : Bool → ℕ → List ℕ → Fragment
  sent first bundle_len data_ = (request_fragment ext tid bundle first bundle_len data_).0

  abbrev pub left : Bool → ℕ → List ℕ → List ℕ
  left first bundle_len data_ = (request_fragment ext tid bundle first bundle_len data_).1

  pub fragment_lem :
      (first : Bool) (bundle_len : ℕ) (data_ : List ℕ)
      → 0 < length data_
      → bundle_len ≤ ela_max_bundle_len
      → IsPiece tid ext (sent first bundle_len data_)
        × ((sent first bundle_len data_).raw_data ++ left first bundle_len data_ ≡ data_)
        × (length (left first bundle_len data_) < length data_)
  unfolding request_fragment
  fragment_lem first bundle_len data_ p q =
      let (b1, b2, b3) = send_len_bounds bundle bundle_len (length data_) p q in
      let n = request_send_len bundle bundle_len (length data_) in
      (
        record {
          transaction = refl;
          extension = refl;
          positive = omega (arith, length-take n data_, b1, b2);
          unit = omega (arith, length-take n data_, b3);
        },
        take-append-drop n data_,
        omega (arith, length-drop n data_, b1),
      )

  -- The fragments of an invitation are within the size limit, and their data joined are the data.
  pub pieces_lem :
      (fuel : ℕ) (first : Bool) (bundle_len : ℕ) (data_ : List ℕ)
      → 0 < length data_
      → length data_ ≤ fuel
      → bundle_len ≤ ela_max_bundle_len
      → AllPieces tid ext (request_pieces fuel ext tid bundle first bundle_len data_)
        × (all_data (request_pieces fuel ext tid bundle first bundle_len data_) ≡ data_)
  unfolding request_pieces
  pieces_lem zero first bundle_len data_ p q b = absurd (omega arith)
  pieces_lem (suc fuel) first bundle_len data_ p q b =
      let (piece, joined, fewer) = fragment_lem first bundle_len data_ p b in
      elim (Bool-cases (length (left first bundle_len data_) == 0)) [
        | inl z ↦ rw z (
          (piece, tt),
          ap (λ xs. (sent first bundle_len data_).raw_data ++ xs)
                (sym (empty (left first bundle_len data_) (ground arith)))
              ∙ joined,
        )
        | inr m ↦ rw m (
            let ih =
              pieces_lem fuel false (later_bundle_len bundle bundle_len)
                (left first bundle_len data_) (ground arith) (omega arith)
                (later_bound bundle bundle_len b) in
            ((piece, ih.0), ap (λ xs. (sent first bundle_len data_).raw_data ++ xs) ih.1 ∙ joined))
      ]

module _ {env : Env} (law : IsLawfulTable env) where
  open env use {World, table_get, friends_get, alloc}

  -- An invitation of up to 8192 bytes with a bundle of up to 511, cut into the fragments of
  -- `ela_invite_friend` and received fragment by fragment from a friend, of whose transaction nothing
  -- has been received and for which there is memory, calls the receiver's callback exactly once, on
  -- the sender's bundle and data; the sender is noted in the history and the table left clean.
  pub invite-roundtrip :
      (c : ElaCarrier env) (friendid : List ℕ) (ext bundle : Option (List ℕ))
      (tid friend_number : ℕ) (data_ : List ℕ)
      → 0 < length data_
      → length data_ ≤ ela_max_invite_data_len
      → length (bytes_of bundle) ≤ ela_max_bundle_len
      → ((w : World) → friends_get friend_number w ≡ some friendid)
      → table_get c.tassembly_ireqs (tid_key tid) ≡ none
      → (alloc c.world).0 ≡ true
      → IsCompleted
          (begun c)
          (receive_all c friend_number
            (request_pieces (length data_) ext tid bundle true (length (bytes_of bundle)) data_))
          friendid
          ext
          bundle
          data_
          tid
  unfolding request_pieces
  invite-roundtrip c friendid ext bundle tid friend_number data_ p q b known e g =
      go (length data_) refl
    where
      first : Fragment
      first = sent ext tid bundle true (length (bytes_of bundle)) data_

      facts : (first.bundle ≡ bundle) × (first.totalsz ≡ length data_)
      facts = unfold request_fragment in (refl, refl)

      go :
          (fuel : ℕ)
          → fuel ≡ length data_
          → IsCompleted
              (begun c)
              (receive_all c friend_number
                (request_pieces fuel ext tid bundle true (length (bytes_of bundle)) data_))
              friendid
              ext
              bundle
              data_
              tid
      go zero z = absurd (omega arith)
      go (suc fuel) z =
          let (pieces, joined) =
            pieces_lem ext tid bundle (suc fuel) true (length (bytes_of bundle)) data_ p
              (omega arith) b in
          subst
            (λ bs.
              IsCompleted (begun c)
                (receive_all c friend_number
                  (request_pieces (suc fuel) ext tid bundle true (length (bytes_of bundle)) data_))
                friendid ext bundle bs tid)
            joined
            (receive_all-IsCompleted law friendid ext bundle tid friend_number known c first _
              pieces facts.0 (facts.1 ∙ ap length (sym joined)) (omega (arith, facts.1)) e g)
