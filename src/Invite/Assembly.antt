-- ===== src/Invite/Assembly.antt =====
-- The assembly of an invitation's fragments by `handle_invite_request` of
-- src/carrier/ela_carrier.c.
use elastos_net_carrier_nati.Base.{
  ℕ, ◌+◌, ◌≤◌, ◌<◌, ◌≡◌, refl, sym, ap, subst, ◌∙◌, List, [], ◌∷◌, ◌++◌, Bool, false, Option, none,
  some, arith, length, take, length-append, length-overwrite, take-overwrite, eq_bytes_refl,
  length-replicate,
}
use elastos_net_carrier_nati.Mux.Channel.{Timeval}
use elastos_net_carrier_nati.Invite.Data.{
  Fragment, TransactedAssembly, Env, ElaCarrier, tid_key, invite_data_unit, ela_max_invite_data_len,
}
use elastos_net_carrier_nati.Invite.Send.{bytes_of}
use elastos_net_carrier_nati.Invite.Receive.{
  new_assembly, is_invalid_fragment, add_data, complete_request, assemble_request,
  handle_invite_request, invite_callback,
}

-- `p` has arrived of the `n` bytes of an invitation.
pub record IsPartial (a : TransactedAssembly) (p : List ℕ) (n : ℕ) : Type 0 where
  pub received : take a.data_off a.data_ ≡ p
  pub offset : a.data_off ≡ length p
  pub block : length a.data_ ≡ n
  pub total : a.data_len ≡ n
  pub small : n ≤ ela_max_invite_data_len

pub add_data-IsPartial :
    (a : TransactedAssembly) (p bs : List ℕ) (n : ℕ)
    → IsPartial a p n
    → length p + length bs ≤ n
    → IsPartial (add_data a bs) (p ++ bs) n
unfolding add_data
add_data-IsPartial a p bs n v h = record {
  received =
      take-overwrite a.data_off _ bs a.data_ (omega (arith, v.offset, v.small))
        (omega (arith, v.offset, v.block, v.small))
      ∙ ap (λ xs. xs ++ bs) v.received;
  offset = omega (arith, v.offset, v.small, length-append p bs);
  block = length-overwrite a.data_off bs a.data_ ∙ v.block;
  total = v.total;
  small = v.small;
}

-- The assembly belongs to the friend and the extension.
pub record IsFor (a : TransactedAssembly) (friendid : List ℕ) (name bundle : Option (List ℕ))
    : Type 0 where
  pub friend : a.friendid ≡ friendid
  pub extension : a.ext ≡ bytes_of name
  pub same_bundle : a.bundle ≡ bundle

pub add_data-IsFor :
    (a : TransactedAssembly) (friendid bs : List ℕ) (name bundle : Option (List ℕ))
    → IsFor a friendid name bundle
    → IsFor (add_data a bs) friendid name bundle
unfolding add_data
add_data-IsFor a friendid bs name bundle o = record {
  friend = o.friend;
  extension = o.extension;
  same_bundle = o.same_bundle;
}

pub new_assembly-IsPartial :
    (friendid : List ℕ) (f : Fragment) (now : Timeval) (n : ℕ)
    → f.totalsz ≡ n
    → n ≤ ela_max_invite_data_len
    → IsPartial (new_assembly friendid f none now) [] n
unfolding new_assembly
new_assembly-IsPartial friendid f now n e h = record {
  received = refl;
  offset = refl;
  block = length-replicate f.totalsz 0 ∙ e;
  total = e;
  small = h;
}

pub new_assembly-IsFor :
    (friendid : List ℕ) (f : Fragment) (now : Timeval) (name bundle : Option (List ℕ))
    → f.extension ≡ name
    → f.bundle ≡ bundle
    → IsFor (new_assembly friendid f none now) friendid name bundle
unfolding new_assembly
new_assembly-IsFor friendid f now name bundle e b = record {
  friend = refl;
  extension = ap bytes_of e;
  same_bundle = b;
}

fragment_valid :
    (a : TransactedAssembly) (friendid p : List ℕ) (name bundle : Option (List ℕ)) (len n : ℕ)
    → IsFor a friendid name bundle
    → IsPartial a p n
    → len ≤ invite_data_unit
    → length p + len ≤ n
    → is_invalid_fragment a friendid name len ≡ false
unfolding is_invalid_fragment
fragment_valid a friendid p none bundle len n o v h k =
    rw (o.friend, eq_bytes_refl friendid) (ground (arith, v.offset, v.total, v.small))
fragment_valid a friendid p (some name) bundle len n o v h k =
    rw (o.friend, o.extension, eq_bytes_refl friendid, eq_bytes_refl name)
      (ground (arith, v.offset, v.total, v.small))

-- A fragment of the transaction.
pub record IsPiece (tid : ℕ) (name : Option (List ℕ)) (f : Fragment) : Type 0 where
  pub transaction : f.tid ≡ tid
  pub extension : f.extension ≡ name
  pub positive : 0 < length f.raw_data
  pub unit : length f.raw_data ≤ invite_data_unit

abbrev pub AllPieces : ℕ → Option (List ℕ) → List Fragment → Type 0
AllPieces tid name [] = Unit {0}
AllPieces tid name (f ∷ fs) = IsPiece tid name f × AllPieces tid name fs

abbrev pub all_data : List Fragment → List ℕ
all_data [] = []
all_data (f ∷ fs) = f.raw_data ++ all_data fs

-- A callback, if there is one.
abbrev pub call :
    {W : Type 0}
    → Option (List ℕ → Option (List ℕ) → List ℕ → W → W)
    → List ℕ
    → Option (List ℕ)
    → List ℕ
    → W
    → W
call none friendid bundle bs w = w
call (some f) friendid bundle bs w = f friendid bundle bs w

module _ {env : Env} where
  open env use {World, table_get, table_put, table_remove, friends_get, gettimeofday, alloc}

  -- The fragments as they come in.
  unfoldable pub receive_all : ElaCarrier env → ℕ → List Fragment → ElaCarrier env
  receive_all c n [] = c
  receive_all c n (f ∷ fs) = receive_all (handle_invite_request c n f) n fs

  -- The world after the callback for an invitation, on its data.
  abbrev pub invited : ElaCarrier env → List ℕ → Option (List ℕ) → Option (List ℕ) → List ℕ → World
  invited c friendid name bundle bs = call (invite_callback c name) friendid bundle bs c.world

  module _ (c : ElaCarrier env) (friendid p : List ℕ) (f : Fragment) (name bundle : Option (List ℕ))
      (a : TransactedAssembly) (tid n : ℕ) (o : IsFor a friendid name bundle) (v : IsPartial a p n)
      (q : IsPiece tid name f) (need_add : Bool) where
    belongs :
        length p + length f.raw_data ≤ n
        → is_invalid_fragment a friendid f.extension (length f.raw_data) ≡ false
    belongs h =
        subst (λ x. is_invalid_fragment a friendid x (length f.raw_data) ≡ false) (sym q.extension)
          (fragment_valid a friendid p name bundle (length f.raw_data) n o v q.unit h)

    pub assemble_more :
        length p + length f.raw_data < n
        → assemble_request c friendid f a need_add ≡ record c {
          tassembly_ireqs = table_put c.tassembly_ireqs (tid_key tid) (add_data a f.raw_data);
        }
    unfolding assemble_request
    assemble_more h =
        rw (belongs (omega arith), q.transaction)
          (ground (
            arith,
            q.positive,
            (add_data-IsPartial a p f.raw_data n v (omega arith)).offset,
            (add_data-IsPartial a p f.raw_data n v (omega arith)).total,
            length-append p f.raw_data,
          ))

    pub assemble_last :
        length p + length f.raw_data ≡ n
        → assemble_request c friendid f a need_add
          ≡ complete_request c friendid f (add_data a f.raw_data) need_add
    unfolding assemble_request
    assemble_last h = rw (belongs (omega arith)) (
        ground (
          arith,
          q.positive,
          (add_data-IsPartial a p f.raw_data n v (omega arith)).offset,
          (add_data-IsPartial a p f.raw_data n v (omega arith)).total,
          length-append p f.raw_data,
        ))
