-- ===== src/FileTransfer/Slots.antt =====
-- What an event or a call may do to the slots of a transfer: the state machine of a file, and the
-- lemmas on looking a slot up and writing it back.
use elastos_net_carrier_nati.Base.{
  ℕ, zero, suc, ◌≡◌, refl, sym, ap, subst, List, [], ◌∷◌, Bool, true, false, Option, some, arith,
  if◌then◌else◌,
}
use elastos_net_carrier_nati.Mux.Channel.{Rc}
use elastos_net_carrier_nati.FileTransfer.Data.{
  FileState, FileTransferItem, standby, transfering, is_none_state, is_standby_state,
  is_transfering_state, is_free, is_standby, is_transfering, next, find_item, set_item,
}

-- A slot before and after: a free slot takes a file, a waiting file gets a channel, a transfer
-- starts or pauses, a slot is given up, or the application notes something with it.
pub data Move (x y : FileTransferItem) : Type 0 where
  taken : x.state ≡ FileState.none → y.state ≡ standby → Move x y
  carried : (c : Rc) → x.state ≡ standby → y ≡ record x { channel = c } → Move x y
  started : x.state ≡ standby → y ≡ record x { state = transfering } → Move x y
  paused : x.state ≡ transfering → y ≡ record x { state = standby } → Move x y
  freed : y.state ≡ FileState.none → y.fileid ≡ x.fileid → y.filesz ≡ x.filesz → Move x y
  left_free : x.state ≡ FileState.none → y.state ≡ FileState.none → Move x y
  noted : (u : ℕ) → y ≡ record x { userdata = u } → Move x y

-- At most one slot has changed, and by a move.
pub data Changes : List FileTransferItem → List FileTransferItem → Type 0 where
  nothing : {xs : List FileTransferItem} → Changes xs xs
  here :
      {x y : FileTransferItem} {xs : List FileTransferItem} → Move x y → Changes (x ∷ xs) (y ∷ xs)
  there :
      {x : FileTransferItem} {xs ys : List FileTransferItem}
      → Changes xs ys
      → Changes (x ∷ xs) (x ∷ ys)

pub free_state : (x : FileTransferItem) → is_free x ≡ true → x.state ≡ FileState.none
free_state x p = go x.state p
  where
    go : (s : FileState) → is_none_state s ≡ true → s ≡ FileState.none
    go FileState.none p = refl
    go FileState.standby p = ground arith
    go FileState.transfering p = ground arith
    go FileState.finished p = ground arith

pub standby_state : (x : FileTransferItem) → is_standby x ≡ true → x.state ≡ standby
standby_state x p = go x.state p
  where
    go : (s : FileState) → is_standby_state s ≡ true → s ≡ standby
    go FileState.none p = ground arith
    go FileState.standby p = refl
    go FileState.transfering p = ground arith
    go FileState.finished p = ground arith

pub transfering_state : (x : FileTransferItem) → is_transfering x ≡ true → x.state ≡ transfering
transfering_state x p = go x.state p
  where
    go : (s : FileState) → is_transfering_state s ≡ true → s ≡ transfering
    go FileState.none p = ground arith
    go FileState.standby p = ground arith
    go FileState.transfering p = refl
    go FileState.finished p = ground arith

-- The slot at an index.
pub item_at : List FileTransferItem → ℕ → Option FileTransferItem
item_at [] i = Option.none
item_at (x ∷ xs) zero = some x
item_at (x ∷ xs) (suc i) = item_at xs i

-- What `find_item` says of its result.
abbrev Found :
    (FileTransferItem → Bool) → List FileTransferItem → Option (ℕ × FileTransferItem) → Type 0
Found p xs Option.none = Unit {0}
Found p xs (some (i, x)) = (item_at xs i ≡ some x) × (p x ≡ true)

find_item-Found :
    (p : FileTransferItem → Bool) (xs : List FileTransferItem) → Found p xs (find_item p xs)
unfolding find_item item_at
find_item-Found p [] = tt
find_item-Found p (y ∷ ys) = go (p y) refl (find_item p ys) (find_item-Found p ys)
  where
    go :
        (b : Bool)
        → p y ≡ b
        → (o : Option (ℕ × FileTransferItem)) → Found p ys o
        → Found p (y ∷ ys) (if b then some (0, y) else next o)
    go true b o f = (refl, b)
    go false b Option.none f = tt
    go false b (some (j, z)) f = f

-- A slot that was found passes the test, and stands at its index.
pub find_item-found :
    (p : FileTransferItem → Bool) (xs : List FileTransferItem) (i : ℕ) (x : FileTransferItem)
    → find_item p xs ≡ some (i, x)
    → (item_at xs i ≡ some x) × (p x ≡ true)
find_item-found p xs i x e = subst (Found p xs) e (find_item-Found p xs)

the_same : {z x : FileTransferItem} → some z ≡ some x → x ≡ z
the_same {z = z} e = sym (ap (elim_or z) e)
  where
    elim_or : FileTransferItem → Option FileTransferItem → FileTransferItem
    elim_or d Option.none = d
    elim_or d (some u) = u

pub set_item-Changes :
    (xs : List FileTransferItem) (i : ℕ) (x y : FileTransferItem)
    → item_at xs i ≡ some x
    → Move x y
    → Changes xs (set_item xs i y)
unfolding set_item item_at
set_item-Changes [] i x y e m = nothing
set_item-Changes (z ∷ zs) zero x y e m = here (subst (λ u. Move u y) (the_same e) m)
set_item-Changes (z ∷ zs) (suc i) x y e m = there (set_item-Changes zs i x y e m)
