-- ===== src/FileTransfer/Exchange.antt =====
-- The channel of a file at the receiver: `stream_channel_open` of src/filetransfer/filetransfer.c with
-- the cookie that a sender prints, and once more after the channel has been closed.
use elastos_net_carrier_nati.Base.{
  ℕ, ◌≤◌, ◌≡◌, refl, ◌∙◌, subst, List, [], ◌∷◌, Bool, true, false, Option, some, if◌then◌else◌,
  eq_bytes_refl,
}
use elastos_net_carrier_nati.Mux.Channel.{ok}
use elastos_net_carrier_nati.FileTransfer.Data.{
  FileState, FileTransferItem, ElaFileTransfer, Env, standby, is_receiver, is_standby, has_fileid,
  next, find_item, get_fileinfo_free, get_fileinfo_channel, get_fileinfo_fileid, set_item, put_file,
}
use elastos_net_carrier_nati.FileTransfer.Text.{max_u64}
use elastos_net_carrier_nati.FileTransfer.Cookie.{
  FileOffer, IsWord, file_cookie, parse_cookie, parse_cookie-file_cookie,
}
use elastos_net_carrier_nati.FileTransfer.Events.{
  open_new_file, open_file, open_offer, stream_channel_open, closed_file, stream_channel_close,
}

-- The slot of a receiver that has taken a file.
abbrev pub taken_slot : FileTransferItem → ℕ → List ℕ → List ℕ → ℕ → FileTransferItem
taken_slot x c filename fileid filesz = record x {
  fileid = fileid;
  filename = some filename;
  filesz = filesz;
  channel = ok c;
  state = standby;
}

module _ {env : Env} (ft : ElaFileTransfer env) where
  open_offer-new :
      (c : ℕ) (offer : FileOffer) (i : ℕ) (x : FileTransferItem)
      → get_fileinfo_fileid ft.files offer.fileid ≡ Option.none
      → get_fileinfo_free ft.files ≡ some (i, x)
      → (env.alloc ft.world).0 ≡ true
      → open_offer ft c (some offer) ≡ (
        true,
        put_file
            (record ft { world = (env.alloc ft.world).1 })
            i
            (taken_slot x c offer.filename offer.fileid offer.size),
      )
  unfolding open_offer open_file open_new_file
  open_offer-new c offer i x unknown free allocated = rw (unknown, free, allocated) refl

  stream_channel_open-parsed :
      (c : ℕ) (cookie : List ℕ) (offer : FileOffer)
      → is_receiver ft ≡ true
      → parse_cookie cookie ≡ some offer
      → stream_channel_open ft c (some cookie) ≡ open_offer ft c (some offer)
  unfolding stream_channel_open
  stream_channel_open-parsed c cookie offer r e = rw (r, e) refl

  -- A receiver that gets the channel of a file which it does not know, with the cookie that a sender
  -- prints for it, puts the file's name, id and size into its first free slot, if it has one and
  -- memory for the name, and the name and the id are words that fit its buffers.
  pub channel_open-cookie :
      (c : ℕ) (filename fileid : List ℕ) (filesz i : ℕ) (x : FileTransferItem)
      → IsWord 255 filename
      → IsWord 45 fileid
      → filesz ≤ max_u64
      → is_receiver ft ≡ true
      → get_fileinfo_fileid ft.files fileid ≡ Option.none
      → get_fileinfo_free ft.files ≡ some (i, x)
      → (env.alloc ft.world).0 ≡ true
      → stream_channel_open ft c (some (file_cookie filename fileid filesz)) ≡ (
        true,
        put_file
            (record ft { world = (env.alloc ft.world).1 })
            i
            (taken_slot x c filename fileid filesz),
      )
  channel_open-cookie c filename fileid filesz i x n d k r unknown free allocated =
      stream_channel_open-parsed c _ _ r (parse_cookie-file_cookie filename fileid filesz n d k)
      ∙ open_offer-new c _ i x unknown free allocated

-- A slot that is found is found again after a change that leaves the test as it was.
pub find_item-set_item :
    (p : FileTransferItem → Bool) (xs : List FileTransferItem) (i : ℕ) (x y : FileTransferItem)
    → find_item p xs ≡ some (i, x)
    → p y ≡ true
    → find_item p (set_item xs i y) ≡ some (i, y)
unfolding find_item set_item
find_item-set_item p xs i x y e q = subst (Again xs) e (again xs)
  where
    Again : List FileTransferItem → Option (ℕ × FileTransferItem) → Type 0
    Again zs Option.none = Unit {0}
    Again zs (some (j, z)) = find_item p (set_item zs j y) ≡ some (j, y)

    again : (zs : List FileTransferItem) → Again zs (find_item p zs)
    again [] = tt
    again (z ∷ zs) = go (p z) refl (find_item p zs) (again zs)
      where
        go :
            (b : Bool)
            → p z ≡ b
            → (o : Option (ℕ × FileTransferItem)) → Again zs o
            → Again (z ∷ zs) (if b then some (0, z) else next o)
        go true b o f = rw q refl
        go false b Option.none f = tt
        go false b (some (j, u)) f = rw (b, f) refl

abbrev closed_slot : FileTransferItem → FileTransferItem
closed_slot x = record x { state = FileState.none; filename = Option.none }

module _ {env : Env} (ft : ElaFileTransfer env) where
  stream_channel_close-found :
      (c i : ℕ) (x : FileTransferItem)
      → get_fileinfo_channel ft.files c ≡ some (i, x)
      → stream_channel_close ft c ≡ put_file ft i (closed_slot x)
  unfolding stream_channel_close closed_file
  stream_channel_close-found c i x e = rw e refl

  open_offer-stale :
      (c : ℕ) (offer : FileOffer) (i : ℕ) (x : FileTransferItem)
      → get_fileinfo_fileid ft.files offer.fileid ≡ some (i, x)
      → is_standby x ≡ false
      → open_offer ft c (some offer) ≡ (false, ft)
  unfolding open_offer open_file
  open_offer-stale c offer i x e s = rw (e, s) refl

-- A receiver that has closed the channel of a file refuses a new channel for the same file: the slot
-- is free, but still has the id, which is found before a free slot is looked for. The file's slot is
-- the first with its channel and the first with its id.
pub channel_close-channel_open :
    {env : Env} (ft : ElaFileTransfer env) (c c' i : ℕ) (x : FileTransferItem) (filename : List ℕ)
    (filesz : ℕ)
    → IsWord 255 filename
    → IsWord 45 x.fileid
    → filesz ≤ max_u64
    → is_receiver ft ≡ true
    → get_fileinfo_channel ft.files c ≡ some (i, x)
    → get_fileinfo_fileid ft.files x.fileid ≡ some (i, x)
    → stream_channel_open
        (stream_channel_close ft c)
        c'
        (some (file_cookie filename x.fileid filesz))
      ≡ (false, stream_channel_close ft c)
unfolding put_file get_fileinfo_fileid
channel_close-channel_open {env = env} ft c c' i x filename filesz n d k r on_channel by_id =
    rw (stream_channel_close-found ft c i x on_channel) (
      stream_channel_open-parsed closed c' _ _ r
        (parse_cookie-file_cookie filename x.fileid filesz n d k)
      ∙ open_offer-stale closed c' _ i (closed_slot x)
          (find_item-set_item (has_fileid x.fileid) ft.files i x (closed_slot x) by_id
            (eq_bytes_refl x.fileid))
          refl)
  where
    closed : ElaFileTransfer env
    closed = put_file ft i (closed_slot x)
