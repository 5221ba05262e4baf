-- ===== src/FileTransfer/Moves.antt =====
-- Each event of a channel changes at most one slot, by a move of its state machine.
use elastos_net_carrier_nati.Base.{
  ℕ, ◌≡◌, refl, List, Bool, true, false, not, Option, some, ◌==◌, if_cases, if_both, arith,
}
use elastos_net_carrier_nati.Mux.Channel.{ok}
use elastos_net_carrier_nati.FileTransfer.Data.{
  FileState, FileTransferItem, ElaFileTransfer, Env, is_sender, is_receiver, transfering, is_free,
  is_standby, is_transfering, has_channel, has_fileid, find_item, get_fileinfo_free,
  get_fileinfo_channel, get_fileinfo_fileid, set_item, put_file, tell,
}
use elastos_net_carrier_nati.FileTransfer.Slots.{
  Move, taken, carried, started, paused, freed, Changes, nothing, free_state, standby_state,
  transfering_state, find_item-found, set_item-Changes,
}
use elastos_net_carrier_nati.FileTransfer.Cookie.{FileOffer, parse_cookie}
use elastos_net_carrier_nati.FileTransfer.Packet.{packet_pull, packet_cancel, packet_type}
use elastos_net_carrier_nati.FileTransfer.Events.{
  opened_file, closed_file, pending_file, resumed_file, ask_more, open_new_file, open_file,
  open_offer, stream_channel_open, stream_channel_opened, stream_channel_close, sender_pull,
  sender_cancel, receiver_data, data_on_file, stream_channel_data, stream_channel_pending,
  stream_channel_resume,
}

pub not-false : (b : Bool) → not b ≡ false → b ≡ true
not-false true e = refl
not-false false e = ground arith

-- A slot that was found and is written back after a move.
pub put-Changes :
    (xs : List FileTransferItem) (p : FileTransferItem → Bool) (i : ℕ) (x y : FileTransferItem)
    → find_item p xs ≡ some (i, x)
    → Move x y
    → Changes xs (set_item xs i y)
put-Changes xs p i x y e m = set_item-Changes xs i x y (find_item-found p xs i x e).0 m

pub same-Changes : (xs ys : List FileTransferItem) → ys ≡ xs → Changes xs ys
same-Changes xs ys e = rw e nothing

module _ {env : Env} where
  pub tell-files :
      {A : Type 0} (ft : ElaFileTransfer env) (o : Option A) (call : A → env.World → env.World)
      → (tell ft o call).files ≡ ft.files
  unfolding tell
  tell-files ft Option.none call = refl
  tell-files ft (some f) call = refl

  module _ (ft : ElaFileTransfer env) where
    abbrev Kept : ElaFileTransfer env → Type 0
    Kept ft' = Changes ft.files ft'.files

    abbrev Kept2 : Bool × ElaFileTransfer env → Type 0
    Kept2 r = Changes ft.files r.1.files

    open_new_file-Changes :
        (c : ℕ) (offer : FileOffer) (o : Option (ℕ × FileTransferItem))
        → find_item is_free ft.files ≡ o
        → Kept2 (open_new_file ft c offer o)
    unfolding open_new_file put_file
    open_new_file-Changes c offer Option.none e = nothing
    open_new_file-Changes c offer (some (i, x)) e =
        put-Changes ft.files is_free i x _ e
          (taken (free_state x (find_item-found is_free ft.files i x e).1) refl)

    open_file-Changes :
        (c : ℕ) (offer : FileOffer) (o : Option (ℕ × FileTransferItem))
        → find_item (has_fileid offer.fileid) ft.files ≡ o
        → Kept2 (open_file ft c offer o)
    unfolding open_file get_fileinfo_free put_file
    open_file-Changes c offer Option.none e = open_new_file-Changes c offer _ refl
    open_file-Changes c offer (some (i, x)) e =
        if_cases Kept2 (not (is_standby x)) (λ b. nothing)
          (λ b.
            if_cases Kept2 (not (x.filesz == offer.size)) (λ d. nothing)
              (λ d.
                put-Changes ft.files _ i x _ e
                  (carried (ok c) (standby_state x (not-false _ b)) refl)))

    open_offer-Changes : (c : ℕ) (o : Option FileOffer) → Kept2 (open_offer ft c o)
    unfolding open_offer get_fileinfo_fileid
    open_offer-Changes c Option.none = nothing
    open_offer-Changes c (some offer) = open_file-Changes c offer _ refl

    pub stream_channel_open-Changes :
        (c : ℕ) (cookie : Option (List ℕ)) → Kept2 (stream_channel_open ft c cookie)
    unfolding stream_channel_open
    stream_channel_open-Changes c Option.none = nothing
    stream_channel_open-Changes c (some cookie) =
        if_both Kept2 (not (is_receiver ft)) nothing (open_offer-Changes c (parse_cookie cookie))

    opened_file-Changes : (o : Option (ℕ × FileTransferItem)) → Kept (opened_file ft o)
    unfolding opened_file
    opened_file-Changes Option.none = nothing
    opened_file-Changes (some (i, x)) = same-Changes _ _ (tell-files ft ft.callbacks.file _)

    pub stream_channel_opened-Changes : (c : ℕ) → Kept (stream_channel_opened ft c)
    unfolding stream_channel_opened
    stream_channel_opened-Changes c =
        if_both Kept (not (is_receiver ft)) nothing (opened_file-Changes _)

    closed_file-Changes :
        (c : ℕ) (o : Option (ℕ × FileTransferItem))
        → find_item (has_channel c) ft.files ≡ o
        → Kept (closed_file ft o)
    unfolding closed_file put_file
    closed_file-Changes c Option.none e = nothing
    closed_file-Changes c (some (i, x)) e = put-Changes ft.files _ i x _ e (freed refl refl refl)

    pub stream_channel_close-Changes : (c : ℕ) → Kept (stream_channel_close ft c)
    unfolding stream_channel_close get_fileinfo_channel
    stream_channel_close-Changes c = closed_file-Changes c _ refl

    pending_file-Changes :
        (c : ℕ) (o : Option (ℕ × FileTransferItem))
        → find_item (has_channel c) ft.files ≡ o
        → Kept (pending_file ft o)
    unfolding pending_file put_file
    pending_file-Changes c Option.none e = nothing
    pending_file-Changes c (some (i, x)) e =
        if_cases Kept (not (is_transfering x)) (λ b. nothing)
          (λ b.
            rw (tell-files ft ft.callbacks.pending (λ f. f x.fileid))
              (put-Changes ft.files _ i x _ e (paused (transfering_state x (not-false _ b)) refl)))

    pub stream_channel_pending-Changes : (c : ℕ) → Kept (stream_channel_pending ft c)
    unfolding stream_channel_pending get_fileinfo_channel
    stream_channel_pending-Changes c =
        if_both Kept (not (is_sender ft)) nothing (pending_file-Changes c _ refl)

    resumed_file-Changes :
        (c : ℕ) (o : Option (ℕ × FileTransferItem))
        → find_item (has_channel c) ft.files ≡ o
        → Kept (resumed_file ft o)
    unfolding resumed_file put_file
    resumed_file-Changes c Option.none e = nothing
    resumed_file-Changes c (some (i, x)) e =
        if_cases Kept (not (is_standby x)) (λ b. nothing)
          (λ b.
            rw (tell-files ft ft.callbacks.resume (λ f. f x.fileid))
              (put-Changes ft.files _ i x _ e (started (standby_state x (not-false _ b)) refl)))

    pub stream_channel_resume-Changes : (c : ℕ) → Kept (stream_channel_resume ft c)
    unfolding stream_channel_resume get_fileinfo_channel
    stream_channel_resume-Changes c =
        if_both Kept (not (is_sender ft)) nothing (resumed_file-Changes c _ refl)

    ask_more-Changes :
        (o : Option (List ℕ → List ℕ → env.World → Bool × env.World)) (fileid data_ : List ℕ)
        → Kept2 (ask_more ft o fileid data_)
    unfolding ask_more
    ask_more-Changes Option.none fileid data_ = nothing
    ask_more-Changes (some f) fileid data_ = nothing

    data_on_file-Changes :
        (c : ℕ) (data_ : List ℕ) (o : Option (ℕ × FileTransferItem))
        → find_item (has_channel c) ft.files ≡ o
        → Kept2 (data_on_file ft data_ o)
    unfolding data_on_file sender_pull sender_cancel receiver_data put_file
    data_on_file-Changes c data_ Option.none e = nothing
    data_on_file-Changes c data_ (some (i, x)) e =
        if_both Kept2 (is_sender ft)
          (if_both Kept2 (packet_type data_ == packet_pull)
            (if_cases Kept2 (not (is_standby x)) (λ b. nothing)
              (λ b.
                rw
                  (tell-files (put_file ft i (record x { state = transfering })) ft.callbacks.pull
                    _)
                  (put-Changes ft.files _ i x _ e
                    (started (standby_state x (not-false _ b)) refl))))
            (if_both Kept2 (packet_type data_ == packet_cancel)
              (rw
                (tell-files (put_file ft i (record x { state = FileState.none }))
                  ft.callbacks.cancel _)
                (put-Changes ft.files _ i x _ e (freed refl refl refl)))
              nothing))
          (if_both Kept2 (is_receiver ft)
            (if_both Kept2 (not (is_transfering x)) nothing
              (ask_more-Changes ft.callbacks.data_ x.fileid data_))
            nothing)

    pub stream_channel_data-Changes :
        (c : ℕ) (data_ : List ℕ) → Kept2 (stream_channel_data ft c data_)
    unfolding stream_channel_data get_fileinfo_channel
    stream_channel_data-Changes c data_ = data_on_file-Changes c data_ _ refl
