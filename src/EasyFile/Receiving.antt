-- ===== src/EasyFile/Receiving.antt =====
-- The receiver of a file in src/filetransfer/easyfile.c: the pieces that come in are the file.
use elastos_net_carrier_nati.Base.{
  ℕ, ◌+◌, ◌^◌, ◌<◌, ◌≡◌, refl, sym, ap, ◌∙◌, List, [], ◌∷◌, ◌++◌, Bool, true, false, Option, none,
  some, arith, ◌==◌, if_both, length, append_assoc, append-nil, length-append, ltb-false,
}
use elastos_net_carrier_nati.Base.Words.{add_size}
use elastos_net_carrier_nati.Mux.Channel.{Rc, ok, err}
use elastos_net_carrier_nati.FileTransfer.Data.{ElaFileTransfer, Env, Connection}
use elastos_net_carrier_nati.FileTransfer.Connection.{
  refuse_request, drop_stream, ela_filetransfer_close,
}
use elastos_net_carrier_nati.FileTransfer.Cookie.{bundle_prefix}
use elastos_net_carrier_nati.EasyFile.{
  Stdio, EasyFile, heard, world_of, with_world, report, close_file, complete_file, count_data,
  notify_data_cb,
}

-- How the bytes of the local file are seen in the world: a write adds its bytes, and what closes the
-- file or the transfer, and the application's progress callback, leave them as they are.
pub record Keeps (env : Env) (io : Stdio env.World)
    (received : Option (ℕ → ℕ → env.World → env.World)) (stored : env.World → List ℕ) : Type 0 where
  pub write_adds : (data_ : List ℕ) (w : env.World) → stored (io.fwrite data_ w) ≡ stored w ++ data_
  pub finish_keeps : (name : List ℕ) (w : env.World) → stored (io.finish name w) ≡ stored w
  pub remove_keeps :
      (address : List ℕ) (w : env.World) → stored (env.filereqs_remove address w).1 ≡ stored w
  pub reply_keeps :
      (bundle : List ℕ) (accepted : Bool) (w : env.World)
      → stored (env.ela_session_reply_request bundle accepted w).1 ≡ stored w
  pub stream_keeps : (n : ℕ) (w : env.World) → stored (env.ela_session_remove_stream n w) ≡ stored w
  pub session_keeps : (w : env.World) → stored (env.ela_session_close w) ≡ stored w
  pub received_keeps : (n m : ℕ) (w : env.World) → stored (heard received n m w) ≡ stored w

-- The pieces joined, and the pieces received one after the other.
abbrev pub join : List (List ℕ) → List ℕ
join [] = []
join (p ∷ ps) = p ++ join ps

abbrev pub AllFilled : List (List ℕ) → Type 0
AllFilled [] = Unit {0}
AllFilled (p ∷ ps) = (0 < length p) × AllFilled ps

-- The file is complete: its bytes are those that were there and the pieces, it has been closed, and
-- the transfer too.
pub record Received {env : Env} (stored : env.World → List ℕ) (bytes : List ℕ)
    (r : Option (EasyFile env)) : Type 0 where
  pub file : EasyFile env
  pub ended : r ≡ some file
  pub bytes_stored : stored (world_of file) ≡ bytes
  pub file_closed : file.open_ ≡ false
  pub transfer_closed : file.ft.state ≡ Connection.closed
  pub all_counted : file.offset ≡ file.filesz

module _ {env : Env} (io : Stdio env.World) where
  abbrev receive_next :
      (EasyFile env → Option (EasyFile env)) → Option (EasyFile env) → Option (EasyFile env)
  receive_next go none = none
  receive_next go (some f) = go f

  unfoldable pub receive_pieces : List (List ℕ) → List ℕ → EasyFile env → Option (EasyFile env)
  unfolding notify_data_cb
  receive_pieces [] fileid f = some f
  receive_pieces (p ∷ ps) fileid f =
      receive_next (receive_pieces ps fileid) (notify_data_cb io f fileid p)

  module _ (received : Option (ℕ → ℕ → env.World → env.World)) (stored : env.World → List ℕ)
      (keeps : Keeps env io received stored) where
    refuse-stored :
        (ft : ElaFileTransfer env) (r : Option (List ℕ) × env.World)
        → stored (refuse_request ft r).world ≡ stored r.1
    unfolding refuse_request
    refuse-stored ft (none, w) = refl
    refuse-stored ft (some sdp, w) = keeps.reply_keeps bundle_prefix false w

    drop_stream-stored :
        (ft : ElaFileTransfer env) (rc : Rc) → stored (drop_stream ft rc).world ≡ stored ft.world
    unfolding drop_stream
    drop_stream-stored ft (err e) = refl
    drop_stream-stored ft (ok n) =
        if_both {A = ElaFileTransfer env} (λ r. stored r.world ≡ stored ft.world) (n == 0) refl
          (keeps.stream_keeps n ft.world)

    close-stored :
        (ft : ElaFileTransfer env) → stored (ela_filetransfer_close ft).world ≡ stored ft.world
    unfolding ela_filetransfer_close
    close-stored ft =
        keeps.session_keeps (drop_stream refused refused.stream).world
        ∙ drop_stream-stored refused refused.stream
        ∙ refuse-stored ft (env.filereqs_remove ft.address ft.world)
        ∙ keeps.remove_keeps ft.address ft.world
      where
        refused : ElaFileTransfer env
        refused = refuse_request ft (env.filereqs_remove ft.address ft.world)

    -- A piece has been written; what follows depends on the new offset.
    abbrev grown : EasyFile env → List ℕ → EasyFile env
    grown f p = record (with_world f (io.fwrite p (world_of f))) {
      offset = add_size f.offset (length p);
    }

    open_data :
        (f : EasyFile env) (fileid p : List ℕ)
        → f.open_ ≡ true
        → notify_data_cb io f fileid p ≡ some (count_data io (grown f p) fileid)
    unfolding notify_data_cb
    open_data f fileid p o = rw o refl

    count_more :
        (g : EasyFile env) (fileid : List ℕ)
        → g.offset < g.filesz
        → count_data io g fileid ≡ report g g.received g.offset
    unfolding count_data
    count_more g fileid h =
        rw (ltb-false g.filesz g.offset (omega arith), not_equal g.offset g.filesz h) refl
      where
        not_equal : (a b : ℕ) → a < b → (a == b) ≡ false
        not_equal a b h = ground arith

    count_last :
        (g : EasyFile env) (fileid : List ℕ)
        → g.offset ≡ g.filesz
        → count_data io g fileid ≡ report (complete_file io g) g.received g.offset
    unfolding count_data
    count_last g fileid h =
        rw (ltb-false g.filesz g.offset (omega arith), equal g.offset g.filesz h) refl
      where
        equal : (a b : ℕ) → a ≡ b → (a == b) ≡ true
        equal a b h = ground arith

    complete_file-stored :
        (g : EasyFile env) → stored (world_of (complete_file io g)) ≡ stored (world_of g)
    unfolding complete_file close_file
    complete_file-stored g =
        close-stored (record g.ft { world = io.finish g.filename (world_of g) })
        ∙ keeps.finish_keeps g.filename (world_of g)

    report-stored :
        (g : EasyFile env) (call : Option (ℕ → ℕ → env.World → env.World)) (n : ℕ)
        → call ≡ received
        → stored (world_of (report g call n)) ≡ stored (world_of g)
    unfolding report
    report-stored g call n c =
        ap (λ k. stored (heard k n g.filesz (world_of g))) c
        ∙ keeps.received_keeps n g.filesz (world_of g)

    last_file : EasyFile env → List ℕ → EasyFile env
    last_file f p = report (complete_file io (grown f p)) (grown f p).received (grown f p).offset

    last_file-stored :
        (f : EasyFile env) (p : List ℕ)
        → f.received ≡ received
        → stored (world_of (last_file f p)) ≡ stored (world_of f) ++ p
    unfolding last_file
    last_file-stored f p c =
        report-stored (complete_file io (grown f p)) f.received (add_size f.offset (length p)) c
        ∙ complete_file-stored (grown f p)
        ∙ keeps.write_adds p (world_of f)

    last_piece :
        (f : EasyFile env) (fileid p : List ℕ)
        → f.received ≡ received
        → f.open_ ≡ true
        → add_size f.offset (length p) ≡ f.filesz
        → Received stored (stored (world_of f) ++ p) (notify_data_cb io f fileid p)
    unfolding last_file complete_file close_file report ela_filetransfer_close
    last_piece f fileid p c o e = record {
      file = last_file f p;
      ended = open_data f fileid p o ∙ ap some (count_last (grown f p) fileid e);
      bytes_stored = last_file-stored f p c;
      file_closed = refl;
      transfer_closed = refl;
      all_counted = e;
    }

    next_file : EasyFile env → List ℕ → EasyFile env
    next_file f p = report (grown f p) (grown f p).received (grown f p).offset

    next_piece :
        (f : EasyFile env) (fileid p : List ℕ)
        → f.open_ ≡ true
        → add_size f.offset (length p) < f.filesz
        → notify_data_cb io f fileid p ≡ some (next_file f p)
    unfolding next_file
    next_piece f fileid p o h = open_data f fileid p o ∙ ap some (count_more (grown f p) fileid h)

    next_file-stored :
        (f : EasyFile env) (p : List ℕ)
        → f.received ≡ received
        → stored (world_of (next_file f p)) ≡ stored (world_of f) ++ p
    unfolding next_file
    next_file-stored f p c =
        report-stored (grown f p) f.received (add_size f.offset (length p)) c
        ∙ keeps.write_adds p (world_of f)

    -- The same file, as the result of a longer run.
    moved_to :
        (bytes bytes' : List ℕ) (r r' : Option (EasyFile env))
        → ((f : EasyFile env) → r ≡ some f → r' ≡ some f)
        → bytes ≡ bytes'
        → Received stored bytes r
        → Received stored bytes' r'
    moved_to bytes bytes' r r' e b got = record {
      file = got.file;
      ended = e got.file got.ended;
      bytes_stored = got.bytes_stored ∙ b;
      file_closed = got.file_closed;
      transfer_closed = got.transfer_closed;
      all_counted = got.all_counted;
    }

    add_size-small : (a b : ℕ) → a + b < 2 ^ 64 → add_size a b ≡ a + b
    add_size-small a b h = ground arith

    -- A file that is open takes pieces of data, none of them empty, which together are what it still
    -- lacks: then its bytes are those that were there and the pieces, in order, it has been closed, and
    -- so has the transfer, and all its bytes are counted. The local file is seen as `Keeps` says.
    pub receive_pieces-Received :
        (pieces : List (List ℕ)) (fileid : List ℕ) (f : EasyFile env)
        → f.received ≡ received
        → f.open_ ≡ true
        → AllFilled pieces
        → f.offset + length (join pieces) ≡ f.filesz
        → f.offset < f.filesz
        → f.filesz < 2 ^ 64
        → Received stored (stored (world_of f) ++ join pieces) (receive_pieces pieces fileid f)
    unfolding receive_pieces next_file report
    receive_pieces-Received [] fileid f c o all total inside small = absurd (omega arith)
    receive_pieces-Received (p ∷ []) fileid f c o all total inside small =
        moved_to (stored (world_of f) ++ p) (stored (world_of f) ++ (p ++ []))
          (notify_data_cb io f fileid p)
          (receive_next (receive_pieces [] fileid) (notify_data_cb io f fileid p))
          (λ g e. ap (receive_next (receive_pieces [] fileid)) e)
          (ap (λ xs. stored (world_of f) ++ xs) (sym (append-nil p)))
          (last_piece f fileid p c o (add_size-small f.offset (length p) small_sum ∙ whole))
      where
        whole : f.offset + length p ≡ f.filesz
        whole = omega (arith, length-append p [])

        small_sum : f.offset + length p < 2 ^ 64
        small_sum = omega (arith, whole)
    receive_pieces-Received (p ∷ q ∷ ps) fileid f c o (a, (b, all)) total inside small =
        rw (next_piece f fileid p o before) (
          moved_to (stored (world_of (next_file f p)) ++ join (q ∷ ps))
            (stored (world_of f) ++ (p ++ join (q ∷ ps)))
            (receive_pieces (q ∷ ps) fileid (next_file f p))
            (receive_pieces (q ∷ ps) fileid (next_file f p)) (λ g e. e)
            (ap (λ xs. xs ++ join (q ∷ ps)) (next_file-stored f p c)
              ∙ append_assoc (stored (world_of f)) p (join (q ∷ ps)))
            (receive_pieces-Received (q ∷ ps) fileid (next_file f p) c o (b, all)
              (omega (arith, offset, length-append p (join (q ∷ ps)))) before small))
      where
        rest_filled : 0 < length (join (q ∷ ps))
        rest_filled = omega (arith, length-append q (join ps), b)

        offset : add_size f.offset (length p) ≡ f.offset + length p
        offset =
            add_size-small f.offset (length p)
              (omega (arith, length-append p (join (q ∷ ps)), rest_filled))

        before : add_size f.offset (length p) < f.filesz
        before = omega (arith, offset, length-append p (join (q ∷ ps)), rest_filled)
