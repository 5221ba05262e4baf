-- ===== src/EasyFile/Sending.antt =====
-- The loop of the sending thread of src/filetransfer/easyfile.c ends, and sends the rest of the file.
use elastos_net_carrier_nati.Base.{
  ℕ, zero, suc, ◌+◌, ◌-◌, ◌^◌, ◌≤◌, ◌<◌, ◌≡◌, refl, sym, ap, ap₂, ◌∙◌, List, [], ◌∷◌, ◌++◌, true,
  false, Option, none, some, arith, ltb, ◌==◌, length, take, drop, length-take, length-drop,
  take-append-drop, append_assoc, append-nil, if_cases, ltb-false, le_of_ltb-false, ltb→lt,
}
use elastos_net_carrier_nati.Base.Words.{add_size}
use elastos_net_carrier_nati.Mux.Channel.{Rc, ok, err}
use elastos_net_carrier_nati.FileTransfer.Data.{
  FileTransferItem, Env, Connection, is_sender, is_connected, is_transfering, get_fileinfo_fileid,
}
use elastos_net_carrier_nati.FileTransfer.Connection.{ela_filetransfer_close}
use elastos_net_carrier_nati.FileTransfer.Calls.{
  is_empty, write_on, send_slot, ela_filetransfer_send,
}
use elastos_net_carrier_nati.EasyFile.{
  Stdio, EasyFile, heard, world_of, with_world, report, close_file, close_on_error, send_length,
  send_piece, send_next, send_loop, start_sending, sending_file_routine,
}

-- How what was written on the channel and what is left of the file are seen in the world: a write
-- that succeeds takes all its bytes, a read of no more than is left gives them, neither does the
-- other's work, and the application's progress callback does neither.
pub record Watch {env : Env} (io : Stdio env.World) (f : EasyFile env)
    (written rest : env.World → List ℕ) : Type 0 where
  pub write_adds :
      (c : Rc) (data_ : List ℕ) (w : env.World) (n : ℕ)
      → (env.ela_stream_write_channel c data_ w).0 ≡ ok n
      → written (env.ela_stream_write_channel c data_ w).1 ≡ written w ++ data_
  pub write_keeps :
      (c : Rc) (data_ : List ℕ) (w : env.World)
      → rest (env.ela_stream_write_channel c data_ w).1 ≡ rest w
  pub read_takes :
      (len : ℕ) (w : env.World) → len ≤ length (rest w) → (io.fread len w).0 ≡ take len (rest w)
  pub read_drops :
      (len : ℕ) (w : env.World)
      → len ≤ length (rest w)
      → rest (io.fread len w).1 ≡ drop len (rest w)
  pub read_keeps : (len : ℕ) (w : env.World) → written (io.fread len w).1 ≡ written w
  pub sent_keeps :
      (n m : ℕ) (w : env.World)
      → (written (heard f.sent n m w) ≡ written w) × (rest (heard f.sent n m w) ≡ rest w)

-- The transfer lets the file be sent: it is the sender's, connected, and the file's slot is
-- transfering a file of the same size.
pub record Sends {env : Env} (f : EasyFile env) (i : ℕ) (x : FileTransferItem) : Type 0 where
  pub named : is_empty f.fileid ≡ false
  pub found : get_fileinfo_fileid f.ft.files f.fileid ≡ some (i, x)
  pub role : is_sender f.ft ≡ true
  pub connected : is_connected f.ft ≡ true
  pub running : is_transfering x ≡ true
  pub same_size : x.filesz ≡ f.filesz
  pub word_size : f.filesz < 2 ^ 64

-- How the loop ends: all that was left of the file has been written, in order; or the session has
-- refused a write, and the transfer is closed.
pub data Sent {env : Env} (written rest : env.World → List ℕ) (w : env.World)
    (r : Option (EasyFile env)) : Type 0 where
  complete :
      (w' : env.World) (f' : EasyFile env)
      → r ≡ some f'
      → world_of f' ≡ w'
      → written w' ≡ written w ++ rest w
      → Sent written rest w r
  stopped :
      (f' : EasyFile env) (c : Rc) (e : ℕ) (data_ : List ℕ) (w' : env.World)
      → r ≡ some f'
      → f'.ft.state ≡ Connection.closed
      → (env.ela_stream_write_channel c data_ w').0 ≡ err e
      → Sent written rest w r

length-zero : (xs : List ℕ) → length xs ≡ 0 → xs ≡ []
length-zero [] e = refl
length-zero (x ∷ xs) e = absurd (omega arith)

send_length-bounds :
    (filesz offset : ℕ)
    → offset < filesz
    → filesz < 2 ^ 64
    → (0 < send_length filesz offset) × (send_length filesz offset ≤ filesz - offset)
unfolding send_length
send_length-bounds filesz offset h k = (ground arith, ground arith)

module _ {env : Env} (io : Stdio env.World) (f : EasyFile env) (i : ℕ) (x : FileTransferItem)
    (s : Sends f i x) where
  -- A piece that is not empty and no longer than the file goes to the session.
  send_piece-written :
      (w : env.World) (buf : List ℕ)
      → (length buf == 0) ≡ false
      → ltb x.filesz (length buf) ≡ false
      → send_piece io (with_world f w) buf ≡ (
        (env.ela_stream_write_channel x.channel buf w).0,
        record f.ft { world = (env.ela_stream_write_channel x.channel buf w).1 },
      )
  unfolding send_piece ela_filetransfer_send send_slot write_on
  send_piece-written w buf a b = rw (a, s.named, s.found, b, s.role, s.connected, s.running) refl

  module _ (written rest : env.World → List ℕ) (watch : Watch io f written rest) where
    -- One round, from the world `w` with `offset` bytes of the file behind it.
    module _ (w : env.World) (offset : ℕ) (at : length (rest w) + offset ≡ f.filesz)
        (inside : offset < f.filesz) where
      abbrev len : ℕ
      len = send_length f.filesz offset

      abbrev after_read : env.World
      after_read = (io.fread len w).1

      abbrev piece : List ℕ
      piece = (io.fread len w).0

      abbrev wrote : Rc × env.World
      wrote = env.ela_stream_write_channel x.channel piece after_read

      abbrev after_round : env.World
      after_round = heard f.sent (add_size offset len) f.filesz wrote.1

      bounds : (0 < len) × (len ≤ f.filesz - offset)
      bounds = send_length-bounds f.filesz offset inside s.word_size

      fits : len ≤ length (rest w)
      fits = omega (arith, bounds.1)

      piece-take : piece ≡ take len (rest w)
      piece-take = watch.read_takes len w fits

      length-piece : length piece ≡ len
      length-piece = ap length piece-take ∙ omega (arith, length-take len (rest w), fits)

      filled : (length piece == 0) ≡ false
      filled = ground (arith, length-piece, bounds.0)

      short : ltb x.filesz (length piece) ≡ false
      short = ltb-false x.filesz (length piece) (omega (arith, length-piece, bounds.1, s.same_size))

      round :
          (fuel : ℕ)
          → send_loop io (suc fuel) (with_world f w) offset
            ≡ send_next io
                (with_world f after_read)
                (add_size offset len)
                (wrote.0, record f.ft { world = wrote.1 })
                (with_world f after_round)
                (send_loop io fuel (with_world f after_round) (add_size offset len))
      unfolding send_loop report
      round fuel = rw (send_piece-written after_read piece filled short) refl

      next_offset : add_size offset len ≡ offset + len
      next_offset = ground (arith, bounds.1, s.word_size)

      written-round :
          (n : ℕ) → wrote.0 ≡ ok n → written after_round ≡ written w ++ take len (rest w)
      written-round n e =
          (watch.sent_keeps (add_size offset len) f.filesz wrote.1).0
          ∙ watch.write_adds x.channel piece after_read n e
          ∙ ap₂ ◌++◌ (watch.read_keeps len w) piece-take

      rest-round : rest after_round ≡ drop len (rest w)
      rest-round =
          (watch.sent_keeps (add_size offset len) f.filesz wrote.1).1
          ∙ watch.write_keeps x.channel piece after_read
          ∙ watch.read_drops len w fits

      left : length (rest after_round) ≡ length (rest w) - len
      left = ap length rest-round ∙ length-drop len (rest w)

      joined :
          (n : ℕ) → wrote.0 ≡ ok n → written after_round ++ rest after_round ≡ written w ++ rest w
      joined n e =
          ap₂ ◌++◌ (written-round n e) rest-round
          ∙ append_assoc (written w) (take len (rest w)) (drop len (rest w))
          ∙ ap (λ xs. written w ++ xs) (take-append-drop len (rest w))

      done :
          (n : ℕ)
          → wrote.0 ≡ ok n
          → ltb (add_size offset len) f.filesz ≡ false
          → written after_round ≡ written w ++ rest w
      done n e b =
          sym (append-nil (written after_round))
          ∙ ap (λ xs. written after_round ++ xs) (sym (rest-round ∙ nothing_left))
          ∙ joined n e
        where
          nothing_left : drop len (rest w) ≡ []
          nothing_left = length-zero (drop len (rest w)) (
              omega (
                arith,
                length-drop len (rest w),
                fits,
                le_of_ltb-false (add_size offset len) f.filesz b,
                next_offset,
              ))

      extended :
          (n : ℕ) (more : Option (EasyFile env))
          → wrote.0 ≡ ok n
          → Sent written rest after_round more
          → Sent written rest w more
      extended n more e (complete w' f' a b c) = complete w' f' a b (c ∙ joined n e)
      extended n more e (stopped f' c m data_ w' a b d) = stopped f' c m data_ w' a b d

      finished :
          (rc : Rc) (more : Option (EasyFile env))
          → wrote.0 ≡ rc
          → (ltb (add_size offset len) f.filesz ≡ true → Sent written rest after_round more)
          → Sent written rest w (
              send_next io
                (with_world f after_read)
                (add_size offset len)
                (rc, record f.ft { world = wrote.1 })
                (with_world f after_round)
                more)
      unfolding send_next close_on_error close_file ela_filetransfer_close
      finished (err e) more p later = stopped _ x.channel e piece after_read refl refl p
      finished (ok n) more p later =
          if_cases (Sent written rest w) (ltb (add_size offset len) f.filesz)
            (λ b. extended n more p (later b))
            (λ b. complete after_round (with_world f after_round) refl refl (done n p b))

    send_loop-ends :
        (fuel : ℕ) (w : env.World) (offset : ℕ)
        → length (rest w) + offset ≡ f.filesz
        → offset < f.filesz
        → length (rest w) ≤ fuel
        → Sent written rest w (send_loop io fuel (with_world f w) offset)
    send_loop-ends zero w offset at inside k = absurd (omega arith)
    send_loop-ends (suc fuel) w offset at inside k = rw (round w offset at inside fuel) (
        finished w offset at inside (wrote w offset at inside).0 _ refl (λ b.
          send_loop-ends fuel (after_round w offset at inside)
            (add_size offset (len w offset at inside))
            (omega (
              arith,
              left w offset at inside,
              next_offset w offset at inside,
              fits w offset at inside,
            ))
            (ltb→lt _ _ b) (omega (arith, left w offset at inside, (bounds w offset at inside).0))))

-- The sending thread of a file that may be sent, which starts inside the file at the place that it
-- has been asked for, ends, on as much fuel as there are bytes left: it has written all that was left
-- of the file, in order, or the session has refused a write and the transfer is closed. The session
-- and the file are seen as `Watch` says, and the seek succeeds.
pub sending_file_routine-Sent :
    {env : Env} (io : Stdio env.World) (f : EasyFile env) (i : ℕ) (x : FileTransferItem)
    (written rest : env.World → List ℕ) (fuel : ℕ) (w : env.World)
    → Sends f i x
    → Watch io f written rest
    → io.fseek f.offset (world_of f) ≡ (none, w)
    → length (rest w) + f.offset ≡ f.filesz
    → f.offset < f.filesz
    → length (rest w) ≤ fuel
    → Sent written rest w (sending_file_routine io fuel f)
unfolding sending_file_routine start_sending
sending_file_routine-Sent io f i x written rest fuel w s watch seek at inside k =
    rw seek (send_loop-ends io f i x s written rest watch fuel w f.offset at inside k)
