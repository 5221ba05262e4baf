-- ===== src/Session/Effects.antt =====
-- What the calls of src/session/session.c on the channels of a stream do to the session.
use elastos_net_carrier_nati.Base.{
  ℕ, ◌≡◌, refl, List, Bool, true, false, not, ◌&&◌, ◌||◌, Option, none, some, ltb, ◌==◌,
  if◌then◌else◌, if_cases, arith,
}
use elastos_net_carrier_nati.Elaerr
use elastos_net_carrier_nati.Mux.Channel.{Rc, ok, err, System, user}
use elastos_net_carrier_nati.Mux.Handler.{MultiplexHandler}
use elastos_net_carrier_nati.Mux.Local.{
  multiplex_handler_open_channel, multiplex_handler_close_channel, multiplex_handler_write_channel,
  multiplex_handler_pend_channel, multiplex_handler_resume_channel,
}
use elastos_net_carrier_nati.FileTransfer.Moves.{not-false}
use elastos_net_carrier_nati.FlexBuffer.{ela_max_user_data_len}
use elastos_net_carrier_nati.Session.{
  ℤ, is_negative, natural, is_null, bytes_at, ElaStream, is_connected_state, data_buffer,
  get_stream, put_mux, call_mux, on_stream, to_zero, ela_stream_open_channel,
  ela_stream_close_channel, ela_stream_write_channel, ela_stream_pend_channel,
  ela_stream_resume_channel,
}

-- The result of a call that says how much was done, and of one that only says whether it was.
abbrev pub zeroed : Rc → Rc
zeroed (err e) = err e
zeroed (ok n) = ok 0

abbrev pub same : Rc → Rc
same rc = rc

-- All that a call of a session can do: refuse arguments that are out of range; refuse a stream that
-- is not there, one that is not connected where the call needs that, or one without a multiplexer; or
-- make one call of the stream's multiplexer, whose result is passed on. A refusal changes nothing.
pub data Effect {sys : System} (ws : List (ElaStream sys)) (n : ℕ) (out_of_range : Bool)
    (needs_connection : Bool) (call : MultiplexHandler sys → Rc × MultiplexHandler sys)
    (result : Rc → Rc) (r : Rc × List (ElaStream sys)) : Type 0 where
  refused :
      out_of_range ≡ true
      → r ≡ (err Elaerr.invalid_args, ws)
      → Effect ws n out_of_range needs_connection call result r
  missing :
      out_of_range ≡ false
      → get_stream ws n ≡ none
      → r ≡ (err Elaerr.not_exist, ws)
      → Effect ws n out_of_range needs_connection call result r
  unconnected :
      (s : ElaStream sys)
      → out_of_range ≡ false
      → get_stream ws n ≡ some s
      → needs_connection ≡ true
      → not (is_connected_state s.state) ≡ true
      → r ≡ (err Elaerr.wrong_state, ws)
      → Effect ws n out_of_range needs_connection call result r
  unmultiplexed :
      (s : ElaStream sys)
      → out_of_range ≡ false
      → get_stream ws n ≡ some s
      → s.mux ≡ none
      → r ≡ (err Elaerr.wrong_state, ws)
      → Effect ws n out_of_range needs_connection call result r
  called :
      (s : ElaStream sys) (h : MultiplexHandler sys)
      → out_of_range ≡ false
      → get_stream ws n ≡ some s
      → s.mux ≡ some h
      → (needs_connection ≡ true → is_connected_state s.state ≡ true)
      → r ≡ (result (call h).0, put_mux ws n (call h).1)
      → Effect ws n out_of_range needs_connection call result r

module _ {sys : System} (ws : List (ElaStream sys)) (n : ℕ) where
  module _ (bad needs : Bool) (call : MultiplexHandler sys → Rc × MultiplexHandler sys)
      (good : bad ≡ false) where
    call_mux-Effect :
        (s : ElaStream sys) (m : Option (MultiplexHandler sys))
        → get_stream ws n ≡ some s
        → s.mux ≡ m
        → (needs ≡ true → is_connected_state s.state ≡ true)
        → Effect ws n bad needs call same (call_mux ws n call m)
    unfolding call_mux
    call_mux-Effect s none found e ready = unmultiplexed s good found e refl
    call_mux-Effect s (some h) found e ready = called s h good found e ready refl

    on_stream-Effect :
        (o : Option (ElaStream sys))
        → get_stream ws n ≡ o
        → Effect ws n bad needs call same (on_stream ws n needs call o)
    unfolding on_stream
    on_stream-Effect none e = missing good e refl
    on_stream-Effect (some s) e =
        if_cases (Effect ws n bad needs call same) needs
          (λ b.
            if_cases (Effect ws n bad needs call same) (not (is_connected_state s.state))
              (λ c. unconnected s good e b c refl)
              (λ c. call_mux-Effect s _ e refl (λ d. not-false _ c)))
          (λ b. call_mux-Effect s _ e refl (λ d. ground (arith, b, d)))

    to_zero-Effect :
        (r : Rc × List (ElaStream sys))
        → Effect ws n bad needs call same r
        → Effect ws n bad needs call zeroed (to_zero r)
    unfolding to_zero
    to_zero-Effect r (refused b p) = rw p (refused b refl)
    to_zero-Effect r (missing g e p) = rw p (missing g e refl)
    to_zero-Effect r (unconnected s g e b c p) = rw p (unconnected s g e b c refl)
    to_zero-Effect r (unmultiplexed s g e m p) = rw p (unmultiplexed s g e m refl)
    to_zero-Effect r (called s h g found has ready p) = rw p (go (call h).0 refl)
      where
        go :
            (rc : Rc)
            → (call h).0 ≡ rc
            → Effect ws n bad needs call zeroed (to_zero (rc, put_mux ws n (call h).1))
        go (err e) q = called s h g found has ready (rw q refl)
        go (ok k) q = called s h g found has ready (rw q refl)

  -- A test of the arguments that comes before the rest of a call, alone or with a second one.
  guarded :
      (bad needs : Bool) (call : MultiplexHandler sys → Rc × MultiplexHandler sys)
      (result : Rc → Rc) (r : Rc × List (ElaStream sys))
      → (bad ≡ false → Effect ws n bad needs call result r)
      → Effect ws n bad needs call result (if bad then (err Elaerr.invalid_args, ws) else r)
  guarded bad needs call result r rest =
      if_cases (Effect ws n bad needs call result) bad (λ b. refused b refl) rest

  guarded_twice :
      (bad worse needs : Bool) (call : MultiplexHandler sys → Rc × MultiplexHandler sys)
      (result : Rc → Rc) (r : Rc × List (ElaStream sys))
      → ((if bad then true else worse) ≡ false
          → Effect ws n (if bad then true else worse) needs call result r)
      → Effect ws n (if bad then true else worse) needs call result (
          if bad
          then (err Elaerr.invalid_args, ws)
          else if worse
          then (err Elaerr.invalid_args, ws)
          else r)
  guarded_twice true worse needs call result r rest = refused refl refl
  guarded_twice false worse needs call result r rest = guarded worse needs call result r rest

  -- Opening, closing, writing, pending and resuming: an argument out of range is refused, that is the
  -- stream 0, the channel 0 to pend or resume, or to write a negative channel, data of a length but no
  -- pointer, a pointer but no length, or more than 2048 bytes; then a stream that is not there, that
  -- has no multiplexer, or to open and write is not connected. Each refusal has its error and changes
  -- nothing. Otherwise one call of the stream's multiplexer is what is done, whose error is passed on,
  -- and whose result is passed on from opening and writing and is 0 otherwise.
  pub calls-Effect :
      (channel : ℕ) (target : ℤ) (cookie data_ : Option (List ℕ)) (len : ℕ)
      → Effect ws n
          (n == 0)
          true
          (λ h. multiplex_handler_open_channel h user cookie 0 0)
          same
          (ela_stream_open_channel ws n cookie)
        × Effect ws n
            (n == 0)
            false
            (λ h. multiplex_handler_close_channel h channel)
            zeroed
            (ela_stream_close_channel ws n channel)
        × Effect ws n
            (n == 0
              || (is_negative target
                  || (not (len == 0) && is_null data_
                      || (len == 0 && not (is_null data_) || ltb ela_max_user_data_len len))))
            true
            (λ h.
              multiplex_handler_write_channel h (natural target) (data_buffer (bytes_at data_ len)))
            same
            (ela_stream_write_channel ws n target data_ len)
        × Effect ws n
            (if n == 0 then true else channel == 0)
            false
            (λ h. multiplex_handler_pend_channel h channel)
            zeroed
            (ela_stream_pend_channel ws n channel)
        × Effect ws n
            (if n == 0 then true else channel == 0)
            false
            (λ h. multiplex_handler_resume_channel h channel)
            zeroed
            (ela_stream_resume_channel ws n channel)
  unfolding ela_stream_open_channel ela_stream_close_channel ela_stream_write_channel
      ela_stream_pend_channel ela_stream_resume_channel
  calls-Effect channel target cookie data_ len = (
    guarded (n == 0) true _ same _ (λ g. on_stream-Effect _ true _ g _ refl),
    guarded (n == 0) false _ zeroed _
        (λ g. to_zero-Effect _ false _ g _ (on_stream-Effect _ false _ g _ refl)),
    guarded _ true _ same _ (λ g. on_stream-Effect _ true _ g _ refl),
    guarded_twice (n == 0) (channel == 0) false _ zeroed _
        (λ g. to_zero-Effect _ false _ g _ (on_stream-Effect _ false _ g _ refl)),
    guarded_twice (n == 0) (channel == 0) false _ zeroed _
        (λ g. to_zero-Effect _ false _ g _ (on_stream-Effect _ false _ g _ refl)),
  )
