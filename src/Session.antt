-- ===== src/Session.antt =====
-- src/session/session.c: what the application may ask of the channels of a stream. A session is the
-- list of its streams; each has a pipeline of its own, so that the handlers share nothing. A stream
-- number that is not positive is 0 here, and so is a channel that is negative, which no table has,
-- except where data are written: there 0 is the stream itself, and the channel is a signed number.
pub mod Writing
pub mod Effects
mod Tests
use elastos_net_carrier_nati.Base.{
  ℕ, ◌+◌, List, [], ◌∷◌, Bool, true, false, not, ◌&&◌, ◌||◌, Option, none, some, ltb, ◌==◌,
  if◌then◌else◌, length, take, replicate,
}
use elastos_net_carrier_nati.Elaerr
use elastos_net_carrier_nati.FlexBuffer.{
  FlexBuffer, flex_padding_len, ela_max_user_data_len, flex_buffer_from,
}
use elastos_net_carrier_nati.Mux.Channel.{Rc, ok, err, System, user}
use elastos_net_carrier_nati.Mux.Handler.{MultiplexHandler}
use elastos_net_carrier_nati.Mux.Local.{
  multiplex_handler_open_channel, multiplex_handler_close_channel, multiplex_handler_write_channel,
  multiplex_handler_pend_channel, multiplex_handler_resume_channel,
}
use elastos_net_carrier_nati.FileTransfer.Data.{StreamState}

-- `struct ElaStream`: its number, its state, and its multiplexer, if it has one.
pub record ElaStream (sys : System) : Type 0 where
  pub id : ℕ
  pub state : StreamState
  pub mux : Option (MultiplexHandler sys)

abbrev pub is_connected_state : StreamState → Bool
is_connected_state StreamState.initialized = false
is_connected_state StreamState.transport_ready = false
is_connected_state StreamState.connecting = false
is_connected_state StreamState.connected = true
is_connected_state StreamState.deactivated = false
is_connected_state StreamState.closed = false
is_connected_state StreamState.failed = false

-- A signed number.
pub data ℤ : Type 0 where
  pos negsuc : ℕ → ℤ

abbrev pub is_negative : ℤ → Bool
is_negative (pos n) = false
is_negative (negsuc n) = true

abbrev pub natural : ℤ → ℕ
natural (pos n) = n
natural (negsuc n) = 0

-- A pointer to data, which is NULL or has the memory that begins there.
abbrev pub is_null : Option (List ℕ) → Bool
is_null none = true
is_null (some bytes) = false

abbrev pub bytes_at : Option (List ℕ) → ℕ → List ℕ
bytes_at none len = []
bytes_at (some bytes) len = take len bytes

-- The buffer that `ela_stream_write_channel` puts the data into.
unfoldable pub data_buffer : List ℕ → FlexBuffer
unfolding flex_buffer_from
data_buffer data_ =
    flex_buffer_from (replicate (length data_ + flex_padding_len) 0) flex_padding_len data_

module _ {sys : System} where
  -- `get_stream`
  unfoldable pub get_stream : List (ElaStream sys) → ℕ → Option (ElaStream sys)
  get_stream [] n = none
  get_stream (s ∷ ss) n = let later = get_stream ss n in if s.id == n then some s else later

  -- The stream's multiplexer after a call of it.
  unfoldable pub put_mux : List (ElaStream sys) → ℕ → MultiplexHandler sys → List (ElaStream sys)
  put_mux [] n h = []
  put_mux (s ∷ ss) n h =
      let later = put_mux ss n h in if s.id == n then record s { mux = some h } ∷ ss else s ∷ later

  -- The call of the multiplexer, if the stream has one.
  unfoldable pub call_mux :
      List (ElaStream sys)
      → ℕ
      → (MultiplexHandler sys → Rc × MultiplexHandler sys)
      → Option (MultiplexHandler sys)
      → Rc × List (ElaStream sys)
  unfolding put_mux
  call_mux ws n call none = (err Elaerr.wrong_state, ws)
  call_mux ws n call (some h) = let (rc, h1) = call h in (rc, put_mux ws n h1)

  -- The part that all calls share: the stream must be there, and those that open or write need it
  -- to be connected.
  unfoldable pub on_stream :
      List (ElaStream sys)
      → ℕ
      → Bool
      → (MultiplexHandler sys → Rc × MultiplexHandler sys)
      → Option (ElaStream sys)
      → Rc × List (ElaStream sys)
  unfolding call_mux
  on_stream ws n needs_connection call none = (err Elaerr.not_exist, ws)
  on_stream ws n needs_connection call (some s) =
      let done = call_mux ws n call s.mux in
      if needs_connection
      then if not (is_connected_state s.state) then (err Elaerr.wrong_state, ws) else done
      else done

  -- The result 0 of a call that is not told how much was done.
  unfoldable pub to_zero : Rc × List (ElaStream sys) → Rc × List (ElaStream sys)
  to_zero (err e, ws) = (err e, ws)
  to_zero (ok n, ws) = (ok 0, ws)

  -- `ela_stream_open_channel`
  unfoldable pub ela_stream_open_channel :
      List (ElaStream sys) → ℕ → Option (List ℕ) → Rc × List (ElaStream sys)
  unfolding on_stream get_stream multiplex_handler_open_channel
  ela_stream_open_channel ws stream cookie =
      if stream == 0
      then (err Elaerr.invalid_args, ws)
      else on_stream ws stream true (λ h. multiplex_handler_open_channel h user cookie 0 0)
          (get_stream ws stream)

  -- `ela_stream_close_channel`
  unfoldable pub ela_stream_close_channel : List (ElaStream sys) → ℕ → ℕ → Rc × List (ElaStream sys)
  unfolding on_stream to_zero get_stream multiplex_handler_close_channel
  ela_stream_close_channel ws stream channel =
      if stream == 0
      then (err Elaerr.invalid_args, ws)
      else to_zero (
          on_stream ws stream false (λ h. multiplex_handler_close_channel h channel)
            (get_stream ws stream))

  -- `ela_stream_write_channel`
  unfoldable pub ela_stream_write_channel :
      List (ElaStream sys) → ℕ → ℤ → Option (List ℕ) → ℕ → Rc × List (ElaStream sys)
  unfolding on_stream get_stream data_buffer multiplex_handler_write_channel
  ela_stream_write_channel ws stream channel data_ len =
      if stream == 0
        || (is_negative channel
            || (not (len == 0) && is_null data_
                || (len == 0 && not (is_null data_) || ltb ela_max_user_data_len len)))
      then (err Elaerr.invalid_args, ws)
      else on_stream ws stream true
          (λ h.
            multiplex_handler_write_channel h (natural channel) (data_buffer (bytes_at data_ len)))
          (get_stream ws stream)

  -- `ela_stream_pend_channel`
  unfoldable pub ela_stream_pend_channel : List (ElaStream sys) → ℕ → ℕ → Rc × List (ElaStream sys)
  unfolding on_stream to_zero get_stream multiplex_handler_pend_channel
  ela_stream_pend_channel ws stream channel =
      if stream == 0
      then (err Elaerr.invalid_args, ws)
      else if channel == 0
      then (err Elaerr.invalid_args, ws)
      else to_zero (
          on_stream ws stream false (λ h. multiplex_handler_pend_channel h channel)
            (get_stream ws stream))

  -- `ela_stream_resume_channel`
  unfoldable pub ela_stream_resume_channel :
      List (ElaStream sys) → ℕ → ℕ → Rc × List (ElaStream sys)
  unfolding on_stream to_zero get_stream multiplex_handler_resume_channel
  ela_stream_resume_channel ws stream channel =
      if stream == 0
      then (err Elaerr.invalid_args, ws)
      else if channel == 0
      then (err Elaerr.invalid_args, ws)
      else to_zero (
          on_stream ws stream false (λ h. multiplex_handler_resume_channel h channel)
            (get_stream ws stream))
