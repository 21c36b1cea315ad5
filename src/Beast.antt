-- ===== src/Beast.antt =====
-- The Boost.Beast echo server, src/boost-beast/echo_server.cpp: a session, its listener and `main`.
-- The library's asynchronous operations are parameters: an operation that was started completes
-- later, with what a completion says, and calls the handler that was bound to it.
pub mod Echo
pub mod Listener
pub mod Main
pub mod Server
use ws_benchmark.Prelude.{ℕ, Bool, true, false, List, [], ◌∷◌, ◌++◌, length, drop, ◌≡◌, ◌≢◌}

-- What `fail` is told: which operation failed.
pub data What : Type 0 where
  in_accept in_read in_write in_open in_set_option in_bind in_listen : What

-- `beast::error_code`, as far as the handlers look at it.
pub data ErrorCode : Type 0 where
  success closed other : ErrorCode

-- A message is text or binary.
pub record Message : Type 0 where
  pub got_text : Bool
  pub payload : List ℕ

-- The operation that a session has started and that is to complete.
pub data Pending : Type 0 where
  dispatch async_accept async_read async_write : Pending
  nothing : Pending  -- the last handler has returned with no operation started

-- `session`: the buffer, the operation under way, what was given to `async_write`, the last one
-- first, and what `fail` reported.
pub record Session : Type 0 where
  pub pending : Pending
  pub buffer : List ℕ
  pub writes : List Message
  pub failures : List What

unfoldable pub fail : What → Session → Session
fail what s = record s { pending = nothing; failures = what ∷ s.failures }

-- The constructor and `run`.
unfoldable pub run : Session
run = record { pending = dispatch; buffer = []; writes = []; failures = [] }

-- The options that `on_run` sets are the library's.
unfoldable pub on_run : Session → Session
on_run s = record s { pending = async_accept }

unfoldable pub do_read : Session → Session
do_read s = record s { pending = async_read }

unfoldable pub on_accept : ErrorCode → Session → Session
on_accept success s = do_read s
on_accept closed s = fail in_accept s
on_accept other s = fail in_accept s

-- `got_text` is what the stream says of the message that was read last.
unfoldable pub on_read : ErrorCode → Bool → Session → Session
on_read success got_text s = record s {
  pending = async_write;
  writes = record { got_text = got_text; payload = s.buffer } ∷ s.writes;
}
on_read closed got_text s = record s { pending = nothing }
on_read other got_text s = fail in_read s

-- `buffer_.consume(n)`
unfoldable pub consume : ℕ → Session → Session
consume n s = record s { buffer = drop n s.buffer }

unfoldable pub on_write : ErrorCode → Session → Session
on_write success s = do_read (consume (length s.buffer) s)
on_write closed s = fail in_write s
on_write other s = fail in_write s

-- `async_read` appends the message to the buffer. A read that fails may leave a part of one there.
unfoldable pub receive : List ℕ → Session → Session
receive bytes s = record s { buffer = s.buffer ++ bytes }

-- The steps of a session: the operation that is pending completes, and no other one. The label is the
-- message that came in whole.
pub data Step : List Message → Session → Session → Type 0 where
  run_step : (s : Session) → s.pending ≡ dispatch → Step [] s (on_run s)
  accept_step :
      (ec : ErrorCode) (s : Session) → s.pending ≡ async_accept → Step [] s (on_accept ec s)
  read_step :
      (m : Message) (s : Session)
      → s.pending ≡ async_read
      → Step (m ∷ []) s (on_read success m.got_text (receive m.payload s))
  read_fails :
      (ec : ErrorCode) (bytes : List ℕ) (text : Bool) (s : Session)
      → s.pending ≡ async_read
      → ec ≢ success
      → Step [] s (on_read ec text (receive bytes s))
  write_step : (ec : ErrorCode) (s : Session) → s.pending ≡ async_write → Step [] s (on_write ec s)

-- A session after some steps, and the messages that came in, the last one first.
pub data Reaches : List Message → Session → Type 0 where
  started : Reaches [] run
  steps :
      {ms new : List Message} {s s' : Session}
      → Reaches ms s
      → Step new s s'
      → Reaches (new ++ ms) s'
