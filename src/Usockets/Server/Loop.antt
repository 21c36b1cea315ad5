-- ===== src/Usockets/Server/Loop.antt =====
-- The event loop of the TCP echo server over all of its sockets.
pub mod Connections
pub mod Done
pub mod Serves
pub mod Table
use ws_benchmark.Prelude.{
  ℕ, suc, ◌≡◌, refl, ap, sym, ◌∙◌, Bool, Option, none, some, List, [], ◌∷◌, length, arith, ◌==◌,
  ◌>>=◌, if◌then◌else◌, true, find, replace, remove,
}
use ws_benchmark.Prelude.Int.{pos, inc, dec}
use ws_benchmark.Usockets.Server.{
  EchoSocket, Globals, Env, Frame, start, flushed, advance, count_stats, write_out, on_writable,
  whole_message, part_message, on_data, on_open, on_close, on_end, on_timeout, received,
}

pub record System : Type 0 where
  pub globals : Globals
  pub sockets : List (ℕ × EchoSocket)

-- An event names its socket; a new socket's extension holds what the memory held.
pub data Event : Type 0 where
  open_event : ℕ → EchoSocket → Event
  data_event : ℕ → List ℕ → Event
  writable_event close_event end_event timeout_event : ℕ → Event

-- A callback on a socket that stays.
abbrev pub kept : ℕ → System → Frame → System
kept id y f = record { globals = f.globals; sockets = replace id f.socket y.sockets }

-- A callback on a socket that is gone after it.
abbrev pub gone : ℕ → System → Frame → System
gone id y f = record { globals = f.globals; sockets = remove id y.sockets }

-- The library raises events only for sockets that it has.
abbrev pub with_socket : ℕ → System → (Frame → Option System) → Option System
with_socket id y k = elim (find id y.sockets) [
  | none ↦ some y
  | some s ↦ k (record { globals = y.globals; socket = s })
]

unfoldable pub step : (Frame → Frame) → Env → Event → System → Option System
step close env (open_event id s) y =
    let f = on_open (record { globals = y.globals; socket = s }) in
    some (record { globals = f.globals; sockets = (id, f.socket) ∷ y.sockets })
step close env (data_event id bytes) y =
    with_socket id y λ f. do g ← on_data env bytes f; some (kept id y g)
step close env (writable_event id) y =
    with_socket id y λ f. do g ← on_writable env f; some (kept id y g)
step close env (close_event id) y = with_socket id y λ f. some (gone id y (on_close f))
step close env (end_event id) y = with_socket id y λ f. some (gone id y (on_end close f))
step close env (timeout_event id) y = with_socket id y λ f. some (gone id y (on_timeout close f))

pub run : (Frame → Frame) → List (Env × Event) → System → Option System
run close [] y = some y
run close ((env, e) ∷ es) y = step close env e y >>= run close es
