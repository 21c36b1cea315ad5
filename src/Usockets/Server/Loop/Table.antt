-- ===== src/Usockets/Server/Loop/Table.antt =====
-- The TCP echo server as a table of what it owes the peer of each socket, and what its loop promises
-- of it.
use mathlib.Core.Option
use ws_benchmark.Prelude.{
  ℕ, ◌≡◌, Option, none, some, List, [], ◌∷◌, ◌++◌, length, ◌==◌, if◌then◌else◌, find, AllValues,
  Distinct,
}
use ws_benchmark.Usockets.Server.{EchoSocket, Env, Frame, max_data_len}
use ws_benchmark.Usockets.Server.Owed.{Inv, echoed, IsWriter, IsReady}
use ws_benchmark.Usockets.Server.Loop.{
  System, Event, open_event, data_event, writable_event, close_event, end_event, timeout_event,
  step,
}

abbrev pub Sockets : Type 0
Sockets = List (ℕ × EchoSocket)

-- What a socket has been sent, and is still to be sent.
abbrev pub owed_at : ℕ → Sockets → Option (List ℕ)
owed_at id l = Option.map echoed (find id l)

abbrev pub owe_more : List ℕ → Option (List ℕ) → Option (List ℕ)
owe_more bytes o = Option.map (λ xs. xs ++ bytes) o

-- The abstract server: an event changes one entry of the table, or none.
unfoldable pub entry_after : ℕ → Event → Option (List ℕ) → Option (List ℕ)
entry_after id (open_event j s) o = if j == id then some [] else o
entry_after id (data_event j bytes) o = if j == id then owe_more bytes o else o
entry_after id (writable_event j) o = o
entry_after id (close_event j) o = if j == id then none else o
entry_after id (end_event j) o = if j == id then none else o
entry_after id (timeout_event j) o = if j == id then none else o

unfoldable pub entry_by : ℕ → List (Env × Event) → Option (List ℕ) → Option (List ℕ)
entry_by id [] o = o
entry_by id ((env, e) ∷ es) o = entry_by id es (entry_after id e o)

-- The peers' and the library's part at an event: a new socket has a name of its own, a buffer of the
-- right size and was sent nothing, a socket takes no more than it is given, and what a peer sends fits
-- and finds no echo waiting.
abbrev pub Allowed : Env → Event → System → Type 0
Allowed env (open_event j s) y =
    (find j y.sockets ≡ none) × (length s.buf.data_block ≡ max_data_len) × (s.sent ≡ [])
Allowed env (data_event j bytes) y =
    IsWriter env × ((s : EchoSocket) → find j y.sockets ≡ some s → IsReady s (length bytes))
Allowed env (writable_event j) y = IsWriter env
Allowed env (close_event j) y = Unit {0}
Allowed env (end_event j) y = Unit {0}
Allowed env (timeout_event j) y = Unit {0}

abbrev pub AllAllowed : (Frame → Frame) → List (Env × Event) → System → Type 0
AllAllowed close [] y = Unit {0}
AllAllowed close ((env, e) ∷ es) y =
    Allowed env e y × ((z : System) → step close env e y ≡ some z → AllAllowed close es z)

pub record IsSound (y : System) : Type 0 where
  pub inv : AllValues Inv y.sockets
  pub distinct : Distinct y.sockets

pub record Serves (y : System) (entry : ℕ → Option (List ℕ) → Option (List ℕ)) (r : Option System)
    : Type 0 where
  pub after : System
  pub runs : r ≡ some after
  pub sound : IsSound after
  pub owed : (id : ℕ) → owed_at id after.sockets ≡ entry id (owed_at id y.sockets)
