-- ===== src/Fws/Server/Loop/Table.antt =====
-- The flashws echo server as a table of what each connection shows, and what its loop promises of it.
use mathlib.Core.Option
use ws_benchmark.Prelude.{
  ℕ, ◌+◌, ◌≡◌, Option, none, some, List, [], ◌∷◌, ◌==◌, if◌then◌else◌, find, Distinct, AllValues,
}
use ws_benchmark.Fws.{FlashWs, Outcome, done, contents}
use ws_benchmark.Fws.Buffers.{Holds}
use ws_benchmark.Fws.Server.{ConnectCtx, Env, Part}
use ws_benchmark.Fws.Server.Assembly.{View, next, IsAllowed}
use ws_benchmark.Fws.Server.Intervals.{Inv}
use ws_benchmark.Fws.Server.Loop.{System, Event, connects, reads, closes, step}

-- What a connection shows: what its buffer holds, and what was sent.
abbrev pub view_of : ConnectCtx → View
view_of c = record { collected = contents c.io_buf; echoed = c.sent }

abbrev pub shown_by : Option ConnectCtx → Option View
shown_by o = Option.map view_of o

-- The abstract server: a table of what each connection shows. An event changes one entry of it.
abbrev pub with_part : Part → Option View → Option View
with_part p o = Option.map (next p) o

unfoldable pub entry_after : ℕ → Event → Option View → Option View
entry_after id (connects j) o = if j == id then some (record { collected = []; echoed = [] }) else o
entry_after id (reads j p) o = if j == id then with_part p o else o
entry_after id (closes j status_code reason) o = if j == id then none else o

unfoldable pub entry_by : ℕ → List (Env × Event) → Option View → Option View
entry_by id [] o = o
entry_by id ((env, e) ∷ es) o = entry_by id es (entry_after id e o)

module _ (fws : FlashWs) (max : ℕ) where
  abbrev pub size_of_buf : ℕ
  size_of_buf = max + fws.hdr_size

  -- The buffer of a connection has room for a message.
  abbrev pub IsHeld : ConnectCtx → Type 0
  IsHeld c = Holds fws.hdr_size max (contents c.io_buf) c.io_buf

  -- A new connection has a name of its own; no message is longer than `max`, and what is whole can
  -- be written.
  abbrev pub Allowed : Env → Event → System → Type 0
  Allowed env (connects j) y = find j y.connections ≡ none
  Allowed env (reads j p) y =
      (c : ConnectCtx) → find j y.connections ≡ some c → IsAllowed max env p (view_of c)
  Allowed env (closes j status_code reason) y = Unit {0}

  abbrev pub AllAllowed : List (Env × Event) → System → Type 0
  AllAllowed [] y = Unit {0}
  AllAllowed ((env, e) ∷ es) y =
      Allowed env e y × ((z : System) → step fws size_of_buf env e y ≡ done z → AllAllowed es z)

  -- Each connection has room for a message, and the statistics are what they say.
  pub record IsSound (y : System) : Type 0 where
    pub held : AllValues IsHeld y.connections
    pub distinct : Distinct y.connections
    pub inv : Inv y.ctx

  pub record Serves (y : System) (entry : ℕ → Option View → Option View) (r : Outcome System)
      : Type 0 where
    pub after : System
    pub runs : r ≡ done after
    pub sound : IsSound after
    pub shown :
        (id : ℕ)
        → shown_by (find id after.connections) ≡ entry id (shown_by (find id y.connections))
