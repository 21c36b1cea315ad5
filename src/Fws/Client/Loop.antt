-- ===== src/Fws/Client/Loop.antt =====
-- src/flashws/echo_client.cpp: the loop with all of its clients, which share one context.
pub mod Accounts
pub mod Closing
pub mod Counting
pub mod Done
pub mod Launch
pub mod ReadAccounts
pub mod Slots
pub mod Steps
use ws_benchmark.Prelude.{ℕ, zero, suc, List, [], ◌∷◌}
use ws_benchmark.Fws.{Outcome, done, ◌>>=◌}
use ws_benchmark.Fws.Client.{
  Config, ClientCtx, Context, Env, Part, Frame, Action, goes_on, reborn, closed, ended, ClientLib,
}
use ws_benchmark.Fws.Client.Callbacks.{write_first_msg, on_read}
use ws_benchmark.Fws.Client.Callbacks.Echo.{received_after}

-- What has come back on a client's connection: it is not open yet, or some bytes of an echo came.
pub data Status : Type 0 where
  fresh : Status
  receiving : List ℕ → Status

pub record Slot : Type 0 where
  pub client_ctx : ClientCtx
  pub status : Status

pub record Loop : Type 0 where
  pub ctx : Context
  pub slots : List Slot

-- A connection opens, a part comes over it, or the other side closes it.
pub data Event : Type 0 where
  opens closes : Env → Event
  reads : Env → Part → Event

unfoldable pub status_after : Event → Status → Status
status_after (opens env) s = receiving []
status_after (closes env) s = s
status_after (reads env p) fresh = fresh
status_after (reads env p) (receiving received) = receiving (received_after p received)

-- A client that is closed leaves the loop, and the one that replaces it takes its place. One that
-- ended the program while its socket was open is dropped too: the loop has been stopped.
unfoldable pub settle : Status → List Slot → Action → Loop
settle s slots (goes_on f) = record {
  ctx = f.ctx;
  slots = record { client_ctx = f.client_ctx; status = s } ∷ slots;
}
settle s slots (reborn ctx c) = record {
  ctx = ctx;
  slots = record { client_ctx = c; status = fresh } ∷ slots;
}
settle s slots (closed ctx) = record { ctx = ctx; slots = slots }
settle s slots (ended ctx) = record { ctx = ctx; slots = slots }

-- `close env` is what `Close` does to the context at an event that reads `env`: the program's is
-- `on_close config`, for `Close` calls `OnClose` at once.
module _ (lib : ClientLib) (config : Config) (close : Env → Context → Outcome Context) where
  unfoldable pub handle : Event → Frame → Outcome Action
  handle (opens env) f = write_first_msg lib config env f >>= λ f'. done (goes_on f')
  handle (closes env) f = close env f.ctx >>= λ ctx. done (closed ctx)
  handle (reads env p) f = on_read lib config (close env) env p f

  -- The event is for the `i`-th client; one for no client is passed over.
  unfoldable pub step : ℕ → Event → Context → List Slot → Outcome Loop
  step i e ctx [] = done (record { ctx = ctx; slots = [] })
  step zero e ctx (s ∷ slots) =
      handle e (record { ctx = ctx; client_ctx = s.client_ctx }) >>= λ action.
      done (settle (status_after e s.status) slots action)
  step (suc i) e ctx (s ∷ slots) =
      step i e ctx slots >>= λ l. done (record { ctx = l.ctx; slots = s ∷ l.slots })

  unfoldable pub run : List (ℕ × Event) → Loop → Outcome Loop
  run [] l = done l
  run ((i, e) ∷ events) l = step i e l.ctx l.slots >>= run events
