-- ===== src/Fws/Server/Loop.antt =====
-- The event loop of the flashws echo server over all of its connections, which share one context.
pub mod Done
pub mod Serves
pub mod Table
use ws_benchmark.Prelude.{ℕ, Bool, Option, none, some, List, [], ◌∷◌, find, replace, remove}
use ws_benchmark.Fws.{FlashWs, Outcome, done, aborts, faults, ◌>>=◌}
use ws_benchmark.Fws.Server.{
  Context, ConnectCtx, Frame, Env, Part, start, on_new_connection, on_read, on_close,
}

-- `goodbyes` are the lines that `SetOnClose` prints, the last one first.
pub record System : Type 0 where
  pub ctx : Context
  pub connections : List (ℕ × ConnectCtx)
  pub goodbyes : List (ℕ × List ℕ)

-- The state when the loop starts.
unfoldable pub started : Bool → System
started output_fp = record { ctx = start output_fp; connections = []; goodbyes = [] }

-- An event names its connection; the library raises reads and closes only for those that it has.
pub data Event : Type 0 where
  connects : ℕ → Event
  reads : ℕ → Part → Event
  closes : ℕ → ℕ → List ℕ → Event

abbrev pub said : Option (ℕ × List ℕ) → List (ℕ × List ℕ) → List (ℕ × List ℕ)
said none lines = lines
said (some line) lines = line ∷ lines

abbrev pub updated : ℕ → System → Frame → System
updated id y f = record y { ctx = f.ctx; connections = replace id f.con_ctx y.connections }

abbrev pub ended : ℕ → System → Option (ℕ × List ℕ) → System
ended id y line = record y {
  connections = remove id y.connections;
  goodbyes = said line y.goodbyes;
}

module _ (fws : FlashWs) (buf_size : ℕ) where
  unfoldable pub step : Env → Event → System → Outcome System
  step env (connects id) y =
      done (record y { connections = (id, on_new_connection fws buf_size) ∷ y.connections })
  step env (reads id part) y = elim (find id y.connections) [
    | none ↦ done y
    | some c ↦ on_read fws buf_size env part (record { ctx = y.ctx; con_ctx = c }) >>= λ f.
        done (updated id y f)
  ]
  step env (closes id status_code reason) y = elim (find id y.connections) [
    | none ↦ done y
    | some c ↦ done (ended id y (on_close status_code reason c))
  ]

  pub run : List (Env × Event) → System → Outcome System
  run [] y = done y
  run ((env, e) ∷ es) y = step env e y >>= run es
