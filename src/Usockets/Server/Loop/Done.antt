-- ===== src/Usockets/Server/Loop/Done.antt =====
-- Whole runs of the TCP echo server over all of its sockets.
use mathlib.Core.Path.{subst}
use ws_benchmark.Prelude.{ℕ, ◌≡◌, refl, ap, ◌∙◌, Option, none, some, List, [], ◌∷◌, ◌>>=◌}
use ws_benchmark.Usockets.Server.{Env, Frame, on_close, start}
use ws_benchmark.Usockets.Server.Loop.{System, Event, run}
use ws_benchmark.Usockets.Server.Loop.Connections.{IsCounted, Counts, run-Counts}
use ws_benchmark.Usockets.Server.Loop.Serves.{step-Serves}
use ws_benchmark.Usockets.Server.Loop.Table.{owed_at, entry_by, AllAllowed, IsSound, Serves}

run-Serves_from :
    (close : Frame → Frame) (es : List (Env × Event)) (y : System)
    → AllAllowed close es y
    → IsSound y
    → Serves y (λ id. entry_by id es) (run close es y)
unfolding run entry_by
run-Serves_from close [] y a sound = record {
  after = y;
  runs = refl;
  sound = sound;
  owed = λ id. refl;
}
run-Serves_from close ((env, e) ∷ es) y a sound =
    let one = step-Serves close env e y a.0 sound in
    let more = run-Serves_from close es one.after (a.1 one.after one.runs) one.sound in
    record {
      after = more.after;
      runs = rw one.runs more.runs;
      sound = more.sound;
      owed = λ id. more.owed id ∙ ap (entry_by id es) (one.owed id);
    }

-- A server that starts with no socket.
pub run-Serves :
    (close : Frame → Frame) (es : List (Env × Event))
    → ((f : Frame) → close f ≡ on_close f)
    → AllAllowed close es (record { globals = start; sockets = [] })
    → (z : System) × (run close es (record { globals = start; sockets = [] }) ≡ some z)
      × IsCounted z
      × ((id : ℕ) → owed_at id z.sockets ≡ entry_by id es none)
unfolding ws_benchmark.Prelude.find
run-Serves close es closes allowed =
    let served =
      run-Serves_from close es (record { globals = start; sockets = [] }) allowed
        (record { inv = tt; distinct = tt }) in
    (served.after, served.runs, subst Counts served.runs (run-Counts close es closes), served.owed)
