-- ===== src/Tests/FwsServerLoop.antt =====
-- The loop of the flashws server at a concrete history: two connections, of which the first is closed
-- after the second one's message.
use ws_benchmark.Prelude.{ℕ, ap, length, ◌≡◌, ◌<◌, refl, true, none, List, [], ◌∷◌, arith, find}
use ws_benchmark.Fws.{contents, done, Outcome, aborts, faults, after-done}
use ws_benchmark.Fws.Server.{Env, on_new_connection}
use ws_benchmark.Fws.Server.Intervals.{IsFull}
use ws_benchmark.Fws.Server.Main.{buf_size}
use ws_benchmark.Fws.Server.Loop.{System, Event, connects, reads, closes, started, step, run}
use ws_benchmark.Fws.Server.Loop.Done.{loop-Serves}
use ws_benchmark.Fws.Server.Loop.Table.{AllAllowed, entry_by, shown_by}
use ws_benchmark.Tests.Fws.{lib, server_env, part}

abbrev result_of : System → Outcome System → System
result_of default (done y) = y
result_of default aborts = default
result_of default faults = default

abbrev message : Event
message = reads 2 (part 2 (7 ∷ 8 ∷ []) true)

abbrev events : List (Env × Event)
events =
    (server_env, connects 1)
    ∷ (server_env, connects 2)
    ∷ (server_env, message)
    ∷ (server_env, closes 1 1000 [])
    ∷ []

abbrev one_open : System
one_open = result_of (started true) (step lib 5 server_env (connects 1) (started true))

abbrev two_open : System
two_open = result_of one_open (step lib 5 server_env (connects 2) one_open)

message_allowed :
    AllAllowed lib 3 ((server_env, message) ∷ (server_env, closes 1 1000 []) ∷ []) two_open
unfolding started step find on_new_connection
message_allowed = (
  λ c h.
      let it : on_new_connection lib 5 ≡ c = cc in
      record {
        fits = λ _. omega (arith, ap (λ d. length (contents d.io_buf)) it);
        writes = λ _ _. refl;
        pong_whole = λ e. cc;
      },
  λ _ _. (tt, λ _ _. tt),
)

allowed : AllAllowed lib 3 events (started true)
unfolding started step find
allowed = (
  refl,
  after-done
      (AllAllowed lib 3
        ((server_env, connects 2) ∷ (server_env, message) ∷ (server_env, closes 1 1000 []) ∷ []))
      (step lib 5 server_env (connects 1) (started true)) one_open refl
      (
        refl,
        after-done (AllAllowed lib 3 ((server_env, message) ∷ (server_env, closes 1 1000 []) ∷ []))
            (step lib 5 server_env (connects 2) one_open) two_open refl message_allowed,
      ),
)

loop-Serves_example :
    (z : System) × (run lib (buf_size 3 2) events (started true) ≡ done z)
    × ((id : ℕ) → shown_by (find id z.connections) ≡ entry_by id events none)
    × IsFull z.ctx.printed
    × (z.ctx.last_interval_recv_msg_cnt < 0x4000)
loop-Serves_example = loop-Serves lib 3 true events (omega arith) (omega arith) allowed
