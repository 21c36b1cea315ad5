-- ===== src/Wpp/Server/Serves.antt =====
-- The websocketpp server from its command line on.
use mathlib.Core.List.{reverse}
use ws_benchmark.Prelude.{◌≡◌, refl, Bool, true, List}
use ws_benchmark.Prelude.Int.{sub_ℕ}
use ws_benchmark.Args.{Text, ok}
use ws_benchmark.Args.Server.{ServerArgs, IsAccepted, server_args-ok_iff}
use ws_benchmark.Stats.Totals.{total, Fits}
use ws_benchmark.Wpp.Server.{Globals, Event, start, run}
use ws_benchmark.Wpp.Server.Failures.{delivered, thrown, opened, closed, run-delivers}
use ws_benchmark.Wpp.Server.Intervals.{traffic, run-thrown_total}
use ws_benchmark.Wpp.Server.Main.{Endpoint, endpoint, main}

-- With a command line that is accepted, and any events that the library makes of the endpoint, whose
-- traffic fits the 64-bit counters: `main` runs the loop; the server has sent back exactly the
-- messages whose `send` did not throw, unchanged, each to the connection it came from and in order,
-- and printed one failure for each of the others; it counts the connections opened less those
-- closed; and the printed lines and the running interval together account for exactly the messages
-- and bytes received, and for exactly those that were sent.
pub main-delivers :
    (fopen : Text → Bool) (loop : Endpoint → List Event) (argv : List Text) (a : ServerArgs)
    → IsAccepted fopen argv a
    → Fits (traffic (loop (endpoint a)))
    → (g : Globals) × (main fopen loop argv ≡ ok (endpoint a, g))
      × (g.sent ≡ reverse (delivered (loop (endpoint a))))
      × (g.failed ≡ thrown (loop (endpoint a)))
      × (g.active_connections ≡ sub_ℕ (opened (loop (endpoint a))) (closed (loop (endpoint a))))
      × (total g.counters g.printed ≡ traffic (loop (endpoint a)))
unfolding main
main-delivers fopen loop argv a accepted fits =
    let es = loop (endpoint a) in
    let (sent, failed, active) = run-delivers es a.max_data_len true in
    (
      run es (start a.max_data_len true),
      rw ((server_args-ok_iff fopen argv a).1 accepted) refl,
      sent,
      failed,
      active,
      run-thrown_total es a.max_data_len true fits,
    )
