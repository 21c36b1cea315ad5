-- ===== src/Uws/Server/Serves.antt =====
-- The uWebSockets server from its command line on.
use mathlib.Core.List.{reverse}
use ws_benchmark.Prelude.{◌^◌, ◌<◌, ◌≡◌, refl, Bool, true, List}
use ws_benchmark.Prelude.Int.{sub_ℕ}
use ws_benchmark.Args.{Text, ok}
use ws_benchmark.Args.Server.{ServerArgs, IsAccepted, server_args-ok_iff}
use ws_benchmark.Stats.Totals.{total}
use ws_benchmark.Uws.Server.{Globals, Event, start, run}
use ws_benchmark.Uws.Server.Echo.{messages, opened, closed, run-sends_back}
use ws_benchmark.Uws.Server.Intervals.{IsFull, traffic, run-start-IsFull, run-total}
use ws_benchmark.Uws.Server.Main.{Settings, settings, main}

-- With a command line that is accepted, and any events that the library makes of the settings, of
-- less than 2^64 received bytes: `main` runs the loop with the port and the length asked for; the
-- server has sent back every message, unchanged, to the connection it came from and in order; it
-- counts the connections opened less those closed; each printed line has its row in the file, and
-- stands for 0x10000 messages received and as many sent; and the lines and the running interval
-- together account for all messages and bytes.
pub main-sends_back :
    (fopen : Text → Bool) (loop : Settings → List Event) (argv : List Text) (a : ServerArgs)
    → IsAccepted fopen argv a
    → (traffic (loop (settings a))).recv_bytes < 2 ^ 64
    → (g : Globals) × (main fopen loop argv ≡ ok (settings a, g))
      × (g.sent ≡ reverse (messages (loop (settings a))))
      × (g.active_connections ≡ sub_ℕ (opened (loop (settings a))) (closed (loop (settings a))))
      × (g.rows ≡ g.printed)
      × IsFull g.printed
      × (total g.counters g.printed ≡ traffic (loop (settings a)))
unfolding main
main-sends_back fopen loop argv a accepted small =
    let es = loop (settings a) in
    let (sent, active, rows) = run-sends_back es in
    (
      run es (start true),
      rw ((server_args-ok_iff fopen argv a).1 accepted) refl,
      sent,
      active,
      rows,
      (run-start-IsFull es true).0,
      run-total es true small,
    )
