-- ===== src/Tests/Uws.antt =====
-- The uWebSockets server at concrete inputs.
use ws_benchmark.Prelude.{◌≡◌, true, false, List, [], ◌∷◌, arith, ◌<◌}
use ws_benchmark.Prelude.Int.{pos}
use ws_benchmark.Stats.{Clock}
use ws_benchmark.Stats.Totals.{total}
use ws_benchmark.Uws.Server.{Globals, Event, open_event, close_event, message_event, start, run}
use ws_benchmark.Args.{ok}
use ws_benchmark.Uws.Server.Main.{settings, main}
use ws_benchmark.Uws.Server.Serves.{main-sends_back}
use ws_benchmark.Tests.Wpp.{command_line, args, command_line-IsAccepted}
use ws_benchmark.Uws.Server.Intervals.{IsFull, run-start-IsFull}

abbrev clock : Clock
clock = record { start_ns = 5; now_ns = 7; printed_ns = 8 }

abbrev history : List Event
history =
    open_event
    ∷ message_event clock 7 1 (104 ∷ 105 ∷ [])
    ∷ open_event
    ∷ message_event clock 9 2 (0 ∷ 1 ∷ 2 ∷ [])
    ∷ close_event
    ∷ []

main-sends_back_example :
    (g : Globals) × (main (λ _. true) (λ _. history) command_line ≡ ok (settings args, g))
    × (g.sent ≡ (9, 2, 0 ∷ 1 ∷ 2 ∷ []) ∷ (7, 1, 104 ∷ 105 ∷ []) ∷ [])
    × (g.active_connections ≡ pos 1)
    × (g.rows ≡ g.printed)
    × IsFull g.printed
    × (total g.counters g.printed
        ≡ record { recv_bytes = 5; send_bytes = 5; recv_msg_cnt = 2; send_msg_cnt = 2 })
main-sends_back_example =
    main-sends_back (λ _. true) (λ _. history) command_line args command_line-IsAccepted
      (omega arith)

run-start-IsFull_example :
    IsFull (run history (start false)).printed
    × ((run history (start false)).last_interval_recv_msg_cnt < 0x10000)
run-start-IsFull_example = run-start-IsFull history false
