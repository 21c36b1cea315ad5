-- ===== src/Tests/Wpp.antt =====
-- The websocketpp server and its command line at concrete inputs.
use ws_benchmark.Prelude.{◌≡◌, refl, true, false, List, [], ◌∷◌, arith}
use ws_benchmark.Prelude.Int.{pos}
use ws_benchmark.Stats.{Clock}
use ws_benchmark.Stats.Totals.{total}
use ws_benchmark.Wpp.Server.{Globals, Event, open_event, close_event, message_event, start, run}
use ws_benchmark.Wpp.Server.Failures.{Inv, run-Bounded}
use ws_benchmark.Wpp.Server.Serves.{main-delivers}
use ws_benchmark.Wpp.Server.Main.{endpoint, main}
use ws_benchmark.Args.{to_string, ok, Text}
use mathlib.Core.Logic.{◌↔◌}
use ws_benchmark.Args.Server.{
  server_args-ok_iff, server_args-to_string, server_args, ServerArgs, IsAccepted,
}

abbrev clock : Clock
clock = record { start_ns = 5; now_ns = 7; printed_ns = 8 }

abbrev history : List Event
history =
    open_event
    ∷ message_event clock false 7 1 (104 ∷ 105 ∷ [])
    ∷ open_event
    ∷ message_event clock true 7 2 (0 ∷ 1 ∷ 2 ∷ [])
    ∷ close_event
    ∷ []

abbrev orderly : List Event
orderly = open_event ∷ message_event clock false 7 1 (104 ∷ 105 ∷ []) ∷ close_event ∷ []

run-Bounded_example : Inv 64 (run orderly (start 64 true))
run-Bounded_example = run-Bounded 64 true orderly (omega arith) (refl, omega arith, tt)

server_args-to_string_example :
    server_args
      (λ _. true)
      ((119 ∷ []) ∷ (42 ∷ []) ∷ to_string 58600 ∷ to_string 64 ∷ (111 ∷ []) ∷ [])
    ≡ ok (record {
      server_ip = 42 ∷ [];
      server_port = 58600;
      max_data_len = 64;
      export_file_path = 111 ∷ [];
    })
server_args-to_string_example =
    server_args-to_string (λ _. true) (119 ∷ []) (42 ∷ []) (111 ∷ []) 58599 63 [] (omega arith)
      (omega arith) refl

abbrev argv : List Text
argv = (119 ∷ []) ∷ (42 ∷ []) ∷ (56 ∷ 48 ∷ []) ∷ (54 ∷ 52 ∷ []) ∷ (111 ∷ []) ∷ []

abbrev pub args : ServerArgs
args = record {
  server_ip = 42 ∷ [];
  server_port = 80;
  max_data_len = 64;
  export_file_path = 111 ∷ [];
}

server_args-ok_iff_example :
    (server_args (λ _. true) argv ≡ ok args) ↔ IsAccepted (λ _. true) argv args
server_args-ok_iff_example = server_args-ok_iff (λ _. true) argv args

-- The command line of a run, and what it asks for.
abbrev pub command_line : List Text
command_line = (119 ∷ []) ∷ (42 ∷ []) ∷ to_string 80 ∷ to_string 64 ∷ (111 ∷ []) ∷ []

pub command_line-IsAccepted : IsAccepted (λ _. true) command_line args
command_line-IsAccepted = (server_args-ok_iff (λ _. true) command_line args).0 (
    server_args-to_string (λ _. true) (119 ∷ []) (42 ∷ []) (111 ∷ []) 79 63 [] (omega arith)
      (omega arith) refl)

main-delivers_example :
    (g : Globals) × (main (λ _. true) (λ _. history) command_line ≡ ok (endpoint args, g))
    × (g.sent ≡ (7, 1, 104 ∷ 105 ∷ []) ∷ [])
    × (g.failed ≡ 1)
    × (g.active_connections ≡ pos 1)
    × (total g.counters g.printed
        ≡ record { recv_bytes = 5; send_bytes = 2; recv_msg_cnt = 2; send_msg_cnt = 1 })
main-delivers_example =
    main-delivers (λ _. true) (λ _. history) command_line args command_line-IsAccepted (omega arith)
