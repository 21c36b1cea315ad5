-- ===== src/Tests/Clients.antt =====
-- The uWebSockets client and the HTTPS client at concrete inputs.
use ws_benchmark.Prelude.{refl, true, ℕ, ◌*◌, ◌≡◌, List, [], ◌∷◌, length, some, arith}
use ws_benchmark.Prelude.Int.{pos, negsuc}
use ws_benchmark.Args.{Text, ok, atoi}
use ws_benchmark.Uws.Client
use ws_benchmark.Uws.Client.{op_text, first_msg}
use ws_benchmark.Uws.Client.Rounds.{messages, echoes, reports_at, IsAccepted, client_args-ok_iff}
use ws_benchmark.Uws.Client.Main.{Connection, client_settings, main as client_main}
use ws_benchmark.Uws.Client.Reports.{main-reports}
use ws_benchmark.Usockets.HttpsClient
use ws_benchmark.Usockets.HttpsClient.{
  request, Event, writable, data_event, end_event, connect, on_open, try_request, on_writable,
}
use ws_benchmark.Usockets.HttpsClient.Main.{Library, main, ran, main-finishes}
use ws_benchmark.Usockets.HttpsClient.Request.{Sent, run-Sent, writables}

abbrev rand : ℕ → ℕ
rand k = 7 * k

-- Two messages asked for, and three that come back.
abbrev args : Client.ClientArgs
args = record { port = 80; max_msg_len = 2; max_msg_cnt = pos 2 }

abbrev message : Client.Message
message = record { op_code = 1; payload = 48 ∷ 55 ∷ []; now_ns = 90 }

abbrev came_back : List Client.Event
came_back =
    Client.message_event message
    ∷ Client.ping_event []
    ∷ Client.message_event message
    ∷ Client.message_event message
    ∷ []

-- It asks for port 80, messages of 2 bytes, and 2 of them.
abbrev command_line : List Text
command_line = (99 ∷ []) ∷ (56 ∷ 48 ∷ []) ∷ (50 ∷ []) ∷ (50 ∷ []) ∷ []

command_line-IsAccepted : IsAccepted command_line args
unfolding Client.client_args atoi
command_line-IsAccepted = (client_args-ok_iff command_line args).0 refl

abbrev connection : Connection
connection = record { now_ns = 50; events = came_back }

main-reports_example :
    (c : Client.Client) × (client_main [] rand (λ _. some connection) command_line
      ≡ ok (client_settings [] args, some c))
    × (c.sent ≡ echoes (messages came_back) ((op_text, first_msg rand args) ∷ []))
    × (c.user_data.msg_cnt ≡ length (messages came_back))
    × (length c.reports ≡ reports_at (pos 2) (length (messages came_back)))
main-reports_example =
    main-reports [] rand (λ _. some connection) command_line args connection command_line-IsAccepted
      refl

-- The number of messages is -1.
abbrev argv : List Text
argv = (99 ∷ []) ∷ (56 ∷ 48 ∷ []) ∷ (50 ∷ []) ∷ (45 ∷ 49 ∷ []) ∷ []

abbrev args_endless : Client.ClientArgs
args_endless = record { port = 80; max_msg_len = 2; max_msg_cnt = negsuc 0 }

abbrev events : List Event
events = writable 20 ∷ data_event (1 ∷ 2 ∷ 3 ∷ []) ∷ end_event ∷ []

run-Sent_example : Sent (HttpsClient.run events (on_open 10 connect))
unfolding on_open try_request connect
run-Sent_example = run-Sent 10 events (omega arith) (omega arith, (tt, (tt, tt)))

-- The first write takes all but two bytes, and the others one each.
abbrev library : Library
library = record {
  create_context = true;
  connects = λ target. true;
  written = 33;
  events = writables (1 ∷ 1 ∷ []);
}

main-finishes_example : (c : HttpsClient.Client) × (main library ≡ ran c) × (c.sent ≡ request)
unfolding on_open try_request connect on_writable
main-finishes_example =
    main-finishes library (1 ∷ 1 ∷ []) refl refl refl (omega arith) (omega arith) (ground arith)
