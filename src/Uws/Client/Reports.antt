-- ===== src/Uws/Client/Reports.antt =====
-- The uWebSockets client of src/uwebsockets/echo_client.cpp from its command line on.
use ws_benchmark.Prelude.{ℕ, ◌≡◌, refl, Option, some, List, [], ◌∷◌, length}
use ws_benchmark.Args.{Text, ok}
use ws_benchmark.Uws.Client.{ClientArgs, Client, first_msg, on_open, op_text, run}
use ws_benchmark.Uws.Client.Main.{ClientSettings, client_settings, Connection, main}
use ws_benchmark.Uws.Client.Rounds.{
  IsAccepted, client_args-ok_iff, messages, echoes, reports_at, run-reports,
}

-- With a command line that is accepted, a number of messages that is not positive included, and a
-- library that connects with the settings: `main` runs the client over the events of the connection.
-- The client has sent its first message and then each message that came, again, also after the last
-- one that was asked for; it has counted the messages; and it has reported once if as many as asked
-- for have come, and never when that number is not positive.
pub main-reports :
    (listen_addr : Text) (rand : ℕ → ℕ) (loop : ClientSettings → Option Connection)
    (argv : List Text) (a : ClientArgs) (k : Connection)
    → IsAccepted argv a
    → loop (client_settings listen_addr a) ≡ some k
    → (c : Client) × (main listen_addr rand loop argv ≡ ok (client_settings listen_addr a, some c))
      × (c.sent ≡ echoes (messages k.events) ((op_text, first_msg rand a) ∷ []))
      × (c.user_data.msg_cnt ≡ length (messages k.events))
      × (length c.reports ≡ reports_at a.max_msg_cnt (length (messages k.events)))
unfolding main
main-reports listen_addr rand loop argv a k accepted connects =
    let (sent, count, reported) = run-reports rand a k.now_ns k.events in
    (
      run a k.events (on_open rand a k.now_ns),
      rw ((client_args-ok_iff argv a).1 accepted) (rw connects refl),
      sent,
      count,
      reported,
    )
