-- ===== src/Uws/Client/Main.antt =====
-- `main` of src/uwebsockets/echo_client.cpp: from the command line to the event loop.
use ws_benchmark.Prelude.{ℕ, ◌*◌, ◌%◌, ◌^◌, Bool, true, false, Option, none, some, List}
use ws_benchmark.Args.{Text, Result, ok, ◌>>=◌}
use ws_benchmark.Uws.Client.{ClientArgs, client_args, host_addr, Client, Event, on_open, run}

-- What `main` hands to `uWS::App`: the settings of the behaviour, no upgrade handler, and the
-- address.
pub record ClientSettings : Type 0 where
  pub compression : Bool  -- DISABLED is false
  pub max_payload_length : ℕ  -- uint32_t
  pub idle_timeout : ℕ
  pub max_backpressure : ℕ
  pub close_on_backpressure_limit : Bool
  pub reset_idle_timeout_on_send : Bool
  pub send_pings_automatically : Bool
  pub connect_to : Text

unfoldable pub client_settings : Text → ClientArgs → ClientSettings
client_settings listen_addr a = record {
  compression = false;
  max_payload_length = a.max_msg_len % 2 ^ 32;
  idle_timeout = 16;
  max_backpressure = 100 * 1024 * 1024;
  close_on_backpressure_limit = false;
  reset_idle_timeout_on_send = false;
  send_pings_automatically = true;
  connect_to = host_addr listen_addr a;
}

-- What the library makes of the settings: no connection, or one that opened at a time and its events.
pub record Connection : Type 0 where
  pub now_ns : ℕ
  pub events : List Event

abbrev pub served : (ℕ → ℕ) → ClientArgs → Option Connection → Option Client
served rand a none = none
served rand a (some c) = some (run a c.events (on_open rand a c.now_ns))

unfoldable pub main :
    Text
    → (ℕ → ℕ)
    → (ClientSettings → Option Connection)
    → List Text
    → Result (ClientSettings × Option Client)
main listen_addr rand loop argv = do
  a ← client_args argv
  ok (client_settings listen_addr a, served rand a (loop (client_settings listen_addr a)))
