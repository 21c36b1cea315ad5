-- ===== src/Uws/Server/Main.antt =====
-- `main` of src/uwebsockets/echo_server.cpp: from the command line to the event loop.
use ws_benchmark.Prelude.{ℕ, ◌*◌, ◌%◌, ◌^◌, Bool, true, false, List}
use ws_benchmark.Args.{Text, Result, ok, ◌>>=◌}
use ws_benchmark.Args.Server.{ServerArgs, server_args}
use ws_benchmark.Uws.Server.{Globals, Event, start, run}

-- What `main` hands to `uWS::SSLApp`: the settings of the behaviour and the address. The
-- files of the TLS keys are left out.
pub record Settings : Type 0 where
  pub compression : Bool  -- DISABLED is false
  pub max_payload_length : ℕ  -- uint32_t
  pub idle_timeout : ℕ
  pub max_backpressure : ℕ
  pub close_on_backpressure_limit : Bool
  pub reset_idle_timeout_on_send : Bool
  pub send_pings_automatically : Bool
  pub listen_ip : Text
  pub listen_port : ℕ

unfoldable pub settings : ServerArgs → Settings
settings a = record {
  compression = false;
  max_payload_length = a.max_data_len % 2 ^ 32;
  idle_timeout = 16;
  max_backpressure = 100 * 1024 * 1024;
  close_on_backpressure_limit = false;
  reset_idle_timeout_on_send = false;
  send_pings_automatically = true;
  listen_ip = a.server_ip;
  listen_port = a.server_port;
}

-- `loop` is the library: the events that it makes of the settings, none if it cannot listen.
unfoldable pub main :
    (Text → Bool) → (Settings → List Event) → List Text → Result (Settings × Globals)
main fopen loop argv = do
  a ← server_args fopen argv
  ok (settings a, run (loop (settings a)) (start true))
