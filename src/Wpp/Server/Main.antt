-- ===== src/Wpp/Server/Main.antt =====
-- `main` of src/websocketpp/echo_server.cpp: from the command line to the event loop.
use ws_benchmark.Prelude.{Bool, true, List}
use ws_benchmark.Args.{Text, Result, ok, ◌>>=◌, to_string}
use ws_benchmark.Args.Server.{ServerArgs, server_args}
use ws_benchmark.Wpp.Server.{Globals, Event, start, run}

-- What `echo_server.listen` is called with: the address and the port, as texts.
pub record Endpoint : Type 0 where
  pub host : Text
  pub service : Text

unfoldable pub endpoint : ServerArgs → Endpoint
endpoint a = record { host = a.server_ip; service = to_string a.server_port }

-- `loop` is the library: the events that it makes of the endpoint, none where it throws before the
-- loop runs; `main` catches what it throws, and returns 0 then too.
unfoldable pub main :
    (Text → Bool) → (Endpoint → List Event) → List Text → Result (Endpoint × Globals)
main fopen loop argv = do
  a ← server_args fopen argv
  ok (endpoint a, run (loop (endpoint a)) (start a.max_data_len true))
