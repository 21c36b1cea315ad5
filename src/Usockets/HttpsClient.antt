-- ===== src/Usockets/HttpsClient.antt =====
-- src/usockets-tcp/https_client.cpp: the connection's context and the handlers that keep state. What
-- a handler prints is left out, but for the bytes received.
pub mod Main
pub mod Request
use ws_benchmark.Prelude.{
  ℕ, ◌+◌, ◌-◌, ◌%◌, ◌^◌, true, false, Bool, List, [], ◌∷◌, ◌++◌, length, take, drop, ltb,
  if◌then◌else◌,
}

-- "GET / HTTP/1.1", "Host: " with REAL_HOST, and an empty line.
abbrev pub request : List ℕ
request =
    71 ∷ 69 ∷ 84 ∷ 32 ∷ 47 ∷ 32 ∷ 72 ∷ 84 ∷ 84 ∷ 80 ∷ 47 ∷ 49 ∷ 46 ∷ 49 ∷ 13 ∷ 10 ∷ 72 ∷ 111 ∷ 115
    ∷ 116 ∷ 58 ∷ 32 ∷ 49 ∷ 48 ∷ 46 ∷ 53 ∷ 46 ∷ 57 ∷ 54 ∷ 46 ∷ 51 ∷ 13 ∷ 10 ∷ 13 ∷ 10 ∷ []

-- `ClientContext`
pub record ClientContext : Type 0 where
  pub has_written_bytes : ℕ  -- int
  pub received_bytes : ℕ  -- int, as its 32 bits

-- The connection: its context, the bytes that the library took, those that were printed, how often
-- a timeout was set anew, and whether `us_socket_close` was called.
pub record Client : Type 0 where
  pub client_context : ClientContext
  pub sent : List ℕ
  pub printed : List ℕ
  pub timeouts : ℕ
  pub long_timeouts : ℕ
  pub is_closed : Bool

-- `written` is what `us_socket_write` returns: how many of the bytes it took.
unfoldable pub try_request : ℕ → Client → Client
try_request written c =
    let has_written = c.client_context.has_written_bytes in
    if ltb has_written (length request)
    then record c {
      client_context = record (c.client_context) { has_written_bytes = has_written + written };
      sent = c.sent ++ take written (drop has_written request);
    }
    else c

unfoldable pub on_writable : ℕ → Client → Client
on_writable written c = try_request written c

unfoldable pub on_close : Client → Client
on_close c = c

unfoldable pub on_end : Client → Client
on_end c = record c { is_closed = true }

unfoldable pub on_data : List ℕ → Client → Client
on_data bytes c = record c {
  client_context = record (c.client_context) {
    received_bytes = (c.client_context.received_bytes + length bytes) % 2 ^ 32;
  };
  printed = c.printed ++ bytes;
}

unfoldable pub on_open : ℕ → Client → Client
on_open written c =
    try_request written
      (record c { client_context = record { has_written_bytes = 0; received_bytes = 0 } })

unfoldable pub on_long_timeout : Client → Client
on_long_timeout c = record c { long_timeouts = c.long_timeouts + 1 }

unfoldable pub on_timeout : Client → Client
on_timeout c = record c { timeouts = c.timeouts + 1 }

unfoldable pub on_connect_error : Client → Client
on_connect_error c = c

-- The events that `main` sets handlers for, after the connection is open.
pub data Event : Type 0 where
  writable : ℕ → Event
  data_event : List ℕ → Event
  close_event end_event timeout_event long_timeout_event connect_error_event : Event

pub step : Event → Client → Client
step (writable written) c = on_writable written c
step (data_event bytes) c = on_data bytes c
step close_event c = on_close c
step end_event c = on_end c
step timeout_event c = on_timeout c
step long_timeout_event c = on_long_timeout c
step connect_error_event c = on_connect_error c

pub run : List Event → Client → Client
run [] c = c
run (e ∷ es) c = run es (step e c)

-- A connection before it opens, as the library makes it.
unfoldable pub connect : Client
connect = record {
  client_context = record { has_written_bytes = 0; received_bytes = 0 };
  sent = [];
  printed = [];
  timeouts = 0;
  long_timeouts = 0;
  is_closed = false;
}
