-- ===== src/Uws/Server.antt =====
-- src/uwebsockets/echo_server.cpp: the handlers of the echo server, and its statistics.
-- `ws->send` of the library takes every message; what it puts on the wire is not followed.
pub mod Echo
pub mod Intervals
pub mod Main
pub mod Serves
use ws_benchmark.Prelude.{
  ℕ, ◌%◌, ◌≡◌, Bool, not, ◌||◌, List, [], ◌∷◌, length, ◌==◌, if◌then◌else◌, add64, inc64,
}
use ws_benchmark.Prelude.Int.{ℤ, pos, inc, dec}
use ws_benchmark.Stats.{
  Counters, Clock, Report, zero_counters, reset, report, start_interval, count_recv, count_send,
}

-- The variables that `main` shares with the handlers. `printed` holds the lines of the standard
-- output, the last one first, `rows` those of the output file, and `sent` the messages handed to
-- `ws->send`, each with its connection and its opcode.
pub record Globals : Type 0 where
  pub counters : Counters
  pub open counters use *
  pub last_msg_size : ℕ  -- size_t
  pub active_connections : ℤ  -- int64_t
  pub output_fp : Bool
  pub printed : List Report
  pub rows : List Report
  pub sent : List (ℕ × ℕ × List ℕ)

pub start : Bool → Globals
start output_fp = record {
  counters = zero_counters;
  last_msg_size = 0;
  active_connections = pos 0;
  output_fp = output_fp;
  printed = [];
  rows = [];
  sent = [];
}

-- `recv_msg_cnt & 0xffff` is not 0, or nothing was received.
pub is_quiet : ℕ → Bool
is_quiet n = not (n % 0x10000 == 0) || n == 0

pub count_stats : Clock → Globals → Globals
count_stats clock g = if is_quiet g.last_interval_recv_msg_cnt then g else record g {
  counters = reset clock g.counters;
  printed = line ∷ g.printed;
  rows = if g.output_fp then line ∷ g.rows else g.rows;
}
  where
    line : Report
    line = report clock g.counters g.last_msg_size g.active_connections

pub on_open : Globals → Globals
on_open g = record g { active_connections = inc g.active_connections }

pub on_close : Globals → Globals
on_close g = record g { active_connections = dec g.active_connections }

pub on_message : Clock → ℕ → ℕ → List ℕ → Globals → Globals
on_message clock ws op_code message g =
    let msg_size = length message in
    let counted = count_send msg_size (count_recv msg_size (start_interval clock g.counters)) in
    count_stats clock (record g {
      counters = counted;
      last_msg_size = msg_size;
      sent = (ws, op_code, message) ∷ g.sent;
    })

-- The handlers for drain, ping and pong do nothing.
pub data Event : Type 0 where
  open_event close_event : Event
  message_event : Clock → ℕ → ℕ → List ℕ → Event

pub step : Event → Globals → Globals
step open_event g = on_open g
step close_event g = on_close g
step (message_event clock ws op_code message) g = on_message clock ws op_code message g

-- The event loop.
pub run : List Event → Globals → Globals
run [] g = g
run (e ∷ es) g = run es (step e g)
