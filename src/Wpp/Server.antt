-- ===== src/Wpp/Server.antt =====
-- src/websocketpp/echo_server.cpp: the handlers of the echo server, and its statistics.
pub mod Intervals
pub mod Failures
pub mod Main
pub mod Serves
use ws_benchmark.Prelude.{
  ℕ, ◌+◌, ◌%◌, ◌*◌, ◌≡◌, Bool, true, false, not, ◌&&◌, ◌||◌, List, [], ◌∷◌, length, ◌==◌, leb,
  if◌then◌else◌, add64, inc64, u64,
}
use ws_benchmark.Prelude.Int.{ℤ, pos, inc, dec}
use ws_benchmark.Stats.{
  Counters, Clock, Report, zero_counters, reset, report, start_interval, count_recv, count_send,
}

-- The global variables. `printed` holds the lines of the standard output, the last one first,
-- `rows` those of the output file, `sent` the messages that `server::send` took, each with its
-- connection and its opcode, and `failed` the number of lines that say "Echo failed".
pub record Globals : Type 0 where
  pub counters : Counters
  pub open counters use *
  pub last_msg_size : ℕ  -- size_t
  pub active_connections : ℤ  -- int64_t
  pub max_data_len : ℕ  -- size_t
  pub output_fp : Bool
  pub printed : List Report
  pub rows : List Report
  pub sent : List (ℕ × ℕ × List ℕ)
  pub failed : ℕ

pub start : ℕ → Bool → Globals
start max_data_len output_fp = record {
  counters = zero_counters;
  last_msg_size = 0;
  active_connections = pos 0;
  max_data_len = max_data_len;
  output_fp = output_fp;
  printed = [];
  rows = [];
  sent = [];
  failed = 0;
}

-- `((recv_msg_cnt & 0xfffff) && recv_bytes <= MAX_DATA_LEN * 4096) || recv_msg_cnt == 0`
pub is_quiet : Globals → Bool
is_quiet g =
    not (g.last_interval_recv_msg_cnt % 0x100000 == 0)
      && leb g.last_interval_recv_bytes (u64 (g.max_data_len * 4096))
    || g.last_interval_recv_msg_cnt == 0

pub count_stats : Clock → Globals → Globals
count_stats clock g = if is_quiet g then g else record g {
  counters = reset clock g.counters;
  printed = line ∷ g.printed;
  rows = if g.output_fp then line ∷ g.rows else g.rows;
}
  where
    line : Report
    line = report clock g.counters g.last_msg_size g.active_connections

pub on_open : Globals → Globals
on_open g = record g { active_connections = inc g.active_connections }

pub on_close : Globals → Globals
on_close g = record g { active_connections = dec g.active_connections }

-- `throws` says whether `server::send` throws; then nothing behind it in the `try` is done.
pub on_message : Clock → Bool → ℕ → ℕ → List ℕ → Globals → Globals
on_message clock throws hdl opcode payload g =
    let msg_size = length payload in
    let received = count_recv msg_size (start_interval clock g.counters) in
    if throws
    then record g { counters = received; failed = g.failed + 1 }
    else count_stats clock (record g {
      counters = count_send msg_size received;
      last_msg_size = msg_size;
      sent = (hdl, opcode, payload) ∷ g.sent;
    })

pub data Event : Type 0 where
  open_event close_event : Event
  message_event : Clock → Bool → ℕ → ℕ → List ℕ → Event

pub step : Event → Globals → Globals
step open_event g = on_open g
step close_event g = on_close g
step (message_event clock throws hdl opcode payload) g =
    on_message clock throws hdl opcode payload g

-- The event loop.
pub run : List Event → Globals → Globals
run [] g = g
run (e ∷ es) g = run es (step e g)
