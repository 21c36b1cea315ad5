-- ===== src/Stats.antt =====
-- The interval statistics that the four echo servers keep and print in their `CountStats`.
-- Each server has its own test for when to print; what it prints and resets is the same.
pub mod Totals
use ws_benchmark.Prelude.{ℕ, ◌==◌, if◌then◌else◌, add64, inc64}
use ws_benchmark.Prelude.Int.{ℤ, sub_ℕ}

pub record Counters : Type 0 where
  pub last_interval_send_bytes : ℕ  -- uint64_t
  pub last_interval_recv_bytes : ℕ  -- uint64_t
  pub last_interval_recv_msg_cnt : ℕ  -- uint64_t
  pub last_interval_send_msg_cnt : ℕ  -- uint64_t
  pub interval_start_ns : ℕ  -- int64_t, a clock reading

-- The clock readings that one callback makes: when it starts an interval, and the two of
-- `CountStats`, before it prints and after.
pub record Clock : Type 0 where
  pub start_ns : ℕ
  pub now_ns : ℕ
  pub printed_ns : ℕ

-- What a line of output is computed from.
pub record Report : Type 0 where
  pub msg_size : ℕ
  pub send_bytes : ℕ
  pub recv_bytes : ℕ
  pub recv_msg_cnt : ℕ
  pub send_msg_cnt : ℕ
  pub interval_ns : ℤ
  pub connections : ℤ

abbrev pub zero_counters : Counters
zero_counters = record {
  last_interval_send_bytes = 0;
  last_interval_recv_bytes = 0;
  last_interval_recv_msg_cnt = 0;
  last_interval_send_msg_cnt = 0;
  interval_start_ns = 0;
}

abbrev pub reset : Clock → Counters → Counters
reset clock c = record zero_counters { interval_start_ns = clock.printed_ns }

abbrev pub report : Clock → Counters → ℕ → ℤ → Report
report clock c msg_size connections = record {
  msg_size = msg_size;
  send_bytes = c.last_interval_send_bytes;
  recv_bytes = c.last_interval_recv_bytes;
  recv_msg_cnt = c.last_interval_recv_msg_cnt;
  send_msg_cnt = c.last_interval_send_msg_cnt;
  interval_ns = sub_ℕ clock.now_ns c.interval_start_ns;
  connections = connections;
}

-- `interval_start_ns` is set by the first message, and by each report.
abbrev pub start_interval : Clock → Counters → Counters
start_interval clock c =
    if c.interval_start_ns == 0 then record c { interval_start_ns = clock.start_ns } else c

abbrev pub count_recv : ℕ → Counters → Counters
count_recv msg_size c = record c {
  last_interval_recv_bytes = add64 c.last_interval_recv_bytes msg_size;
  last_interval_recv_msg_cnt = inc64 c.last_interval_recv_msg_cnt;
}

abbrev pub count_send : ℕ → Counters → Counters
count_send msg_size c = record c {
  last_interval_send_bytes = add64 c.last_interval_send_bytes msg_size;
  last_interval_send_msg_cnt = inc64 c.last_interval_send_msg_cnt;
}
