-- ===== src/Uws/Client.antt =====
-- src/uwebsockets/echo_client.cpp: the command line, the first message and the handlers. `test::listen_addr`, which test_def.h has only in comments, is an argument.
pub mod Main
pub mod Reports
pub mod Rounds
use ws_benchmark.Prelude.{
  ℕ, zero, suc, ◌+◌, ◌%◌, ◌^◌, true, false, not, Bool, List, [], ◌∷◌, ◌++◌, length, ltb, ◌==◌,
  if◌then◌else◌,
}
use ws_benchmark.Prelude.Int.{ℤ, pos, negsuc, sub_ℕ}
use ws_benchmark.Args.{
  Text, Result, ok, ◌>>=◌, ◌>>◌, check, positive, arg, atoi, to_string, usage, invalid_port,
  invalid_max_msg_len,
}
use ws_benchmark.Payload.{random_digits}

-- A number of messages that is not positive is reported, and the program goes on with it.
pub record ClientArgs : Type 0 where
  pub port : ℕ  -- int
  pub max_msg_len : ℕ  -- long long
  pub max_msg_cnt : ℤ  -- int

unfoldable pub client_args : List Text → Result ClientArgs
client_args argv = do
  check (not (ltb (length argv) 4)) usage
  port ← positive (atoi (arg 1 argv)) invalid_port
  max_msg_len ← positive (atoi (arg 2 argv)) invalid_max_msg_len
  ok (record { port = port; max_msg_len = max_msg_len; max_msg_cnt = atoi (arg 3 argv) })

-- `"ws://" + listen_addr + ":" + std::to_string(port)`
unfoldable host_addr : Text → ClientArgs → Text
host_addr listen_addr a =
    (119 ∷ 115 ∷ 58 ∷ 47 ∷ 47 ∷ []) ++ (listen_addr ++ (58 ∷ to_string a.port))

-- `rand` is not seeded: its values from the start of the program. The loop counts with an `int`.
unfoldable pub first_msg : (ℕ → ℕ) → ClientArgs → List ℕ
first_msg rand a = random_digits rand 0 a.max_msg_len

-- `uWS::OpCode::TEXT`
abbrev pub op_text : ℕ
op_text = 1

pub record PerSocketData : Type 0 where
  pub msg_cnt : ℕ  -- int64_t
  pub last_ns : ℕ
  pub start_ns : ℕ

-- The line that is printed: the nanoseconds since the start and the messages, before they are
-- divided.
pub record Report : Type 0 where
  pub pass_ns : ℤ
  pub msg_cnt : ℕ

-- A connection: its data, what it was given to send and what it printed, the last one first.
pub record Client : Type 0 where
  pub user_data : PerSocketData
  pub sent : List (ℕ × List ℕ)
  pub reports : List Report

pub record Message : Type 0 where
  pub op_code : ℕ
  pub payload : List ℕ
  pub now_ns : ℕ

pub on_open : (ℕ → ℕ) → ClientArgs → ℕ → Client
on_open rand a now_ns = record {
  user_data = record { msg_cnt = 0; last_ns = now_ns; start_ns = now_ns };
  sent = (op_text, first_msg rand a) ∷ [];
  reports = [];
}

-- `now_msg_cnt == max_msg_cnt`
pub is_last : ℕ → ℤ → Bool
is_last n (pos m) = n == m
is_last n (negsuc m) = false

pub on_message : ClientArgs → Message → Client → Client
on_message a m c =
    let now_msg_cnt = c.user_data.msg_cnt + 1 in
    record {
      user_data = record (c.user_data) { msg_cnt = now_msg_cnt };
      sent = (m.op_code, m.payload) ∷ c.sent;
      reports =
          if is_last now_msg_cnt a.max_msg_cnt
          then record { pass_ns = sub_ℕ m.now_ns c.user_data.start_ns; msg_cnt = now_msg_cnt }
            ∷ c.reports
          else c.reports;
    }

-- The handlers that do nothing, or print a line.
pub on_drain : Client → Client
on_drain c = c

pub on_ping : List ℕ → Client → Client
on_ping payload c = c

pub on_pong : List ℕ → Client → Client
on_pong payload c = c

pub on_close : Client → Client
on_close c = c

pub data Event : Type 0 where
  message_event : Message → Event
  drain_event close_event : Event
  ping_event pong_event : List ℕ → Event

pub step : ClientArgs → Event → Client → Client
step a (message_event m) c = on_message a m c
step a drain_event c = on_drain c
step a (ping_event payload) c = on_ping payload c
step a (pong_event payload) c = on_pong payload c
step a close_event c = on_close c

pub run : ClientArgs → List Event → Client → Client
run a [] c = c
run a (e ∷ es) c = run a es (step a e c)
