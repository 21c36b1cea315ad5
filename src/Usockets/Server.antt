-- ===== src/Usockets/Server.antt =====
-- src/usockets-tcp/echo_server.cpp with test_def.h: the handlers of the TCP echo server.
-- A handler sees the server's global variables and the extension of one socket. What a handler may
-- do to memory is bounded: `none` is a read or a `memcpy` outside of the 64 bytes of a buffer.
pub mod Owed
pub mod Echo
pub mod History
pub mod Hazards
pub mod Loop
pub mod Main
use ws_benchmark.Prelude.{
  ℕ, ◌+◌, ◌-◌, ◌%◌, Bool, true, not, ◌||◌, Option, none, some, List, [], ◌∷◌, ◌++◌, length, take,
  drop, read_at, write_at, ltb, ◌==◌, if◌then◌else◌, ◌>>=◌, add64, inc64, sub64,
}
use ws_benchmark.Prelude.Int.{ℤ, pos, inc, dec}
use ws_benchmark.Stats.{Counters, Clock, Report, zero_counters, reset, report}

-- `MAX_DATA_LEN` of test_def.h.
abbrev pub max_data_len : ℕ
max_data_len = 64

pub record Buffer : Type 0 where
  pub data_block : List ℕ
  pub start_pos : ℕ  -- size_t
  pub size : ℕ  -- size_t

-- The extension of a socket, and what its peer was sent.
pub record EchoSocket : Type 0 where
  pub buf : Buffer
  pub active_conns_in_ctx : ℤ  -- int64_t
  pub sent : List ℕ
  pub is_shut_down : Bool

pub record Globals : Type 0 where
  pub counters : Counters
  pub open counters use *
  pub active_connections : ℤ  -- int64_t
  pub dup_act_conns : ℤ  -- int64_t
  pub printed : List Report

unfoldable pub start : Globals
start = record {
  counters = zero_counters;
  active_connections = pos 0;
  dup_act_conns = pos 0;
  printed = [];
}

-- What a callback reads from outside: the number of bytes that `us_socket_write` takes of those it
-- is given, and the clock.
pub record Env : Type 0 where
  pub write : List ℕ → ℕ
  pub clock : Clock

pub record Frame : Type 0 where
  pub globals : Globals
  pub socket : EchoSocket

-- `recv_msg_cnt & 0xffff` is not 0, or nothing was received.
unfoldable pub is_quiet : ℕ → Bool
is_quiet n = not (n % 0x10000 == 0) || n == 0

-- The lines of this server have no message size.
pub count_stats : Clock → Globals → Globals
count_stats clock g = if is_quiet g.last_interval_recv_msg_cnt then g else record g {
  counters = reset clock g.counters;
  printed = report clock g.counters 0 g.active_connections ∷ g.printed;
}

abbrev add_sent : ℕ → Globals → Globals
add_sent written g = record g {
  counters = record (g.counters) {
    last_interval_send_bytes = add64 g.last_interval_send_bytes written;
  };
}

abbrev inc_sent_msg : Globals → Globals
inc_sent_msg g = record g {
  counters = record (g.counters) {
    last_interval_send_msg_cnt = inc64 g.last_interval_send_msg_cnt;
  };
}

-- `++last_interval_send_msg_cnt; start_pos = 0; CountStats();` once the buffer is empty.
pub flushed : Clock → Frame → Frame
flushed clock f =
    if f.socket.buf.size == 0
    then record {
      globals = count_stats clock (inc_sent_msg f.globals);
      socket = record (f.socket) { buf = record (f.socket.buf) { start_pos = 0 } };
    }
    else f

-- `us_socket_write(data + from, size)`, and what both its callers then do with the result.
-- `start_pos += written; size -= written;`, with what the socket took.
pub advance : ℕ → List ℕ → EchoSocket → EchoSocket
advance written offered s = record s {
  buf = record (s.buf) {
    start_pos = add64 s.buf.start_pos written;
    size = sub64 s.buf.size written;
  };
  sent = s.sent ++ take written offered;
}

abbrev pub write_frame : Env → List ℕ → Frame → Frame
write_frame env offered f =
    let written = env.write offered in
    record { globals = add_sent written f.globals; socket = advance written offered f.socket }

pub write_out : Env → ℕ → Frame → Option Frame
write_out env from f = do
  offered ← read_at f.socket.buf.data_block from f.socket.buf.size
  some (flushed env.clock (write_frame env offered f))

pub on_writable : Env → Frame → Option Frame
on_writable env f = write_out env f.socket.buf.start_pos f

abbrev received : ℕ → Globals → Globals
received n g = record g {
  counters = record (g.counters) {
    last_interval_recv_bytes = add64 g.last_interval_recv_bytes n;
    last_interval_recv_msg_cnt =
        if ltb 0 n then inc64 g.last_interval_recv_msg_cnt else g.last_interval_recv_msg_cnt;
  };
}

-- The buffer after a `memcpy` into its block that left it with `n` bytes.
abbrev pub with_buffer : List ℕ → ℕ → EchoSocket → EchoSocket
with_buffer block n s = record s { buf = record (s.buf) { data_block = block; size = n } }

-- A message that arrives whole is sent from where it is; what the socket does not take of it goes
-- to the buffer.
pub whole_message : Env → List ℕ → Frame → Option Frame
whole_message env bytes f =
    let written = env.write bytes in
    let g : Globals = add_sent written f.globals in
    let s : EchoSocket = record (f.socket) { sent = f.socket.sent ++ take written bytes } in
    if written == length bytes
    then some (record { globals = count_stats env.clock (inc_sent_msg g); socket = s })
    else do
      block ← write_at f.socket.buf.data_block 0 (drop written bytes)
      some (record { globals = g; socket = with_buffer block (length bytes - written) s })

-- A part of a message is collected, and the message is sent once it is whole.
pub part_message : Env → List ℕ → Frame → Option Frame
part_message env bytes f = do
  block ← write_at f.socket.buf.data_block f.socket.buf.size bytes
  let size = add64 f.socket.buf.size (length bytes)
  let f' : Frame = record f { socket = with_buffer block size f.socket }
  if size == max_data_len then write_out env 0 f' else some f'

pub on_data : Env → List ℕ → Frame → Option Frame
on_data env bytes f =
    let f' : Frame = record f { globals = received (length bytes) f.globals } in
    if length bytes == max_data_len then whole_message env bytes f' else part_message env bytes f'

unfoldable pub on_open : Frame → Frame
on_open f =
    let conns = inc (pos 0) in
    record {
      globals = record (f.globals) {
        dup_act_conns = conns;
        active_connections = inc f.globals.active_connections;
      };
      socket = record (f.socket) {
        buf = record (f.socket.buf) { start_pos = 0; size = 0 };
        active_conns_in_ctx = conns;
      };
    }

pub on_close : Frame → Frame
on_close f =
    let conns = dec f.socket.active_conns_in_ctx in
    record {
      globals = record (f.globals) {
        active_connections = dec f.globals.active_connections;
        dup_act_conns = conns;
      };
      socket = record (f.socket) { active_conns_in_ctx = conns };
    }

-- `close` is `us_socket_close` of the library, with the callback that it makes.
pub on_end : (Frame → Frame) → Frame → Frame
on_end close f = close (record f { socket = record (f.socket) { is_shut_down = true } })

pub on_timeout : (Frame → Frame) → Frame → Frame
on_timeout close f = close f
