-- ===== src/Fws/Server.antt =====
-- src/flashws/echo_server.cpp with test_def.h: the callbacks of the flashws echo server.
pub mod Assembly
pub mod Intervals
pub mod Loop
pub mod Main
pub mod Overruns
use ws_benchmark.Prelude.{
  ℕ, ◌%◌, Bool, not, ◌&&◌, ◌||◌, List, [], ◌∷◌, length, ◌==◌, if◌then◌else◌, add64, inc64, sub64,
  write_at,
}
use ws_benchmark.Prelude.Int.{ℤ, pos}
use ws_benchmark.Stats.{Counters, Clock, Report, zero_counters, reset, report, start_interval}
use ws_benchmark.Fws.{
  IoBuffer, FlashWs, Outcome, done, aborts, faults, ◌>>=◌, ◌>>◌, assert, access, new_buf, contents,
  append_bytes, Option, none, some, ws_opcode_pong,
}

-- `Context`. `printed` holds the lines of the standard output, the last one first, and `rows` those
-- of the output file.
pub record Context : Type 0 where
  pub counters : Counters
  pub open counters use *
  pub last_msg_size : ℕ  -- size_t
  pub output_fp : Bool
  pub printed : List Report
  pub rows : List Report

pub start : Bool → Context
start output_fp = record {
  counters = zero_counters;
  last_msg_size = 0;
  output_fp = output_fp;
  printed = [];
  rows = [];
}

pub record BufferStatus : Type 0 where
  pub opcode : ℕ  -- uint8_t
  pub is_msg_end : ℕ  -- uint8_t

-- `ConnectCtx`, and the frames that its peer was sent, the last one first, each with its type.
pub record ConnectCtx : Type 0 where
  pub io_buf : IoBuffer
  pub status : BufferStatus
  pub sent : List (ℕ × List ℕ)

-- What a callback reads from outside: the clock, `loop.socket_count()`, and whether `WriteFrame`
-- returns a number that is not negative.
pub record Env : Type 0 where
  pub clock : Clock
  pub socket_count : ℕ
  pub write_ok : Bool

-- What `OnRead` is called with.
pub record Part : Type 0 where
  pub opcode : ℕ  -- uint32_t
  pub payload : List ℕ
  pub is_frame_end : Bool
  pub is_msg_end : Bool
  pub is_control_msg : Bool

pub record Frame : Type 0 where
  pub ctx : Context
  pub con_ctx : ConnectCtx

-- `recv_msg_cnt & 0x3fff` is not 0, or nothing was received.
unfoldable pub is_quiet : ℕ → Bool
is_quiet n = not (n % 0x4000 == 0) || n == 0

unfoldable pub count_stats : Env → Context → Context
count_stats env g = if is_quiet g.last_interval_recv_msg_cnt then g else record g {
  counters = reset env.clock g.counters;
  printed = line ∷ g.printed;
  rows = if g.output_fp then line ∷ g.rows else g.rows;
}
  where
    line : Report
    line = report env.clock g.counters g.last_msg_size (pos (sub64 env.socket_count 1))

abbrev byte_of : Bool → ℕ
byte_of b = if b then 1 else 0

abbrev count_bytes : ℕ → Counters → Counters
count_bytes n c = record c { last_interval_recv_bytes = add64 c.last_interval_recv_bytes n }

abbrev count_echo : ℕ → Counters → Counters
count_echo n c = record c {
  last_interval_recv_msg_cnt = inc64 c.last_interval_recv_msg_cnt;
  last_interval_send_bytes = add64 c.last_interval_send_bytes n;
  last_interval_send_msg_cnt = inc64 c.last_interval_send_msg_cnt;
}

module _ (fws : FlashWs) (buf_size : ℕ) where
  -- `buf_size` is `MAX_DATA_LEN + SUGGEST_RESERVE_WS_HDR_SIZE` as `RequestBuf` gets it.
  unfoldable pub on_new_connection : ConnectCtx
  on_new_connection = record {
    io_buf = new_buf fws buf_size;
    status = record { opcode = 0; is_msg_end = 0 };
    sent = [];
  }

  -- The message is whole: it is sent back, counted, and a new buffer takes the old one's place.
  unfoldable pub echo_message : Env → Frame → Outcome Frame
  echo_message env f = do
    let target_size = f.con_ctx.io_buf.size
    assert env.write_ok
    done (record {
      ctx = count_stats env (record (f.ctx) {
        counters = count_echo target_size f.ctx.counters;
        last_msg_size = target_size;
      });
      con_ctx = record (f.con_ctx) {
        io_buf = new_buf fws buf_size;
        sent = (f.con_ctx.status.opcode, contents f.con_ctx.io_buf) ∷ f.con_ctx.sent;
      };
    })

  unfoldable pub on_data_part : Env → Part → Frame → Outcome Frame
  on_data_part env part f = do
    io_buf ← append_bytes f.con_ctx.io_buf part.payload
    let f' : Frame = record {
      ctx = record (f.ctx) {
        counters = count_bytes (length part.payload) (start_interval env.clock f.ctx.counters);
      };
      con_ctx = record (f.con_ctx) {
        io_buf = io_buf;
        status = record { opcode = part.opcode % 256; is_msg_end = byte_of part.is_msg_end };
      };
    }
    let rest = echo_message env f'
    if part.is_msg_end then rest else done f'

  pub on_control_part : Part → Frame → Outcome Frame
  on_control_part part f =
      if part.opcode == ws_opcode_pong
      then (do assert part.is_frame_end; assert part.is_msg_end; done f)
      else done f

  unfoldable pub on_read : Env → Part → Frame → Outcome Frame
  on_read env part f =
      if not part.is_control_msg then on_data_part env part f else on_control_part part f

  -- The parts that come over one connection.
  pub run : List (Env × Part) → Frame → Outcome Frame
  run [] f = done f
  run ((env, part) ∷ parts) f = on_read env part f >>= run parts

-- A close with a status other than 1000 is printed; the connection's context is destroyed.
pub on_close : ℕ → List ℕ → ConnectCtx → Option (ℕ × List ℕ)
on_close status_code reason c = if status_code == 1000 then none else some (status_code, reason)
