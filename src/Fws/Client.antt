-- ===== src/Fws/Client.antt =====
-- src/flashws/echo_client.cpp: the context of the flashws echo client and its callbacks.
pub mod Callbacks
pub mod Fleet
pub mod Loop
pub mod Main
pub mod Ready
use Prim.Native.Nat.{bit_xor}
use ws_benchmark.Prelude.{
  ℕ, ◌+◌, ◌%◌, true, false, not, ◌&&◌, List, [], ◌∷◌, length, leb, ltb, ◌==◌, if◌then◌else◌, inc64,
  sub64, Bool,
}
use ws_benchmark.Prelude.Int.{ℤ, sub_ℕ}
use ws_benchmark.Fws.{
  FlashWs, IoBuffer, Outcome, done, aborts, faults, ◌>>=◌, ◌>>◌, assert, access, new_buf,
  append_bytes, contents, ws_opcode_pong,
}

-- The static variables that `TestWsClient` sets from the command line.
pub record Config : Type 0 where
  pub max_data_len : ℕ  -- size_t
  pub total_msg_cnt : ℕ  -- size_t
  pub msg_limit_per_client : ℕ  -- size_t
  pub reborn_limit_for_client : ℕ  -- int

-- `ClientCtx`, and the frames that its socket was given to write, the last one first.
pub record ClientCtx : Type 0 where
  pub reborn_cnt : ℕ  -- int
  pub msg_cnt : ℕ  -- uint64_t
  pub temp_buf : IoBuffer
  pub start_write_tick : ℕ  -- uint64_t
  pub written : List (List ℕ)

-- `out_fp`: `EndClient` closes it, and leaves the pointer as it is.
pub data OutFile : Type 0 where
  no_file open_file closed_file : OutFile

-- The row that `EndClient` writes, before its quotients and quantiles are taken.
pub record Summary : Type 0 where
  pub msg_size : ℕ
  pub bytes_sum : ℕ
  pub to_now_ns : ℤ
  pub round_trips : List ℤ

-- `ContextClass`. The sums are `int64_t` and stay far below its limit.
pub record Context : Type 0 where
  pub rtt_hist : List ℤ
  pub data_hash : ℕ  -- size_t
  pub loop_cnt : ℕ  -- uint64_t
  pub send_bytes_sum : ℕ
  pub recv_bytes_sum : ℕ
  pub start_ns_from_epoch : ℕ
  pub last_record_ns : ℕ
  pub wait_shutdown : Bool
  pub out_fp : OutFile
  pub rows : List Summary
  pub is_running : Bool

-- What `Connect` returns: a number that is not negative, or a negative one with `errno`.
pub data Connect : Type 0 where
  connects in_progress refused : Connect

-- What the library's calls in `NewWSClient` return.
pub record NewClient : Type 0 where
  pub init_ok : Bool
  pub connect : Connect

-- `NewWSClient`: whether it gives a socket, with the three callbacks set.
unfoldable pub new_ws_client : NewClient → Bool
new_ws_client c =
    if not c.init_ok
    then false
    else elim c.connect [ connects ↦ true | in_progress ↦ true | refused ↦ false ]

-- What a callback reads from outside.
pub record Env : Type 0 where
  pub now_ns : ℕ
  pub stop_tick : ℕ
  pub start_tick : ℕ
  pub write_ok : Bool
  pub new_client : NewClient
  pub add_socket_ok : Bool
  pub socket_count : ℕ

pub record Part : Type 0 where
  pub opcode : ℕ
  pub payload : List ℕ
  pub is_frame_end : Bool
  pub is_msg_end : Bool
  pub is_control_msg : Bool

pub record Frame : Type 0 where
  pub ctx : Context
  pub client_ctx : ClientCtx

-- How `OnRead` leaves the client: it goes on, it is closed and a new one takes its place, it is
-- closed for good, or the program was told to end while it was open.
pub data Action : Type 0 where
  goes_on : Frame → Action
  reborn : Context → ClientCtx → Action
  closed ended : Context → Action

-- The library's `RotateR`, and the nanoseconds of a number of ticks, rounded.
pub record ClientLib : Type 0 where
  pub fws : FlashWs
  pub open fws use *
  pub rotate_r : ℕ → ℕ → ℕ
  pub ns_of_ticks : ℕ → ℤ

-- The loop of `HashArr`.
unfoldable pub hash_from : (ℕ → ℕ → ℕ) → ℕ → List ℕ → ℕ
hash_from rotate_r hash_value [] = hash_value
hash_from rotate_r hash_value (b ∷ bytes) =
    hash_from rotate_r (rotate_r (bit_xor hash_value b) 5) bytes

unfoldable pub hash_arr : (ℕ → ℕ → ℕ) → List ℕ → ℕ
hash_arr rotate_r bytes = hash_from rotate_r 0 bytes

-- `fprintf` and `fclose` on a file that is closed are undefined.
unfoldable pub write_row : Summary → Context → Outcome Context
write_row row ctx = elim ctx.out_fp [
  | no_file ↦ done ctx
  | open_file ↦ done (record ctx { rows = row ∷ ctx.rows; out_fp = closed_file })
  | closed_file ↦ faults
]

unfoldable pub end_client : Config → Env → Context → Outcome Context
end_client config env ctx =
    write_row
      (record {
        msg_size = config.max_data_len;
        bytes_sum = ctx.recv_bytes_sum + ctx.send_bytes_sum;
        to_now_ns = sub_ℕ env.now_ns ctx.start_ns_from_epoch;
        round_trips = ctx.rtt_hist;
      })
      (record ctx { is_running = false; wait_shutdown = true })

-- `OnClose`: the client's context is destroyed, and the last message ends the program.
unfoldable pub on_close : Config → Env → Context → Outcome Context
on_close config env ctx =
    if leb config.total_msg_cnt ctx.loop_cnt then end_client config env ctx else done ctx
