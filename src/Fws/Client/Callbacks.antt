-- ===== src/Fws/Client/Callbacks.antt =====
-- src/flashws/echo_client.cpp: `WriteFirstMsg` and the callbacks of SetOnOpen and SetOnRead.
pub mod Balance
pub mod Charges
pub mod Closing
pub mod Counter
pub mod Counts
pub mod Echo
pub mod Files
pub mod Frames
pub mod Hash
pub mod Hazards
pub mod Progress
pub mod ReadCharges
pub mod Runs
pub mod Settles
pub mod Stops
pub mod Whole
use ws_benchmark.Prelude.{
  ℕ, ◌+◌, ◌%◌, true, false, not, ◌&&◌, List, [], ◌∷◌, length, leb, ltb, ◌==◌, if◌then◌else◌, inc64,
  sub64, Bool,
}
use ws_benchmark.Prelude.Int.{ℤ, sub_ℕ}
use ws_benchmark.Fws.{
  FlashWs, IoBuffer, Outcome, done, aborts, faults, ◌>>=◌, ◌>>◌, assert, access, new_buf,
  append_bytes, contents, ws_opcode_pong,
}
use ws_benchmark.Fws.Client.{
  new_ws_client, NewClient, connects, in_progress, refused, Config, ClientCtx, Context, Env, Part,
  Frame, Action, goes_on, reborn, closed, ended, ClientLib, hash_arr, end_client,
}

module _ (lib : ClientLib) (config : Config) where
  abbrev fresh_buf : IoBuffer
  fresh_buf = new_buf lib.fws (config.max_data_len + lib.hdr_size)

  -- `WriteFrame` of the whole buffer, the sum of bytes, and the buffer that takes its place.
  unfoldable pub write_message : Env → Frame → Outcome Frame
  write_message env f =
      if env.write_ok
      then done (record {
        ctx = record (f.ctx) { send_bytes_sum = f.ctx.send_bytes_sum + f.client_ctx.temp_buf.size };
        client_ctx = record (f.client_ctx) {
          temp_buf = fresh_buf;
          written = contents f.client_ctx.temp_buf ∷ f.client_ctx.written;
        };
      })
      else aborts

  unfoldable pub write_first_msg : Env → Frame → Outcome Frame
  write_first_msg env f = write_message env (
      if f.client_ctx.temp_buf.size == config.max_data_len
      then record {
        ctx =
            if f.ctx.send_bytes_sum == 0
            then record (f.ctx) { start_ns_from_epoch = env.now_ns }
            else f.ctx;
        client_ctx = record (f.client_ctx) { start_write_tick = env.start_tick };
      }
      else f)

  -- `loop_cnt & 0x3fff` is 0: the hash of the echo is compared.
  unfoldable pub check_hash : Env → Frame → Outcome Frame
  check_hash env f =
      if f.ctx.loop_cnt % 0x4000 == 0
      then if hash_arr lib.rotate_r (contents f.client_ctx.temp_buf) == f.ctx.data_hash
        then done (record f { ctx = record (f.ctx) { last_record_ns = env.now_ns } })
        else aborts
      else done f

  -- After `Close`: a new client takes over the buffer, or the last one ends the program.
  unfoldable pub after_close : Env → IoBuffer → ℕ → Context → Outcome Action
  after_close env old_buf cur_reborn_cnt ctx =
      if ltb cur_reborn_cnt config.reborn_limit_for_client
      then if new_ws_client env.new_client && env.add_socket_ok
        then done (
            reborn ctx (record {
              reborn_cnt = cur_reborn_cnt + 1;
              msg_cnt = 0;
              temp_buf = old_buf;
              start_write_tick = env.stop_tick;
              written = [];
            }))
        else aborts
      else if env.socket_count == 0
      then (end_client config env ctx >>= λ ctx'. done (closed ctx'))
      else done (closed ctx)

  -- The client has its last echo: `close` is what `Close` does to the context, by its callback.
  unfoldable pub retire : (Context → Outcome Context) → Env → Frame → Outcome Action
  retire close env f = do
    assert (f.client_ctx.temp_buf.size == config.max_data_len)
    ctx ← close f.ctx
    after_close env f.client_ctx.temp_buf f.client_ctx.reborn_cnt ctx

  -- The echo of a message is whole.
  unfoldable pub on_echo : (Context → Outcome Context) → Env → Frame → Outcome Action
  on_echo close env f =
      let pass_tick = sub64 env.stop_tick f.client_ctx.start_write_tick in
      let f' : Frame = record {
        ctx = record (f.ctx) {
          rtt_hist = lib.ns_of_ticks pass_tick ∷ f.ctx.rtt_hist;
          loop_cnt = inc64 f.ctx.loop_cnt;
        };
        client_ctx = record (f.client_ctx) { msg_cnt = inc64 f.client_ctx.msg_cnt };
      } in
      if f'.client_ctx.msg_cnt == config.msg_limit_per_client
      then retire close env f'
      else if leb config.total_msg_cnt f'.ctx.loop_cnt
      then (end_client config env f'.ctx >>= λ ctx. done (ended ctx))
      else (do
        checked ← check_hash env f'
        f'' ← write_message env (record checked {
          client_ctx = record (checked.client_ctx) { start_write_tick = env.start_tick };
        })
        done (goes_on f''))

  unfoldable pub on_data_part : (Context → Outcome Context) → Env → Part → Frame → Outcome Action
  on_data_part close env part f = do
    temp_buf ← append_bytes f.client_ctx.temp_buf part.payload
    let f' : Frame = record {
      ctx = record (f.ctx) { recv_bytes_sum = f.ctx.recv_bytes_sum + length part.payload };
      client_ctx = record (f.client_ctx) { temp_buf = temp_buf };
    }
    if part.is_msg_end then on_echo close env f' else done (goes_on f')

  pub on_control_part : Part → Frame → Outcome Action
  on_control_part part f =
      if part.opcode == ws_opcode_pong
      then (do assert part.is_frame_end; assert part.is_msg_end; done (goes_on f))
      else done (goes_on f)

  unfoldable pub on_read : (Context → Outcome Context) → Env → Part → Frame → Outcome Action
  on_read close env part f =
      if not part.is_control_msg then on_data_part close env part f else on_control_part part f
