-- ===== src/Fws/Client/Callbacks/Hazards.antt =====
-- The end of the flashws client when its last connection closes at once.
use ws_benchmark.Prelude.{◌≤◌, ◌≡◌, arith, inc64}
use ws_benchmark.Fws.{faults}
use ws_benchmark.Fws.Client.{
  Config, Env, Frame, ClientLib, open_file, end_client, on_close, write_row,
}
use ws_benchmark.Fws.Client.Callbacks.{after_close, retire, on_echo}

module _ (lib : ClientLib) (config : Config) where
  -- The last client, with the output file open, has its last echo, which is the last one of all. If
  -- `Close` calls the close callback before it returns, and no socket is left then, the program is
  -- ended twice: the output file is written and closed after it was closed.
  pub on_echo-ends_twice :
      (env : Env) (f : Frame)
      → inc64 f.client_ctx.msg_cnt ≡ config.msg_limit_per_client
      → config.total_msg_cnt ≤ inc64 f.ctx.loop_cnt
      → config.reborn_limit_for_client ≤ f.client_ctx.reborn_cnt
      → f.client_ctx.temp_buf.size ≡ config.max_data_len
      → f.ctx.out_fp ≡ open_file
      → env.socket_count ≡ 0
      → on_echo lib config (on_close config env) env f ≡ faults
  unfolding on_echo retire after_close on_close end_client write_row
  on_echo-ends_twice env f last all no_more exact file empty = ground arith
