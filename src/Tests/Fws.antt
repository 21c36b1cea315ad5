-- ===== src/Tests/Fws.antt =====
-- The flashws programs at concrete inputs: headers of two bytes, buffers as large as asked for.
use ws_benchmark.Prelude.{
  ℕ, ◌≡◌, ◌<◌, refl, true, false, List, [], ◌∷◌, replicate, length-replicate, arith, Bool,
}
use ws_benchmark.Stats.{Clock}
use ws_benchmark.Args.{atoi, Text}
use ws_benchmark.Fws.{FlashWs, faults, done}
use ws_benchmark.Fws.Starts.{running}
use ws_benchmark.Fws.Server
use ws_benchmark.Fws.Server.Assembly.{next, views, Refines, AreAllowed}
use ws_benchmark.Fws.Server.Intervals.{IsFull, run-IsFull}
use ws_benchmark.Fws.Server.Overruns.{run-overruns}
use ws_benchmark.Fws.Server.Main.{
  Boot, ServerArgs, main, serve, main-running_iff, serve-Refines, IsStarted,
}
use mathlib.Core.Logic.{◌↔◌}

abbrev pub lib : FlashWs
lib = record {
  hdr_size = 2;
  request_buf = λ n. record { data_block = replicate n 0; start_pos = 0; size = 0 };
  request_buf_room = λ n. omega (arith, length-replicate {A = ℕ} n 0);
  request_buf_empty = λ n. refl;
}

abbrev clock : Clock
clock = record { start_ns = 5; now_ns = 7; printed_ns = 8 }

abbrev pub server_env : Server.Env
server_env = record { clock = clock; socket_count = 2; write_ok = true }

abbrev pub part : ℕ → List ℕ → Bool → Server.Part
part opcode payload is_msg_end = record {
  opcode = opcode;
  payload = payload;
  is_frame_end = is_msg_end;
  is_msg_end = is_msg_end;
  is_control_msg = false;
}

abbrev ping : Server.Part
ping = record {
  opcode = 9;
  payload = 1 ∷ [];
  is_frame_end = true;
  is_msg_end = true;
  is_control_msg = true;
}

-- A message of two parts with a ping between them, then one of one part.
abbrev parts : List (Server.Env × Server.Part)
parts =
    (server_env, part 1 (104 ∷ 101 ∷ []) false)
    ∷ (server_env, ping)
    ∷ (server_env, part 0 (108 ∷ []) true)
    ∷ (server_env, part 2 (7 ∷ 8 ∷ 9 ∷ []) true)
    ∷ []

parts_allowed : AreAllowed 3 parts (record { collected = []; echoed = [] })
unfolding next
parts_allowed = ground arith

abbrev pub args : ServerArgs
args = record { server_ip = 49 ∷ []; server_port = 80; max_msg_len = 3; export_file_path = 97 ∷ [] }

serve-Refines_example :
    Refines lib 3
      (views parts (record { collected = []; echoed = [] }))
      (serve lib args (Server.start true) parts)
serve-Refines_example =
    serve-Refines lib args (Server.start true) parts (omega arith) (omega arith) parts_allowed

run-IsFull_example :
    (f : Server.Frame) × (Server.run lib 5 parts
        (record { ctx = Server.start true; con_ctx = Server.on_new_connection lib 5 })
      ≡ done f)
    × (f.con_ctx.sent ≡ (views parts (record { collected = []; echoed = [] })).echoed)
    × IsFull f.ctx.printed
    × (f.ctx.last_interval_recv_msg_cnt < 0x4000)
run-IsFull_example = run-IsFull lib 5 3 true parts refl parts_allowed

-- Four bytes of a message, in two parts, for a server whose buffers have room for three.
abbrev halves : List (Server.Env × Server.Part)
halves = (server_env, part 1 (9 ∷ 9 ∷ []) false) ∷ (server_env, part 1 (9 ∷ 9 ∷ []) false) ∷ []

run-overruns_example :
    Server.run lib 5 halves
      (record { ctx = Server.start true; con_ctx = Server.on_new_connection lib 5 })
    ≡ faults
unfolding Server.on_new_connection
run-overruns_example =
    run-overruns lib 5 halves
      (record { ctx = Server.start true; con_ctx = Server.on_new_connection lib 5 })
      (refl, refl, (refl, refl, tt)) (omega arith) (omega arith)

abbrev pub boot : Boot
boot = record {
  loop_init = true;
  ssl_init = true;
  fopen = λ path. true;
  socket_init = true;
  start_listen = true;
  add_socket = true;
}

abbrev pub argv : List Text
argv = (115 ∷ []) ∷ (49 ∷ []) ∷ (56 ∷ 48 ∷ []) ∷ (51 ∷ []) ∷ (97 ∷ []) ∷ []

pub started : main boot argv ≡ running args
unfolding atoi
started = (main-running_iff boot argv args).1 (record {
  enough = omega arith;
  ip = refl;
  port = refl;
  port_positive = omega arith;
  max_len = refl;
  max_len_positive = omega arith;
  path = refl;
  loop_up = refl;
  ssl_up = refl;
  file_open = refl;
  socket_up = refl;
  listens = refl;
  added = refl;
})

main-running_iff_example : (main boot argv ≡ running args) ↔ IsStarted boot argv args
main-running_iff_example = main-running_iff boot argv args
