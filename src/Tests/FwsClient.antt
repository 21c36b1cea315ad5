-- ===== src/Tests/FwsClient.antt =====
-- The flashws client at concrete inputs: one client slot, two clients after each other, two
-- messages each.
use Prim.Native.Nat.{◌^◌}
use ws_benchmark.Prelude.{
  ℕ, ◌+◌, ◌*◌, ◌/◌, ◌%◌, ◌≡◌, refl, true, false, Bool, List, [], ◌∷◌, arith, replicate,
  length-replicate,
}
use ws_benchmark.Prelude.Int.{pos}
use ws_benchmark.Args.{Text}
use ws_benchmark.Fws.{done, new_buf, aborts, faults}
use ws_benchmark.Fws.Buffers.{new_buf-Holds}
use ws_benchmark.Fws.Starts.{running}
use ws_benchmark.Fws.Client.{
  new_ws_client, in_progress, Config, ClientCtx, ClientLib, Context, Env, Part, Frame, Action,
  open_file, hash_arr, on_close,
}
use ws_benchmark.Fws.Client.Callbacks.Hazards.{on_echo-ends_twice}
use ws_benchmark.Fws.Client.Callbacks.Hash.{check_hash-notices}
use ws_benchmark.Fws.Client.Callbacks.{check_hash, on_echo, on_read}
use ws_benchmark.Fws.Client.Callbacks.Balance.{Leaves, remaining, later}
use ws_benchmark.Fws.Client.Callbacks.Echo.{IsFine, received_after, Takes, IsGood}
use ws_benchmark.Fws.Client.Callbacks.Settles.{on_read-settles}
use ws_benchmark.Fws.Client.Callbacks.Stops.{HasStopped}
use ws_benchmark.Fws.Client.Fleet.{Fleet}
use ws_benchmark.Fws.Client.Main.{Boot, ClientArgs, client_args, test_ws_client, new_context}
use ws_benchmark.Fws.Client.Ready.{IsUp, Ready, test_ws_client-Ready}

abbrev pub lib : ClientLib
lib = record {
  fws = record {
    hdr_size = 2;
    request_buf = λ n. record { data_block = replicate n 0; start_pos = 0; size = 0 };
    request_buf_room = λ n. omega (arith, length-replicate {A = ℕ} n 0);
    request_buf_empty = λ n. refl;
  };
  rotate_r = λ x n. x / 2 ^ n + x % 2 ^ n * 2 ^ 59;
  ns_of_ticks = λ n. pos n;
}

abbrev pub config : Config
config = record {
  max_data_len = 2;
  total_msg_cnt = 4;
  msg_limit_per_client = 2;
  reborn_limit_for_client = 2;
}

abbrev pub payload : List ℕ
payload = 48 ∷ 57 ∷ []

abbrev pub ctx : Context
ctx = record (new_context (hash_arr lib.rotate_r payload)) { out_fp = open_file }

abbrev pub client : ClientCtx
client = record {
  reborn_cnt = 1;
  msg_cnt = 0;
  temp_buf = record { data_block = 0 ∷ 0 ∷ payload; start_pos = 2; size = 2 };
  start_write_tick = 0;
  written = [];
}

abbrev pub env : Env
env = record {
  now_ns = 9;
  stop_tick = 6;
  start_tick = 5;
  write_ok = true;
  new_client = record { init_ok = true; connect = in_progress };
  add_socket_ok = true;
  socket_count = 1;
}

abbrev pub part : List ℕ → Bool → Part
part bytes is_msg_end = record {
  opcode = 2;
  payload = bytes;
  is_frame_end = is_msg_end;
  is_msg_end = is_msg_end;
  is_control_msg = false;
}

pub fine : IsFine env
unfolding new_ws_client
fine = record { writes = refl; connects = refl; adds = refl }

pub takes : Takes lib config payload ctx client
takes = record {
  buffer = record { at_start = refl; room = omega arith; holds = refl; sized = refl };
  hash = refl;
  file = ground arith;
  frames = tt;
}

-- The last client waits for its last echo.
abbrev waiting : Frame
waiting = record {
  ctx = record ctx { loop_cnt = 3 };
  client_ctx = record client { reborn_cnt = 2; msg_cnt = 1; temp_buf = new_buf lib.fws 4 };
}

on_read-settles_example :
    (action : Action) × (on_read lib config (on_close config env) env (part payload true) waiting
      ≡ done action)
    × IsGood lib config payload (received_after (part payload true) []) action
    × Leaves lib config (3 + remaining config waiting.client_ctx) action
    × (env.socket_count ≡ 1 → HasStopped action)
unfolding remaining later
on_read-settles_example =
    on_read-settles lib config payload env 0 (part payload true) [] waiting
      (record { counted = omega arith; alone = λ _. refl; together = λ more. absurd (more refl) })
      refl fine (record { fits = ground arith; whole = ground arith; pong_whole = ground arith })
      (record { buffer = new_buf-Holds lib.fws 2; hash = refl; file = ground arith; frames = tt })
      (record { waits = omega arith; allowed = omega arith }) refl (omega arith) (omega arith)

abbrev pub boot : Boot
boot = record {
  env_init = true;
  fopen = λ path. true;
  loop_init = true;
  ssl_init = true;
  new_client = λ k. record { init_ok = true; connect = in_progress };
  add_socket_ok = λ k. true;
  rand = λ k. 7 * k;
}

abbrev pub argv : List Text
argv =
    (99 ∷ [])
    ∷ (49 ∷ [])
    ∷ (56 ∷ 48 ∷ [])
    ∷ (50 ∷ [])
    ∷ (50 ∷ [])
    ∷ (49 ∷ [])
    ∷ (50 ∷ [])
    ∷ (102 ∷ [])
    ∷ []

abbrev pub args : ClientArgs
args = record {
  server_ip = 49 ∷ [];
  server_port = 80;
  config = config;
  client_cnt = 1;
  data_file_path = 102 ∷ [];
}

pub up : IsUp boot
unfolding new_ws_client
up = record {
  env = refl;
  fopen = λ path. refl;
  loop = refl;
  ssl = refl;
  clients = λ k. refl;
  adds = λ k. refl;
}

test_ws_client-Ready_example :
    (fleet : Fleet) × (test_ws_client lib boot 0 argv ≡ running (args, fleet))
    × Ready lib boot up args fleet
unfolding client_args ws_benchmark.Args.atoi
test_ws_client-Ready_example = test_ws_client-Ready lib boot up 0 argv args refl (omega arith)

-- The last client, with its last echo but one part.
abbrev last_waiting : Frame
last_waiting = record {
  ctx = record ctx { loop_cnt = 3 };
  client_ctx = record client { msg_cnt = 1; reborn_cnt = 2 };
}

abbrev pub env_alone : Env
env_alone = record env { socket_count = 0 }

on_echo-ends_twice_example :
    on_echo lib config (on_close config env_alone) env_alone last_waiting ≡ faults
on_echo-ends_twice_example =
    on_echo-ends_twice lib config env_alone last_waiting refl (omega arith) (omega arith) refl refl
      refl

-- The echo of the message `0 9` is `0 8`.
abbrev garbled : Frame
garbled = record {
  ctx = record ctx { loop_cnt = 0x4000 };
  client_ctx = record client {
    temp_buf = record { data_block = 0 ∷ 0 ∷ 48 ∷ 56 ∷ []; start_pos = 2; size = 2 };
  };
}

check_hash-notices_example : check_hash lib config env garbled ≡ aborts
check_hash-notices_example =
    check_hash-notices lib config env garbled (48 ∷ []) [] 57 56
      (record { stays = λ x h. omega arith; keeps = λ x y h k e. omega arith }) (omega arith, tt) tt
      (omega arith) (omega arith) (λ e. omega arith) refl refl refl
