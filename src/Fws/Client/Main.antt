-- ===== src/Fws/Client/Main.antt =====
-- `TestWsClient` of src/flashws/echo_client.cpp: from the command line to the clients in the loop.
use ws_benchmark.Prelude.{
  ℕ, zero, suc, ◌*◌, true, false, not, Bool, List, [], ◌∷◌, ◌++◌, length, ltb, u64,
}
use ws_benchmark.Args.{
  Text, check, positive, arg, atoi, to_string, usage, invalid_port, invalid_max_msg_len,
  invalid_msg_cnt_per_client, invalid_client_cnt, invalid_client_reborn_cnt,
}
use ws_benchmark.Fws.Client.Fleet.{Fleet, add_client}
use ws_benchmark.Fws.Starts.{
  Start, running, of_args, of_outcome, or_return, or_abort, ◌>>=◌, ◌>>◌, loop_init_failed,
  cannot_create_file, new_client_failed, add_socket_failed,
}
use ws_benchmark.Fws.Client.{
  new_ws_client, NewClient, Config, no_file, open_file, Context, ClientLib,
}

-- What the library's calls report, by the number of the client where there is one, and the values of
-- `rand` after `srand(1)`.
pub record Boot : Type 0 where
  pub env_init : Bool
  pub fopen : Text → Bool
  pub loop_init : Bool
  pub ssl_init : Bool
  pub new_client : ℕ → NewClient
  pub add_socket_ok : ℕ → Bool
  pub rand : ℕ → ℕ

pub record ClientArgs : Type 0 where
  pub server_ip : Text
  pub server_port : ℕ  -- int
  pub config : Config
  pub client_cnt : ℕ  -- int
  pub data_file_path : Text

-- `std::string(SERVER_IP) + ":" + std::to_string(SERVER_PORT)`
unfoldable pub host : ClientArgs → Text
host a = a.server_ip ++ (58 ∷ to_string a.server_port)

-- The product of three signed numbers is taken as `long long`, and kept as a `size_t`.
unfoldable pub client_args : List Text → Start ClientArgs
client_args argv = do
  of_args (check (not (ltb (length argv) 8)) usage)
  server_port ← of_args (positive (atoi (arg 2 argv)) invalid_port)
  max_msg_len ← of_args (positive (atoi (arg 3 argv)) invalid_max_msg_len)
  msg_cnt_per_c ← of_args (positive (atoi (arg 4 argv)) invalid_msg_cnt_per_client)
  client_cnt ← of_args (positive (atoi (arg 5 argv)) invalid_client_cnt)
  client_reborn_time ← of_args (positive (atoi (arg 6 argv)) invalid_client_reborn_cnt)
  running (record {
    server_ip = arg 1 argv;
    server_port = server_port;
    config = record {
      max_data_len = max_msg_len;
      total_msg_cnt = u64 (msg_cnt_per_c * client_cnt * client_reborn_time);
      msg_limit_per_client = msg_cnt_per_c;
      reborn_limit_for_client = client_reborn_time;
    };
    client_cnt = client_cnt;
    data_file_path = arg 7 argv;
  })

-- The loop over the clients, the `k`-th one next.
unfoldable pub add_clients : ClientLib → Config → Boot → ℕ → ℕ → Fleet → Start Fleet
add_clients lib config boot k zero fleet = running fleet
add_clients lib config boot k (suc n) fleet = do
  or_return (new_ws_client (boot.new_client k)) new_client_failed
  fleet' ← of_outcome (add_client lib config boot.rand fleet)
  or_return (boot.add_socket_ok k) add_socket_failed
  add_clients lib config boot (suc k) n fleet'

-- `ContextClass` as it is constructed. `data_hash` is not set there: `hash` is what it happens to be.
abbrev pub new_context : ℕ → Context
new_context hash = record {
  rtt_hist = [];
  data_hash = hash;
  loop_cnt = 0;
  send_bytes_sum = 0;
  recv_bytes_sum = 0;
  start_ns_from_epoch = 0;
  last_record_ns = 0;
  wait_shutdown = false;
  out_fp = no_file;
  rows = [];
  is_running = true;
}

unfoldable pub test_ws_client : ClientLib → Boot → ℕ → List Text → Start (ClientArgs × Fleet)
test_ws_client lib boot hash argv = do
  a ← client_args argv
  or_abort boot.env_init
  or_return (boot.fopen a.data_file_path) cannot_create_file
  or_return boot.loop_init loop_init_failed
  or_abort boot.ssl_init
  fleet ←
      add_clients lib a.config boot 0 a.client_cnt (record { ctx = new_context hash; clients = [] })
  running (a, record fleet { ctx = record (fleet.ctx) { out_fp = open_file } })
