-- ===== src/Fws/Server/Main.antt =====
-- `main` of src/flashws/echo_server.cpp: from the command line to a connection's callbacks.
use mathlib.Core.Logic.{◌↔◌}
use ws_benchmark.Prelude.{
  true, not, ◌≤◌, length, ℕ, ◌+◌, ◌-◌, ◌%◌, ◌^◌, ◌<◌, ◌≡◌, Bool, List, [], ltb, if◌then◌else◌, u64,
  arith,
}
use ws_benchmark.Args.{Text, check, positive, arg, atoi, usage, invalid_port, invalid_max_msg_len}
use ws_benchmark.Fws.{FlashWs, Outcome, length}
use ws_benchmark.Fws.Starts.{
  Start, running, of_args, or_return, or_abort, ◌>>=◌, ◌>>◌, loop_init_failed, cannot_create_file,
  socket_init_failed, start_listen_failed, add_socket_failed,
}
use ws_benchmark.Fws.Server.{Context, Frame, Env, Part, on_new_connection, run, not, pos}
use ws_benchmark.Fws.Server.Assembly.{views, AreAllowed, Refines, run-Refines}

-- `int MAX_DATA_LEN = size_t(max_msg_len)`, then `MAX_DATA_LEN + SUGGEST_RESERVE_WS_HDR_SIZE` as a
-- `size_t`: the low 32 bits, with their sign extended.
unfoldable pub buf_size : ℕ → ℕ → ℕ
buf_size max_msg_len hdr_size =
    let low = max_msg_len % 2 ^ 32 in
    u64 ((if ltb low (2 ^ 31) then low else low + 2 ^ 64 - 2 ^ 32) + hdr_size)

-- What the library's calls in `main` report: whether each succeeds.
pub record Boot : Type 0 where
  pub loop_init : Bool
  pub ssl_init : Bool
  pub fopen : Text → Bool
  pub socket_init : Bool
  pub start_listen : Bool
  pub add_socket : Bool

pub record ServerArgs : Type 0 where
  pub server_ip : Text
  pub server_port : ℕ  -- int
  pub max_msg_len : ℕ  -- long long
  pub export_file_path : Text

pub main : Boot → List Text → Start ServerArgs
main boot argv = do
  of_args (check (not (ltb (length argv) 5)) usage)
  server_port ← of_args (positive (atoi (arg 2 argv)) invalid_port)
  max_msg_len ← of_args (positive (atoi (arg 3 argv)) invalid_max_msg_len)
  or_return boot.loop_init loop_init_failed
  or_abort boot.ssl_init
  or_return (boot.fopen (arg 4 argv)) cannot_create_file
  or_return boot.socket_init socket_init_failed
  or_return boot.start_listen start_listen_failed
  or_return boot.add_socket add_socket_failed
  running (record {
    server_ip = arg 1 argv;
    server_port = server_port;
    max_msg_len = max_msg_len;
    export_file_path = arg 4 argv;
  })

-- The callbacks of one connection of the server that `main` started.
pub serve : FlashWs → ServerArgs → Context → List (Env × Part) → Outcome Frame
serve fws a ctx parts =
    let size = buf_size a.max_msg_len fws.hdr_size in
    run fws size parts (record { ctx = ctx; con_ctx = on_new_connection fws size })

pub buf_size-eq : (n hdr : ℕ) → n < 2 ^ 31 → hdr < 2 ^ 31 → buf_size n hdr ≡ n + hdr
unfolding buf_size
buf_size-eq n hdr h k = ground arith

-- The loop runs exactly when each step of `main` succeeds, with positive numbers read from the
-- second and third argument.
pub record IsStarted (boot : Boot) (argv : List Text) (a : ServerArgs) : Type 0 where
  pub enough : 5 ≤ length argv
  pub ip : arg 1 argv ≡ a.server_ip
  pub port : atoi (arg 2 argv) ≡ pos a.server_port
  pub port_positive : 0 < a.server_port
  pub max_len : atoi (arg 3 argv) ≡ pos a.max_msg_len
  pub max_len_positive : 0 < a.max_msg_len
  pub path : arg 4 argv ≡ a.export_file_path
  pub loop_up : boot.loop_init ≡ true
  pub ssl_up : boot.ssl_init ≡ true
  pub file_open : boot.fopen a.export_file_path ≡ true
  pub socket_up : boot.socket_init ≡ true
  pub listens : boot.start_listen ≡ true
  pub added : boot.add_socket ≡ true

-- `main` starts the loop with the arguments `a` exactly where `IsStarted` says so.
pub main-running_iff :
    (boot : Boot) (argv : List Text) (a : ServerArgs)
    → (main boot argv ≡ running a) ↔ IsStarted boot argv a
unfolding main
main-running_iff boot argv a = (λ h. ground arith, λ h. ground arith)

-- The connections of a server that was asked for messages of less than 2^31 bytes: no message of up
-- to that length makes the server stop or write out of a buffer, and exactly the messages that the
-- parts make up are echoed, in order, each under the opcode of its last part.
pub serve-Refines :
    (fws : FlashWs) (a : ServerArgs) (ctx : Context) (parts : List (Env × Part))
    → a.max_msg_len < 2 ^ 31
    → fws.hdr_size < 2 ^ 31
    → AreAllowed a.max_msg_len parts (record { collected = []; echoed = [] })
    → Refines fws a.max_msg_len
        (views parts (record { collected = []; echoed = [] }))
        (serve fws a ctx parts)
unfolding serve
serve-Refines fws a ctx parts h k allowed =
    rw (buf_size-eq a.max_msg_len fws.hdr_size h k)
      (run-Refines fws a.max_msg_len ctx parts allowed)
