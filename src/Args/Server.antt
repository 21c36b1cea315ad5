-- ===== src/Args/Server.antt =====
-- The argument checks at the head of the echo servers' `main`, which the uWebSockets and the
-- websocketpp server share word for word.
use mathlib.Core.Logic.{◌↔◌}
use ws_benchmark.Prelude.{
  ◌^◌, ℕ, suc, ◌≤◌, ◌<◌, ◌≡◌, Bool, true, not, List, ◌∷◌, length, arith, ltb,
}
use ws_benchmark.Prelude.Int.{pos}
use ws_benchmark.Args.{
  Text, Result, ok, ◌>>=◌, ◌>>◌, check, positive, arg, atoi, to_string, usage, invalid_port,
  invalid_max_msg_len, cannot_create_file,
}
use ws_benchmark.Args.Decimal.{atoi-to_string}

pub record ServerArgs : Type 0 where
  pub server_ip : Text
  pub server_port : ℕ  -- int
  pub max_data_len : ℕ  -- size_t
  pub export_file_path : Text

-- `argc` is the length of `argv`; `fopen` says whether a file can be opened for writing.
unfoldable pub server_args : (Text → Bool) → List Text → Result ServerArgs
server_args fopen argv = do
  check (not (ltb (length argv) 5)) usage
  server_port ← positive (atoi (arg 2 argv)) invalid_port
  max_msg_len ← positive (atoi (arg 3 argv)) invalid_max_msg_len
  check (fopen (arg 4 argv)) cannot_create_file
  ok (record {
    server_ip = arg 1 argv;
    server_port = server_port;
    max_data_len = max_msg_len;
    export_file_path = arg 4 argv;
  })

-- What a command line must be to start the server as `a` says.
pub record IsAccepted (fopen : Text → Bool) (argv : List Text) (a : ServerArgs) : Type 0 where
  pub enough : 5 ≤ length argv
  pub ip : arg 1 argv ≡ a.server_ip
  pub port : atoi (arg 2 argv) ≡ pos a.server_port
  pub port_positive : 0 < a.server_port
  pub max_len : atoi (arg 3 argv) ≡ pos a.max_data_len
  pub max_len_positive : 0 < a.max_data_len
  pub path : arg 4 argv ≡ a.export_file_path
  pub opened : fopen a.export_file_path ≡ true

-- The checks pass with the arguments `a` exactly for the command lines that `IsAccepted` describes.
pub server_args-ok_iff :
    (fopen : Text → Bool) (argv : List Text) (a : ServerArgs)
    → (server_args fopen argv ≡ ok a) ↔ IsAccepted fopen argv a
unfolding server_args
server_args-ok_iff fopen argv a = (λ h. ground arith, λ h. ground arith)

-- A command line that spells a positive port and message length in decimal, the port within `int` and
-- the length within `long long`, is accepted with those numbers, whatever arguments follow, if the
-- file can be opened.
pub server_args-to_string :
    (fopen : Text → Bool) (program ip path : Text) (p n : ℕ) (rest : List Text)
    → suc p < 2 ^ 31
    → suc n < 2 ^ 63
    → fopen path ≡ true
    → server_args fopen (program ∷ ip ∷ to_string (suc p) ∷ to_string (suc n) ∷ path ∷ rest)
      ≡ ok (record {
        server_ip = ip;
        server_port = suc p;
        max_data_len = suc n;
        export_file_path = path;
      })
unfolding server_args
server_args-to_string fopen program ip path p n rest is_int is_long_long h =
    ground (arith, atoi-to_string (suc p), atoi-to_string (suc n))
