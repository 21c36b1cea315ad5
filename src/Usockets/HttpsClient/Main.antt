-- ===== src/Usockets/HttpsClient/Main.antt =====
-- `main` of src/usockets-tcp/https_client.cpp.
use ws_benchmark.Prelude.{true, ◌+◌, ◌≤◌, ◌≡◌, refl, length, ℕ, Bool, List, [], ◌∷◌, if◌then◌else◌}
use ws_benchmark.Usockets.HttpsClient.{request, Client, Event, on_open, run, connect}
use ws_benchmark.Usockets.HttpsClient.Request.{writables, Progress, run-finishes}

-- `host` and `port`, which are fixed, whatever the command line.
pub record Target : Type 0 where
  pub host : List ℕ
  pub port : ℕ

abbrev pub target : Target
target = record { host = 49 ∷ 48 ∷ 46 ∷ 53 ∷ 46 ∷ 57 ∷ 54 ∷ 46 ∷ 51 ∷ []; port = 58600 }

-- The library: whether the certificates load, whether `us_socket_context_connect` gives a socket, and
-- what comes of it: how many bytes the first write takes, and the events after it.
pub record Library : Type 0 where
  pub create_context : Bool
  pub connects : Target → Bool
  pub written : ℕ
  pub events : List Event

-- `exit(0)`, or the loop has run and everything is freed. Without a socket it runs all the same.
pub data Exit : Type 0 where
  exit_0 : Exit
  ran_without_socket : Exit
  ran : Client → Exit

unfoldable pub main : Library → Exit
main lib =
    if lib.create_context
    then if lib.connects target
      then ran (run lib.events (on_open lib.written connect))
      else ran_without_socket
    else exit_0

-- Where the certificates load and a connection is made, and each write takes some byte while there is
-- one to take: `main` has sent the whole request, once, after as many writable events as the first
-- write left bytes of it.
pub main-finishes :
    (lib : Library) (ns : List ℕ)
    → lib.create_context ≡ true
    → lib.connects target ≡ true
    → lib.events ≡ writables ns
    → lib.written ≤ length request
    → length request ≤ lib.written + length ns
    → Progress ns (on_open lib.written connect)
    → (c : Client) × (main lib ≡ ran c) × (c.sent ≡ request)
unfolding main
main-finishes lib ns context connects events h enough p = (
  run (writables ns) (on_open lib.written connect),
  rw (context, connects, events) refl,
  run-finishes lib.written ns h enough p,
)
