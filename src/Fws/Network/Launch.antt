-- ===== src/Fws/Network/Launch.antt =====
-- The two flashws programs from their command lines on.
use mathlib.Core.Logic.{◌↔◌}
use ws_benchmark.Prelude.{
  ℕ, ◌+◌, ◌*◌, ◌≤◌, ◌<◌, ◌^◌, ◌≡◌, refl, List, [], ◌∷◌, length, arith, Bool, Option,
}
use ws_benchmark.Args.{Text}
use ws_benchmark.Payload.{random_digits}
use ws_benchmark.Fws.{FlashWs, Outcome, done}
use ws_benchmark.Fws.Starts.{running}
use ws_benchmark.Fws.Client.{Config, Context, ClientCtx, ClientLib}
use ws_benchmark.Fws.Client.Fleet.{Fleet}
use ws_benchmark.Fws.Client.Fleet.Grows.{AllReady}
use ws_benchmark.Fws.Client.Main.{Boot, ClientArgs, test_ws_client}
use ws_benchmark.Fws.Client.Ready.{IsUp}
use ws_benchmark.Fws.Client.Loop.Slots.{all_left}
use ws_benchmark.Fws.Client.Loop.Done.{finished_iff}
use ws_benchmark.Fws.Client.Loop.Launch.{test_ws_client-Launches, launched, slots_of}
use ws_benchmark.Fws.Server.Intervals.{IsFull}
use ws_benchmark.Fws.Server.Loop.{started}
use ws_benchmark.Fws.Server.Loop.Done.{started-IsSound}
use ws_benchmark.Fws.Server
use ws_benchmark.Fws.Server.Assembly.{View}
use ws_benchmark.Fws.Server.Main.{buf_size, buf_size-eq}
use ws_benchmark.Fws.Network.{Network, Event, Link, offline, run}
use ws_benchmark.Fws.Network.Joined.{AreApart, AllJoined}
use ws_benchmark.Fws.Network.Works.{AllBrought, Sound, Works, run-Works}
use ws_benchmark.Fws.Network.Leads.{Completes}
use ws_benchmark.Fws.Network.Finishes.{Sound-CanFinish}

-- No client is connected yet.
unfoldable pub links_of : List ClientCtx → List Link
links_of [] = []
links_of (c ∷ clients) = offline ∷ links_of clients

abbrev pub both_started : Fleet → Bool → Network
both_started fleet output_fp = record {
  client = launched fleet;
  server = started output_fp;
  links = links_of fleet.clients;
}

links_of-AllJoined :
    (lib : ClientLib) (config : Config) (rand : ℕ → ℕ) (ctx : Context) (payload : List ℕ)
    (table : ℕ → Option View) (clients : List ClientCtx)
    → AllReady lib config rand ctx clients
    → AllJoined payload table (links_of clients) (slots_of clients)
unfolding links_of slots_of
links_of-AllJoined lib config rand ctx payload table [] ready = tt
links_of-AllJoined lib config rand ctx payload table (c ∷ clients) ready =
    ((refl, ready.2), links_of-AllJoined lib config rand ctx payload table clients ready.3)

links_of-AreApart : (clients : List ClientCtx) → AreApart (links_of clients)
unfolding links_of
links_of-AreApart [] = tt
links_of-AreApart (c ∷ clients) = (tt, links_of-AreApart clients)

-- The random digits that each client sends.
abbrev pub message : Boot → ClientArgs → List ℕ
message boot a = random_digits boot.rand 0 a.config.max_data_len

module _ (lib : ClientLib) (boot : Boot) (a : ClientArgs) (fws : FlashWs) where
  -- How a run of both programs ends: the clients and the server are what they should, no client is
  -- left exactly when all echoes have come, and the server's printed lines are whole.
  pub record Serves (max : ℕ) (r : Outcome Network) : Type 0 where
    pub after : Network
    pub runs : r ≡ done after
    pub sound : Sound lib a.config (message boot a) fws max after
    pub finished :
        (length after.client.slots ≡ 0) ↔ (after.client.ctx.loop_cnt ≡ a.config.total_msg_cnt)
    pub lines : IsFull after.server.ctx.printed

-- Both programs have started, and go on as they should.
launch-Works :
    (lib : ClientLib) (boot : Boot) (hash : ℕ) (argv : List Text) (a : ClientArgs) (fleet : Fleet)
    (fws : FlashWs) (server_boot : Server.Main.Boot) (server : Server.Main.ServerArgs)
    (events : List Event)
    → IsUp boot
    → test_ws_client lib boot hash argv ≡ running (a, fleet)
    → a.config.msg_limit_per_client * a.client_cnt * a.config.reborn_limit_for_client < 2 ^ 64
    → a.config.msg_limit_per_client < 2 ^ 64
    → a.config.max_data_len ≤ server.max_msg_len
    → AllBrought lib a.config
        (message boot a)
        fws
        server.max_msg_len
        events
        (both_started fleet (server_boot.fopen server.export_file_path))
    → Works lib a.config (message boot a) fws server.max_msg_len (
        run lib a.config fws
          (server.max_msg_len + fws.hdr_size)
          events
          (both_started fleet (server_boot.fopen server.export_file_path)))
launch-Works lib boot hash argv a fleet fws server_boot server events up clients fits limit long
      brought =
    let ready = test_ws_client-Launches lib boot hash argv a fleet up clients fits in
    run-Works lib a.config (message boot a) fws server.max_msg_len ready.full ready.total limit
      events (both_started fleet (server_boot.fopen server.export_file_path))
      (omega (arith, ready.full)) brought
      (record {
        clients = ready.balanced;
        server = started-IsSound fws server.max_msg_len (server_boot.fopen server.export_file_path);
        joined = links_of-AllJoined lib a.config boot.rand fleet.ctx _ _ fleet.clients ready.ready;
        apart = links_of-AreApart fleet.clients;
      })

-- `TestWsClient` and the server's `main` from their command lines on, while every call succeeds,
-- and `Close` calls the client's `OnClose` at once and still counts the socket that closes, on a
-- network that brings each side of a connection what the other one wrote, cut into any parts: over
-- any interleaving of the events of all connections, also those of other clients whose messages
-- fit, neither program ever aborts or touches memory out of a buffer, and no client finds a wrong
-- hash; each client holds the part of its own echo that came; while a client is left the round
-- trips and the sums of bytes that are counted are those of the echoes and messages, and when none
-- is left the one row of the output file has them all; no client is left exactly when
-- `TOTAL_MSG_CNT` echoes have come; and every line of the server stands for 0x4000 messages each
-- way.
pub launch-Serves :
    (lib : ClientLib) (boot : Boot) (hash : ℕ) (argv : List Text) (a : ClientArgs) (fleet : Fleet)
    (fws : FlashWs) (server_boot : Server.Main.Boot) (server_argv : List Text)
    (server : Server.Main.ServerArgs) (events : List Event)
    → IsUp boot
    → test_ws_client lib boot hash argv ≡ running (a, fleet)
    → a.config.msg_limit_per_client * a.client_cnt * a.config.reborn_limit_for_client < 2 ^ 64
    → a.config.msg_limit_per_client < 2 ^ 64
    → Server.Main.main server_boot server_argv ≡ running server
    → a.config.max_data_len ≤ server.max_msg_len
    → server.max_msg_len < 2 ^ 31
    → fws.hdr_size < 2 ^ 31
    → AllBrought lib a.config
        (message boot a)
        fws
        server.max_msg_len
        events
        (both_started fleet (server_boot.fopen server.export_file_path))
    → Serves lib boot a fws server.max_msg_len (
        run lib a.config fws
          (buf_size server.max_msg_len fws.hdr_size)
          events
          (both_started fleet (server_boot.fopen server.export_file_path)))
launch-Serves lib boot hash argv a fleet fws server_boot server_argv server events up clients fits
      limit main long small hdr brought =
    let works =
      launch-Works lib boot hash argv a fleet fws server_boot server events up clients fits limit
        long brought in
    record {
      after = works.after;
      runs = rw (buf_size-eq server.max_msg_len fws.hdr_size small hdr) works.runs;
      sound = works.sound;
      finished =
          finished_iff lib a.config (message boot a) works.after.client.ctx.loop_cnt
            works.after.client.ctx works.after.client.slots works.sound.clients.good
            works.sound.clients.left;
      lines = works.sound.server.inv.full;
    }

-- `TestWsClient` and the server's `main` from their command lines on, under the same conditions:
-- whatever the network has brought so far, neither program has aborted or touched memory out of a
-- buffer, and the network can still bring some events after which no client is left,
-- `TOTAL_MSG_CNT` echoes have come, and the output file has one row, with a round trip for each of
-- the echoes and their bytes in both directions.
pub launch-Completes :
    (lib : ClientLib) (boot : Boot) (hash : ℕ) (argv : List Text) (a : ClientArgs) (fleet : Fleet)
    (fws : FlashWs) (server_boot : Server.Main.Boot) (server_argv : List Text)
    (server : Server.Main.ServerArgs) (events : List Event)
    → IsUp boot
    → test_ws_client lib boot hash argv ≡ running (a, fleet)
    → a.config.msg_limit_per_client * a.client_cnt * a.config.reborn_limit_for_client < 2 ^ 64
    → a.config.msg_limit_per_client < 2 ^ 64
    → Server.Main.main server_boot server_argv ≡ running server
    → a.config.max_data_len ≤ server.max_msg_len
    → server.max_msg_len < 2 ^ 31
    → fws.hdr_size < 2 ^ 31
    → AllBrought lib a.config
        (message boot a)
        fws
        server.max_msg_len
        events
        (both_started fleet (server_boot.fopen server.export_file_path))
    → Completes lib a.config fws (buf_size server.max_msg_len fws.hdr_size) server.max_msg_len (
        run lib a.config fws
          (buf_size server.max_msg_len fws.hdr_size)
          events
          (both_started fleet (server_boot.fopen server.export_file_path)))
launch-Completes lib boot hash argv a fleet fws server_boot server_argv server events up clients
      fits limit main long small hdr brought =
    let ready = test_ws_client-Launches lib boot hash argv a fleet up clients fits in
    let works =
      launch-Works lib boot hash argv a fleet fws server_boot server events up clients fits limit
        long brought in
    rw (buf_size-eq server.max_msg_len fws.hdr_size small hdr) (record {
      now = works.after;
      runs = works.runs;
      can_finish =
          Sound-CanFinish lib a.config (message boot a) fws server.max_msg_len ready.full
            ready.total limit (omega (arith, ready.full))
            (all_left a.config works.after.client.slots) works.after works.sound.clients.left
            works.sound;
    })
