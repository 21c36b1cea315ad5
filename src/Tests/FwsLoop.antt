-- ===== src/Tests/FwsLoop.antt =====
-- The flashws client's loop at concrete inputs: one client opens its connection.
use ws_benchmark.Prelude.{◌≡◌, refl, [], ◌∷◌, arith, length, write_at, splice}
use ws_benchmark.Fws.Client.{new_ws_client}
use ws_benchmark.Fws.Client.Loop.{opens, run}
use ws_benchmark.Fws.Client.Loop.Done.{AllAllowed, Finishes}
use ws_benchmark.Args.{atoi}
use ws_benchmark.Payload.{random_digits}
use ws_benchmark.Fws.Starts.{running}
use ws_benchmark.Fws.Client.{hash_arr, open_file, on_close}
use ws_benchmark.Fws.Client.Fleet.{Fleet, fill, add_client}
use ws_benchmark.Fws.Client.Main.{test_ws_client, client_args, add_clients, new_context}
use ws_benchmark.Fws.Client.Loop.Launch.{launched, slots_of, launch-Finishes}
use ws_benchmark.Tests.FwsClient.{up, boot, argv, args, lib, config, env}

-- The loop of a client whose command line asks for two messages of two bytes, and as many of the
-- client that replaces it.
abbrev pub fleet : Fleet
fleet = record {
  ctx = record (new_context (hash_arr lib.rotate_r (48 ∷ 55 ∷ []))) { out_fp = open_file };
  clients =
      record {
        reborn_cnt = 1;
        msg_cnt = 0;
        temp_buf = record { data_block = 0 ∷ 0 ∷ 48 ∷ 55 ∷ []; start_pos = 2; size = 2 };
        start_write_tick = 0;
        written = [];
      }
      ∷ [];
}

pub started : test_ws_client lib boot 0 argv ≡ running (args, fleet)
unfolding test_ws_client client_args atoi add_clients add_client fill random_digits write_at splice
    new_ws_client
started = refl

launch-Finishes_example :
    (length fleet.clients ≡ 1)
    × Finishes lib config
        (random_digits boot.rand 0 2)
        (run lib config (on_close config) ((0, opens env) ∷ []) (launched fleet))
unfolding AllAllowed slots_of
launch-Finishes_example =
    launch-Finishes lib boot 0 argv args fleet ((0, opens env) ∷ []) up started (omega arith)
      (omega arith) (refl, λ _ _. tt)
