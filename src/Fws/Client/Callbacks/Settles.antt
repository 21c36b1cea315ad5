-- ===== src/Fws/Client/Callbacks/Settles.antt =====
-- Each callback of the flashws client on an echoing server, with the program's own `OnClose`.
use ws_benchmark.Prelude.{ℕ, ◌+◌, ◌^◌, ◌<◌, ◌≡◌, ◌∙◌, refl, List, length, arith}
use mathlib.Core.Path.{subst}
use ws_benchmark.Fws.{done, Ends}
use ws_benchmark.Fws.Client.{Config, Env, Part, Frame, Action, ClientLib, on_close}
use ws_benchmark.Fws.Client.Callbacks.{on_read}
use ws_benchmark.Fws.Client.Callbacks.Balance.{IsLive, remaining, Leaves}
use ws_benchmark.Fws.Client.Callbacks.Closing.{Left, uncounted, on_read-closes}
use ws_benchmark.Fws.Client.Callbacks.Echo.{IsFine, IsEcho, Expects, IsGood, received_after}
use ws_benchmark.Fws.Client.Callbacks.Progress.{on_read-progress}
use ws_benchmark.Fws.Client.Callbacks.Stops.{HasStopped, on_read-stops}

-- While the server echoes, the library's calls succeed, and `Close` calls `OnClose` at once and still
-- counts the socket that closes, a callback neither aborts nor writes out of a buffer or to a closed
-- file; it keeps what the client holds; and it takes its echo, if it is whole, out of those that
-- this client and the ones to come after it wait for: the client goes on, a new one takes over the
-- message, or the client is closed with none left to it. `others` echoes are left to other clients;
-- if there are no others, a client that is closed has stopped the loop.
pub on_read-settles :
    (lib : ClientLib) (config : Config) (payload : List ℕ) (env : Env) (others : ℕ) (p : Part)
    (received : List ℕ) (f : Frame)
    → Left lib config env others
    → length payload ≡ config.max_data_len
    → IsFine env
    → IsEcho payload received p
    → Expects lib config payload received f
    → IsLive config f.client_ctx
    → f.ctx.loop_cnt + (remaining config f.client_ctx + others) ≡ config.total_msg_cnt
    → config.total_msg_cnt < 2 ^ 64
    → config.msg_limit_per_client < 2 ^ 64
    → (action : Action) × (on_read lib config (on_close config env) env p f ≡ done action)
      × IsGood lib config payload (received_after p received) action
      × Leaves lib config (f.ctx.loop_cnt + remaining config f.client_ctx) action
      × (env.socket_count ≡ 1 → HasStopped action)
on_read-settles lib config payload env others p received f left full fine echo expects live sum
      total limit =
    let (action, runs, good, leaves) =
      on_read-progress lib config payload (λ ctx. done ctx) (uncounted env) p received f
        (λ ctx. (ctx, refl, refl, refl)) (λ ctx. refl) full
        (record { writes = fine.writes; connects = fine.connects; adds = fine.adds }) echo expects
        live (omega (arith, sum)) total limit in
    (
      action,
      on_read-closes lib config env others left total limit p f live sum ∙ runs,
      good,
      leaves,
      λ alone.
          subst (Ends HasStopped) runs
            (on_read-stops lib config (uncounted env) (omega (arith, alone)) p f),
    )
