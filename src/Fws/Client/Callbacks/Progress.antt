-- ===== src/Fws/Client/Callbacks/Progress.antt =====
-- Each callback of the flashws client on an echoing server ends, with the count of echoes kept.
use mathlib.Core.Path.{subst}
use ws_benchmark.Prelude.{ℕ, ◌+◌, ◌^◌, ◌≤◌, ◌<◌, ◌≡◌, List, length}
use ws_benchmark.Fws.{Outcome, done, Ends}
use ws_benchmark.Fws.Client.{Config, Context, Env, Part, Frame, Action, ClientLib}
use ws_benchmark.Fws.Client.Callbacks.{on_read}
use ws_benchmark.Fws.Client.Callbacks.Balance.{IsLive, remaining, Leaves, on_read-Leaves}
use ws_benchmark.Fws.Client.Callbacks.Echo.{
  IsFine, IsEcho, IsClose, Expects, IsGood, received_after,
}
use ws_benchmark.Fws.Client.Callbacks.Runs.{on_read-Goes}

module _ (lib : ClientLib) (config : Config) (payload : List ℕ) where
  -- While the server echoes and the library's calls succeed, a callback neither aborts nor writes out
  -- of a buffer, and takes its echo, if it is whole, out of those that this client and the ones to
  -- come after it wait for: the client goes on, a new one takes over the message, or the last one is
  -- closed with none left. The program is never told to end while the client is open. `Close` does
  -- `close`, which keeps the hash, the file and the count.
  pub on_read-progress :
      (close : Context → Outcome Context) (env : Env) (p : Part) (received : List ℕ) (f : Frame)
      → IsClose close
      → ((ctx : Context) → Ends (λ ctx'. ctx'.loop_cnt ≡ ctx.loop_cnt) (close ctx))
      → length payload ≡ config.max_data_len
      → IsFine env
      → IsEcho payload received p
      → Expects lib config payload received f
      → IsLive config f.client_ctx
      → f.ctx.loop_cnt + remaining config f.client_ctx ≤ config.total_msg_cnt
      → config.total_msg_cnt < 2 ^ 64
      → config.msg_limit_per_client < 2 ^ 64
      → (action : Action) × (on_read lib config close env p f ≡ done action)
        × IsGood lib config payload (received_after p received) action
        × Leaves lib config (f.ctx.loop_cnt + remaining config f.client_ctx) action
  on_read-progress close env p received f is_close keeps full fine echo expects live fits total
        limit =
      let goes =
        on_read-Goes lib config payload close is_close full env p received f fine echo expects in
      (
        goes.after,
        goes.runs,
        goes.good,
        subst (Ends (Leaves lib config (f.ctx.loop_cnt + remaining config f.client_ctx))) goes.runs
            (on_read-Leaves lib config close keeps env p f live fits total limit),
      )
