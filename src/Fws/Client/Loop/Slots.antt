-- ===== src/Fws/Client/Loop/Slots.antt =====
-- One event of the flashws client's loop on a server that echoes: what the clients hold after it.
use ws_benchmark.Prelude.{
  ◌==◌, ℕ, ◌+◌, ◌<◌, ◌≡◌, ◌≢◌, ◌∙◌, ap, List, [], ◌∷◌, length, arith, Bool-cases, inl, inr,
}
use ws_benchmark.Fws.{Outcome, done, Ends}
use ws_benchmark.Fws.Client.{
  Summary, Config, ClientCtx, Context, Env, Action, goes_on, reborn, closed, ended, ClientLib,
  closed_file, hash_arr,
}
use ws_benchmark.Fws.Client.Callbacks.Balance.{IsLive, remaining, Leaves}
use ws_benchmark.Fws.Client.Callbacks.Echo.{IsClose, Takes, Expects, IsGood}
use ws_benchmark.Fws.Client.Callbacks.Charges.{Charged}
use ws_benchmark.Fws.Client.Callbacks.Files.{Shares, SharesClosed}
use ws_benchmark.Fws.Client.Loop.{Status, fresh, receiving, Slot, Loop, settle}

-- What a close callback leaves of the context: the hash, the file and all that is counted.
pub record Unchanged (ctx ctx' : Context) : Type 0 where
  pub hash : ctx'.data_hash ≡ ctx.data_hash
  pub file : ctx'.out_fp ≡ ctx.out_fp
  pub loop : ctx'.loop_cnt ≡ ctx.loop_cnt
  pub rows : ctx'.rows ≡ ctx.rows
  pub trips : ctx'.rtt_hist ≡ ctx.rtt_hist
  pub recv : ctx'.recv_bytes_sum ≡ ctx.recv_bytes_sum
  pub sent : ctx'.send_bytes_sum ≡ ctx.send_bytes_sum

-- The close callback ends, and leaves all that.
abbrev pub CloseKeeps : (Context → Outcome Context) → Type 0
CloseKeeps close = (ctx : Context) → (ctx' : Context) × (close ctx ≡ done ctx') × Unchanged ctx ctx'

module _ (close : Context → Outcome Context) (keeps : CloseKeeps close) where
  pub CloseKeeps-IsClose : IsClose close
  CloseKeeps-IsClose ctx = let (ctx', e, same) = keeps ctx in (ctx', e, same.hash, same.file)

  pub CloseKeeps-count : (ctx : Context) → Ends (λ ctx'. ctx'.loop_cnt ≡ ctx.loop_cnt) (close ctx)
  CloseKeeps-count ctx = let (ctx', e, same) = keeps ctx in rw e same.loop

  pub CloseKeeps-Shares : (ctx : Context) → Ends (Shares ctx) (close ctx)
  CloseKeeps-Shares ctx = let (ctx', e, same) = keeps ctx in rw e (same.file, same.hash)

  pub CloseKeeps-Charged :
      (rows : List Summary) (rtts recv send : ℕ) (ctx : Context)
      → Charged rows rtts recv send ctx
      → Ends (Charged rows rtts recv send) (close ctx)
  CloseKeeps-Charged rows rtts recv send ctx c =
      let (ctx', e, same) = keeps ctx in
      rw e (record {
        file = same.file ∙ c.file;
        kept = same.rows ∙ c.kept;
        rtt_cnt = ap length same.trips ∙ c.rtt_cnt;
        recv_sum = same.recv ∙ c.recv_sum;
        send_sum = same.sent ∙ c.send_sum;
      })

abbrev pub all_left : Config → List Slot → ℕ
all_left config [] = 0
all_left config (s ∷ slots) = remaining config s.client_ctx + all_left config slots

module _ (lib : ClientLib) (config : Config) (payload : List ℕ) where
  -- A client that is not connected holds the message; one that is expects the rest of its echo.
  abbrev pub Good : Context → ClientCtx → Status → Type 0
  Good ctx c fresh = Takes lib config payload ctx c
  Good ctx c (receiving received) =
      Expects lib config payload received (record { ctx = ctx; client_ctx = c })

  abbrev pub AllGood : Context → List Slot → Type 0
  AllGood ctx [] = Unit {0}
  AllGood ctx (s ∷ slots) =
      Good ctx s.client_ctx s.status × IsLive config s.client_ctx × AllGood ctx slots

  abbrev pub Hashed : Context → Type 0
  Hashed ctx = ctx.data_hash ≡ hash_arr lib.rotate_r payload

  pub Good-in :
      (ctx ctx' : Context) (c : ClientCtx) (s : Status)
      → Hashed ctx'
      → ctx'.out_fp ≢ closed_file
      → Good ctx c s
      → Good ctx' c s
  Good-in ctx ctx' c fresh h u g = record {
    buffer = g.buffer;
    hash = h;
    file = u;
    frames = g.frames;
  }
  Good-in ctx ctx' c (receiving received) h u g = record {
    buffer = g.buffer;
    hash = h;
    file = u;
    frames = g.frames;
  }

  pub AllGood-in :
      (ctx ctx' : Context) (slots : List Slot)
      → Hashed ctx'
      → ctx'.out_fp ≢ closed_file
      → AllGood ctx slots
      → AllGood ctx' slots
  AllGood-in ctx ctx' [] h u g = tt
  AllGood-in ctx ctx' (s ∷ slots) h u g =
      (Good-in ctx ctx' s.client_ctx s.status h u g.0, g.1, AllGood-in ctx ctx' slots h u g.2)

  AllGood-none : (ctx : Context) (slots : List Slot) → length slots ≡ 0 → AllGood ctx slots
  AllGood-none ctx [] e = tt
  AllGood-none ctx (s ∷ slots) e = absurd (omega arith)

  -- A loop after an event, where `others` more clients share its context.
  pub record Settled (others n : ℕ) (l : Loop) : Type 0 where
    pub shared : 0 < others → Hashed l.ctx × (l.ctx.out_fp ≢ closed_file)
    pub good : AllGood l.ctx l.slots
    pub left : l.ctx.loop_cnt + all_left config l.slots ≡ n

  pub settle-Settled :
      (env : Env) (others n : ℕ) (received : List ℕ) (ctx : Context) (slots : List Slot)
      (action : Action)
      → Hashed ctx
      → ctx.out_fp ≢ closed_file
      → AllGood ctx slots
      → env.socket_count ≡ others + length slots
      → IsGood lib config payload received action
      → Leaves lib config n action
      → SharesClosed env ctx action
      → Settled others (n + all_left config slots) (settle (receiving received) slots action)
  unfolding settle
  settle-Settled env others n received ctx slots (goes_on f) h u all count good leaves shares =
      record {
        shared = λ _. (good.hash, good.file);
        good = (good, leaves.0, AllGood-in ctx f.ctx slots good.hash good.file all);
        left = omega (arith, leaves.1);
      }
  settle-Settled env others n received ctx slots (reborn ctx' c) h u all count good leaves shares =
      record {
        shared = λ _. (good.hash, good.file);
        good = (good, leaves.0, AllGood-in ctx ctx' slots good.hash good.file all);
        left = omega (arith, leaves.1);
      }
  settle-Settled env others n received ctx slots (closed ctx') h u all count good leaves shares =
      elim (Bool-cases (env.socket_count == 0)) [
        | inl z ↦ record {
          shared = λ some. absurd (ground arith);
          good = AllGood-none ctx' slots (ground arith);
          left = omega (arith, leaves);
        }
        | inr z ↦
            let same = shares (λ none. ground arith) in
            record {
              shared = λ _. (same.1 ∙ h, rw same.0 u);
              good = AllGood-in ctx ctx' slots (same.1 ∙ h) (rw same.0 u) all;
              left = omega (arith, leaves);
            }
      ]
  settle-Settled env others n received ctx slots (ended ctx') h u all count good leaves shares =
      absurd leaves
