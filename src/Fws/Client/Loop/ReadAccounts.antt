-- ===== src/Fws/Client/Loop/ReadAccounts.antt =====
-- A part that the first flashws client reads keeps the accounts of the loop.
use mathlib.Core.Path.{subst}
use native.Mathlib.Nat.{add-zero}
use ws_benchmark.Prelude.{
  ℕ, zero, suc, ◌+◌, ◌*◌, ◌^◌, ◌≤◌, ◌<◌, ◌≡◌, refl, ap, sym, ◌∙◌, true, false, List, [], ◌∷◌, ◌++◌,
  length, arith, Bool-cases, inl, inr, inc64, length-append, if_true, if_false,
}
use ws_benchmark.Fws.{Outcome, done, Ends}
use ws_benchmark.Fws.Client.{Config, ClientCtx, Context, Env, Part, Action, ClientLib, Summary}
use ws_benchmark.Fws.Client
use ws_benchmark.Fws.Client.Callbacks.Balance.{Leaves, remaining}
use ws_benchmark.Fws.Client.Callbacks.{write_first_msg}
use ws_benchmark.Fws.Client.Callbacks.Charges.{Charged, recount, ChargedBy, StaysBy}
use ws_benchmark.Fws.Client.Callbacks.ReadCharges.{on_read-end, on_read-more, on_read-control}
use ws_benchmark.Fws.Client.Callbacks.Counter.{Counts, on_read-Counts}
use ws_benchmark.Fws.Client.Callbacks.Echo.{IsFine, IsEcho, received_after}
use ws_benchmark.Fws.Client.Callbacks.Progress.{on_read-progress}
use ws_benchmark.Fws.Client.Loop.{
  Status, receiving, Slot, Loop, reads, settle, handle, step, status_after,
}
use ws_benchmark.Fws.Client.Loop.Accounts.{
  Accounts, settle-Accounts, stays-Accounts, all_received, all_open,
}
use ws_benchmark.Fws.Client.Loop.Slots.{
  CloseKeeps, CloseKeeps-IsClose, CloseKeeps-count, CloseKeeps-Charged, all_left, AllGood,
}

received_after-control :
    (p : Part) (received : List ℕ) → p.is_control_msg ≡ true → received_after p received ≡ received
unfolding received_after
received_after-control p received c = if_true _ _ c

received_after-more :
    (p : Part) (received : List ℕ)
    → p.is_control_msg ≡ false
    → p.is_msg_end ≡ false
    → received_after p received ≡ received ++ p.payload
unfolding received_after
received_after-more p received c e = if_false _ _ c ∙ if_false _ _ e

received_after-end :
    (p : Part) (received : List ℕ)
    → p.is_control_msg ≡ false
    → p.is_msg_end ≡ true
    → received_after p received ≡ []
unfolding received_after
received_after-end p received c e = if_false _ _ c ∙ if_true _ _ e

module _ (lib : ClientLib) (config : Config) (payload : List ℕ) (close : Context → Outcome Context)
    (keeps : CloseKeeps close) (full : length payload ≡ config.max_data_len)
    (total : config.total_msg_cnt < 2 ^ 64) (limit : config.msg_limit_per_client < 2 ^ 64) where
  module _ (bytes open_cnt others : ℕ) (ctx : Context) (c : ClientCtx) (slots : List Slot) where
    abbrev pub first : Status → Loop
    first st = record { ctx = ctx; slots = record { client_ctx = c; status = st } ∷ slots }

    abbrev Keeps : Outcome Loop → Type 0
    Keeps = Ends (Accounts config bytes open_cnt others)

    module _ (env : Env) (p : Part) (received : List ℕ) (fine : IsFine env)
        (echo : IsEcho payload received p)
        (count : env.socket_count + 1 ≡ others + suc (length slots))
        (good : AllGood lib config payload ctx (first (receiving received)).slots)
        (fits : ctx.loop_cnt + all_left config (first (receiving received)).slots
          ≤ config.total_msg_cnt)
        (accounts : Accounts config bytes open_cnt others (first (receiving received))) where
      counts_now :
          Charged [] ctx.loop_cnt
            (ctx.loop_cnt * config.max_data_len + (bytes + (length received + all_received slots)))
            ((ctx.loop_cnt + (open_cnt + (1 + all_open slots))) * config.max_data_len)
            ctx
      counts_now = accounts.counts (omega arith)

      module _ (action : Action)
          (runs : Client.Callbacks.on_read lib config close env p
              (record { ctx = ctx; client_ctx = c })
            ≡ done action)
          (leaves : Leaves lib config (ctx.loop_cnt + remaining config c) action) where
        keeps_counts :
            (rows : List Summary) (rtts recv send : ℕ) (x : Context)
            → Charged rows rtts recv send x
            → Ends (Charged rows rtts recv send) (close x)
        keeps_counts = CloseKeeps-Charged close keeps

        abbrev got_before : ℕ
        got_before =
            ctx.loop_cnt * config.max_data_len + (bytes + (length received + all_received slots))

        abbrev sent_before : ℕ
        sent_before = (ctx.loop_cnt + (open_cnt + (1 + all_open slots))) * config.max_data_len

        no_wrap : inc64 ctx.loop_cnt ≡ ctx.loop_cnt + 1
        unfolding remaining
        no_wrap = ground (arith, fits, good.1.waits, total)

        control-Accounts :
            p.is_control_msg ≡ true
            → Accounts config bytes open_cnt others
                (settle (receiving (received_after p received)) slots action)
        control-Accounts k =
            stays-Accounts lib config bytes open_cnt others slots ctx.loop_cnt (length received) 0
              (receiving (received_after p received)) action
              (ap length (received_after-control p received k) ∙ omega arith) refl
              (subst (Ends (StaysBy lib config [] ctx.loop_cnt _ _ ctx.loop_cnt)) runs (
                on_read-control lib config close keeps_counts env p [] ctx.loop_cnt _ _
                  (record { ctx = ctx; client_ctx = c }) k
                  (recount counts_now refl (sym (add-zero _)) refl)))

        more-Accounts :
            p.is_control_msg ≡ false
            → p.is_msg_end ≡ false
            → Accounts config bytes open_cnt others
                (settle (receiving (received_after p received)) slots action)
        more-Accounts k e =
            stays-Accounts lib config bytes open_cnt others slots ctx.loop_cnt (length received)
              (length p.payload) (receiving (received_after p received)) action
              (ap length (received_after-more p received k e) ∙ length-append received p.payload)
              refl
              (subst (Ends (StaysBy lib config [] ctx.loop_cnt _ _ ctx.loop_cnt)) runs (
                on_read-more lib config close keeps_counts env p [] ctx.loop_cnt _ _
                  (record { ctx = ctx; client_ctx = c }) k e counts_now))

        end-Accounts :
            p.is_control_msg ≡ false
            → p.is_msg_end ≡ true
            → Accounts config bytes open_cnt others
                (settle (receiving (received_after p received)) slots action)
        end-Accounts k e = rw (received_after-end p received k e) (
            settle-Accounts lib config bytes open_cnt others slots ctx.loop_cnt env
              (length received) (length p.payload) (ctx.loop_cnt + remaining config c) action
              (omega
                (arith, sym (length-append received p.payload), ap length (echo.whole k e), full))
              (omega (arith, count)) leaves
              (subst (Ends (Counts lib config (inc64 ctx.loop_cnt))) runs (
                  on_read-Counts lib config close (CloseKeeps-count close keeps) env p
                    (record { ctx = ctx; client_ctx = c }) k e)
                ∙ no_wrap)
              (subst
                (λ sent.
                  ChargedBy lib config env [] (ctx.loop_cnt + 1) (got_before + length p.payload)
                    sent_before sent action)
                (ap (λ n. n + length p.payload) good.0.buffer.sized)
                (subst
                  (Ends (
                    ChargedBy lib config env [] (ctx.loop_cnt + 1) _ _
                      (c.temp_buf.size + length p.payload)))
                  runs
                  (on_read-end lib config close keeps_counts env p [] ctx.loop_cnt _ _
                    (record { ctx = ctx; client_ctx = c }) k e counts_now))))

      pub reads-Accounts :
          Keeps
            (step lib config (λ _. close) zero (reads env p) ctx (first (receiving received)).slots)
      unfolding step handle status_after
      reads-Accounts =
          let (action, runs, is_good, leaves) =
            on_read-progress lib config payload close env p received
              (record { ctx = ctx; client_ctx = c }) (CloseKeeps-IsClose close keeps)
              (CloseKeeps-count close keeps) full fine echo good.0 good.1 (omega (arith, fits))
              total limit in
          rw runs (elim (Bool-cases p.is_control_msg) [
            | inl k ↦ control-Accounts action runs leaves k
            | inr k ↦ elim (Bool-cases p.is_msg_end) [
              | inl e ↦ end-Accounts action runs leaves k e
              | inr e ↦ more-Accounts action runs leaves k e
            ]
          ])
