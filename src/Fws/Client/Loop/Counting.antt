-- ===== src/Fws/Client/Loop/Counting.antt =====
-- Each event of the flashws client's loop keeps its accounts.
use mathlib.Core.Path.{subst}
use ws_benchmark.Prelude.{
  ℕ, zero, suc, ◌+◌, ◌*◌, ◌^◌, ◌≤◌, ◌<◌, ◌≡◌, refl, true, List, [], ◌∷◌, length, arith,
}
use ws_benchmark.Fws.{Outcome, Ends, Ends-bind}
use ws_benchmark.Fws.Client.{Config, ClientCtx, Context, Env, Part, Action, ClientLib, Summary}
use ws_benchmark.Fws.Client
use ws_benchmark.Fws.Client.Callbacks.Balance.{Kept, remaining, write_first_msg-Kept}
use ws_benchmark.Fws.Client.Callbacks.Charges.{Charged, recount, write_first_msg-Charged}
use ws_benchmark.Fws.Client.Callbacks.Runs.{write_first_msg-Sends}
use ws_benchmark.Fws.Client.Loop.{
  Status, fresh, receiving, Slot, Loop, Event, opens, closes, reads, handle, step, status_after,
}
use ws_benchmark.Fws.Client.Loop.Accounts.{
  Accounts, Accounts-push, Accounts-pop, opens-Accounts, all_received, all_open, received_of,
  open_of,
}
use ws_benchmark.Fws.Client.Loop.Slots.{CloseKeeps, CloseKeeps-IsClose, all_left, AllGood}
use ws_benchmark.Fws.Client.Loop.Steps.{Allowed, AllowedAt}
use ws_benchmark.Fws.Client.Loop.ReadAccounts.{reads-Accounts}

module _ (lib : ClientLib) (config : Config) (payload : List ℕ) (close : Context → Outcome Context)
    (keeps : CloseKeeps close) (full : length payload ≡ config.max_data_len)
    (total : config.total_msg_cnt < 2 ^ 64) (limit : config.msg_limit_per_client < 2 ^ 64) where
  module _ (bytes open_cnt others : ℕ) (ctx : Context) (c : ClientCtx) (slots : List Slot) where
    abbrev first : Status → Loop
    first st = record { ctx = ctx; slots = record { client_ctx = c; status = st } ∷ slots }

    opens-Keeps :
        (env : Env)
        → env.write_ok ≡ true
        → AllGood lib config payload ctx (first fresh).slots
        → Accounts config bytes open_cnt others (first fresh)
        → Ends
            (Accounts config bytes open_cnt others)
            (step lib config (λ _. close) zero (opens env) ctx (first fresh).slots)
    unfolding step handle status_after
    opens-Keeps env w good accounts =
        let f : Client.Frame = record { ctx = ctx; client_ctx = c } in
        let sent =
          write_first_msg-Sends lib config payload close (CloseKeeps-IsClose close keeps) full env
            ctx c w good.0 in
        let kept : Kept lib config f sent.after =
          subst (Ends (Kept lib config f)) sent.runs (write_first_msg-Kept lib config env f) in
        let charged =
          subst
            (Ends (λ g.
              Charged [] ctx.loop_cnt
                (ctx.loop_cnt * config.max_data_len + (bytes + (0 + all_received slots)))
                ((ctx.loop_cnt + (open_cnt + (0 + all_open slots))) * config.max_data_len
                  + c.temp_buf.size)
                g.ctx))
            sent.runs
            (write_first_msg-Charged lib config env [] ctx.loop_cnt _ _ f
              (accounts.counts (omega arith))) in
        rw sent.runs (
          opens-Accounts lib config bytes open_cnt others slots ctx.loop_cnt sent.after
            kept.loop_kept (recount charged refl refl (omega (arith, good.0.buffer.sized, full))))

  first-Accounts :
      (bytes open_cnt others : ℕ) (e : Event) (ctx : Context) (c : ClientCtx) (st : Status)
      (slots : List Slot)
      → Allowed payload (others + suc (length slots)) e st
      → AllGood lib config payload ctx (record { client_ctx = c; status = st } ∷ slots)
      → ctx.loop_cnt + (remaining config c + all_left config slots) ≤ config.total_msg_cnt
      → Accounts config bytes open_cnt others
          (record { ctx = ctx; slots = record { client_ctx = c; status = st } ∷ slots })
      → Ends
          (Accounts config bytes open_cnt others)
          (step lib config (λ _. close) zero e ctx (record { client_ctx = c; status = st } ∷ slots))
  first-Accounts bytes open_cnt others (opens env) ctx c fresh slots a g fits accounts =
      opens-Keeps bytes open_cnt others ctx c slots env a g accounts
  first-Accounts bytes open_cnt others (opens env) ctx c (receiving got) slots a g fits accounts =
      absurd a
  first-Accounts bytes open_cnt others (closes env) ctx c st slots a g fits accounts = absurd a
  first-Accounts bytes open_cnt others (reads env p) ctx c fresh slots a g fits accounts = absurd a
  first-Accounts bytes open_cnt others (reads env p) ctx c (receiving got) slots a g fits accounts =
      reads-Accounts lib config payload close keeps full total limit bytes open_cnt others ctx c
        slots env p got a.0 a.1 a.2 g fits accounts

  pub step-Accounts :
      (bytes open_cnt others i : ℕ) (e : Event) (ctx : Context) (slots : List Slot)
      → AllowedAt payload (others + length slots) i e slots
      → AllGood lib config payload ctx slots
      → ctx.loop_cnt + all_left config slots ≤ config.total_msg_cnt
      → Accounts config bytes open_cnt others (record { ctx = ctx; slots = slots })
      → Ends (Accounts config bytes open_cnt others) (step lib config (λ _. close) i e ctx slots)
  unfolding step
  step-Accounts bytes open_cnt others i e ctx [] a g fits accounts = accounts
  step-Accounts bytes open_cnt others zero e ctx (s ∷ slots) a g fits accounts =
      first-Accounts bytes open_cnt others e ctx s.client_ctx s.status slots a g fits accounts
  step-Accounts bytes open_cnt others (suc i) e ctx (s ∷ slots) a g fits accounts =
      Ends-bind _ _ (step lib config (λ _. close) i e ctx slots) _
        (step-Accounts (bytes + received_of s.status) (open_cnt + open_of s.status) (suc others) i e
          ctx slots (subst (λ n. AllowedAt payload n i e slots) (omega arith) a) g.2
          (omega (arith, fits)) (Accounts-push config bytes open_cnt others s ctx slots accounts))
        (λ l kept. Accounts-pop config bytes open_cnt others s l kept)
