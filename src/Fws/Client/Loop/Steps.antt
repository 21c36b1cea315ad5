-- ===== src/Fws/Client/Loop/Steps.antt =====
-- Events of the flashws client's loop on a server that echoes, in any order.
use mathlib.Core.Path.{subst}
use ws_benchmark.Prelude.{
  ℕ, zero, suc, ◌+◌, ◌^◌, ◌≤◌, ◌<◌, ◌≡◌, ◌≢◌, refl, ap, true, List, [], ◌∷◌, length, arith,
}
use ws_benchmark.Fws.{Outcome, done, Ends}
use ws_benchmark.Fws.Client.{Config, ClientCtx, Context, Env, Part, goes_on, ClientLib, closed_file}
use ws_benchmark.Fws.Client.Callbacks.Balance.{later, remaining, Kept, write_first_msg-Kept}
use ws_benchmark.Fws.Client.Callbacks.Echo.{IsFine, IsEcho, received_after}
use ws_benchmark.Fws.Client.Callbacks.Files.{SharesClosed, on_read-Shares}
use ws_benchmark.Fws.Client.Callbacks.Progress.{on_read-progress}
use ws_benchmark.Fws.Client.Callbacks.Runs.{write_first_msg-Sends}
use ws_benchmark.Fws.Client.Loop.{
  Status, fresh, receiving, Slot, Loop, Event, opens, closes, reads, settle, handle, step,
  status_after,
}
use ws_benchmark.Fws.Client.Loop.Slots.{
  CloseKeeps, CloseKeeps-IsClose, CloseKeeps-count, CloseKeeps-Shares, all_left, AllGood,
  AllGood-in, Good-in, Hashed, Settled, settle-Settled,
}

-- No connection is closed by the other side. A client that is not connected may open its connection, and one that is connected gets the next
-- part of its echo; `n` is one more than `socket_count`.
abbrev pub Allowed : List ℕ → ℕ → Event → Status → Type 0
Allowed payload n (opens env) fresh = env.write_ok ≡ true
Allowed payload n (opens env) (receiving received) = ⊥
Allowed payload n (closes env) s = ⊥
Allowed payload n (reads env p) fresh = ⊥
Allowed payload n (reads env p) (receiving received) =
    IsFine env × IsEcho payload received p × (env.socket_count + 1 ≡ n)

abbrev pub AllowedAt : List ℕ → ℕ → ℕ → Event → List Slot → Type 0
AllowedAt payload n i e [] = Unit {0}
AllowedAt payload n zero e (s ∷ slots) = Allowed payload n e s.status
AllowedAt payload n (suc i) e (s ∷ slots) = AllowedAt payload n i e slots

module _ (lib : ClientLib) (config : Config) (payload : List ℕ) (close : Context → Outcome Context)
    (keeps : CloseKeeps close) (full : length payload ≡ config.max_data_len)
    (total : config.total_msg_cnt < 2 ^ 64) (limit : config.msg_limit_per_client < 2 ^ 64) where
  pub record Steps (others n : ℕ) (r : Outcome Loop) : Type 0 where
    pub after : Loop
    pub runs : r ≡ done after
    pub settled : Settled lib config payload others n after

  opens-Steps :
      (env : Env) (others : ℕ) (ctx : Context) (c : ClientCtx) (slots : List Slot)
      → env.write_ok ≡ true
      → AllGood lib config payload ctx (record { client_ctx = c; status = fresh } ∷ slots)
      → Steps others (ctx.loop_cnt + (remaining config c + all_left config slots)) (
          step lib config
            (λ _. close)
            zero
            (opens env)
            ctx
            (record { client_ctx = c; status = fresh } ∷ slots))
  unfolding step handle status_after remaining settle
  opens-Steps env others ctx c slots w g =
      let sent =
        write_first_msg-Sends lib config payload close (CloseKeeps-IsClose close keeps) full env ctx
          c w g.0 in
      let kept : Kept lib config (record { ctx = ctx; client_ctx = c }) sent.after =
        subst (Ends (Kept lib config (record { ctx = ctx; client_ctx = c }))) sent.runs
          (write_first_msg-Kept lib config env (record { ctx = ctx; client_ctx = c })) in
      record {
        after = settle (receiving []) slots (goes_on sent.after);
        runs = rw sent.runs refl;
        settled = record {
          shared = λ _. (sent.good.hash, sent.good.file);
          good = (
            sent.good,
            record {
              waits = omega (arith, kept.msg_kept, g.1.waits);
              allowed = omega (arith, kept.reborn_kept, g.1.allowed);
            },
            AllGood-in lib config payload ctx sent.after.ctx slots sent.good.hash sent.good.file
                g.2,
          );
          left = omega (arith, kept.loop_kept, kept.msg_kept, ap (later config) kept.reborn_kept);
        };
      }

  reads-Steps :
      (env : Env) (p : Part) (received : List ℕ) (others : ℕ) (ctx : Context) (c : ClientCtx)
      (slots : List Slot)
      → IsFine env
      → IsEcho payload received p
      → env.socket_count + 1 ≡ others + suc (length slots)
      → AllGood lib config payload ctx
          (record { client_ctx = c; status = receiving received } ∷ slots)
      → ctx.loop_cnt + (remaining config c + all_left config slots) ≤ config.total_msg_cnt
      → Steps others (ctx.loop_cnt + (remaining config c + all_left config slots)) (
          step lib config
            (λ _. close)
            zero
            (reads env p)
            ctx
            (record { client_ctx = c; status = receiving received } ∷ slots))
  unfolding step handle status_after
  reads-Steps env p received others ctx c slots fine echo count g fits =
      let (action, runs, good, leaves) =
        on_read-progress lib config payload close env p received
          (record { ctx = ctx; client_ctx = c }) (CloseKeeps-IsClose close keeps)
          (CloseKeeps-count close keeps) full fine echo g.0 g.1 (omega (arith, fits)) total limit in
      let shares : SharesClosed env ctx action = subst (Ends (SharesClosed env ctx)) runs (
        on_read-Shares lib config close (CloseKeeps-Shares close keeps) env p
          (record { ctx = ctx; client_ctx = c })) in
      let settled =
        settle-Settled lib config payload env others (ctx.loop_cnt + remaining config c)
          (received_after p received) ctx slots action g.0.hash g.0.file g.2 (omega (arith, count))
          good leaves shares in
      record {
        after = settle (receiving (received_after p received)) slots action;
        runs = rw runs refl;
        settled = record {
          shared = settled.shared;
          good = settled.good;
          left = omega (arith, settled.left);
        };
      }

  first-Steps :
      (e : Event) (others : ℕ) (ctx : Context) (c : ClientCtx) (status : Status) (slots : List Slot)
      → Allowed payload (others + suc (length slots)) e status
      → AllGood lib config payload ctx (record { client_ctx = c; status = status } ∷ slots)
      → ctx.loop_cnt + (remaining config c + all_left config slots) ≤ config.total_msg_cnt
      → Steps others (ctx.loop_cnt + (remaining config c + all_left config slots)) (
          step lib config
            (λ _. close)
            zero
            e
            ctx
            (record { client_ctx = c; status = status } ∷ slots))
  first-Steps (opens env) others ctx c fresh slots a g fits = opens-Steps env others ctx c slots a g
  first-Steps (opens env) others ctx c (receiving received) slots a g fits = absurd a
  first-Steps (closes env) others ctx c status slots a g fits = absurd a
  first-Steps (reads env p) others ctx c fresh slots a g fits = absurd a
  first-Steps (reads env p) others ctx c (receiving received) slots a g fits =
      reads-Steps env p received others ctx c slots a.0 a.1 a.2 g fits

  pub step-Steps :
      (i : ℕ) (e : Event) (others : ℕ) (ctx : Context) (slots : List Slot)
      → (0 < others + length slots → Hashed lib config payload ctx × (ctx.out_fp ≢ closed_file))
      → AllowedAt payload (others + length slots) i e slots
      → AllGood lib config payload ctx slots
      → ctx.loop_cnt + all_left config slots ≤ config.total_msg_cnt
      → Steps others
          (ctx.loop_cnt + all_left config slots)
          (step lib config (λ _. close) i e ctx slots)
  unfolding step
  step-Steps i e others ctx [] shared a g fits = record {
    after = record { ctx = ctx; slots = [] };
    runs = refl;
    settled = record { shared = λ some. shared (omega (arith, some)); good = tt; left = refl };
  }
  step-Steps zero e others ctx (s ∷ slots) shared a g fits =
      first-Steps e others ctx s.client_ctx s.status slots a g fits
  step-Steps (suc i) e others ctx (s ∷ slots) shared a g fits =
      let rest =
        step-Steps i e (suc others) ctx slots (λ some. shared (omega arith))
          (subst (λ n. AllowedAt payload n i e slots) (omega arith) a) g.2 (omega (arith, fits)) in
      let (hashed, unclosed) = rest.settled.shared (omega arith) in
      record {
        after = record { ctx = rest.after.ctx; slots = s ∷ rest.after.slots };
        runs = rw rest.runs refl;
        settled = record {
          shared = λ _. (hashed, unclosed);
          good = (
            Good-in lib config payload ctx rest.after.ctx s.client_ctx s.status hashed unclosed g.0,
            g.1,
            rest.settled.good,
          );
          left = omega (arith, rest.settled.left);
        };
      }
