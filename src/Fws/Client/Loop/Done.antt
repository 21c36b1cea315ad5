-- ===== src/Fws/Client/Loop/Done.antt =====
-- The whole run of the flashws client against a server that echoes.
use mathlib.Core.Path.{subst}
use ws_benchmark.Prelude.{ℕ, ◌+◌, ◌^◌, ◌<◌, ◌≡◌, ◌≢◌, refl, ◌∙◌, List, [], ◌∷◌, length, arith, suc}
use ws_benchmark.Fws.{Outcome, done, Ends}
use ws_benchmark.Fws.Client.{Config, ClientCtx, Context, ClientLib, closed_file, on_close}
use ws_benchmark.Fws.Client.Callbacks.Balance.{remaining}
use ws_benchmark.Fws.Client.Loop.{Status, fresh, receiving, Slot, Loop, Event, step, run}
use ws_benchmark.Fws.Client.Loop.Accounts.{Accounts}
use ws_benchmark.Fws.Client.Loop.Closing.{before_close, AllowedAt-before_close, step-closes}
use ws_benchmark.Fws.Client.Loop.Counting.{step-Accounts}
use ws_benchmark.Fws.Client.Loop.Slots.{CloseKeeps, all_left, Good, AllGood, Hashed}
use ws_benchmark.Fws.Client.Loop.Steps.{AllowedAt, step-Steps}
use mathlib.Core.Logic.{◌↔◌}

-- `OnClose` leaves all alone where it does nothing.
done-CloseKeeps : CloseKeeps (λ ctx. done ctx)
done-CloseKeeps ctx = (
  ctx,
  refl,
  record {
    hash = refl;
    file = refl;
    loop = refl;
    rows = refl;
    trips = refl;
    recv = refl;
    sent = refl;
  },
)

-- Each event is allowed where it comes. `Close` calls `OnClose` at once, and the socket that closes
-- is still counted after it: `socket_count` is the number of the clients before the event.
unfoldable pub AllAllowed :
    (lib : ClientLib) (config : Config) (payload : List ℕ) → List (ℕ × Event) → Loop → Type 0
AllAllowed lib config payload [] l = Unit {0}
AllAllowed lib config payload ((i, e) ∷ events) l =
    AllowedAt payload (suc (length l.slots)) i e l.slots
    × ((l' : Loop)
        → step lib config (on_close config) i e l.ctx l.slots ≡ done l'
        → AllAllowed lib config payload events l')

module _ (lib : ClientLib) (config : Config) (payload : List ℕ) where
  -- What the clients hold is good, and all echoes are accounted for.
  pub record Balanced (l : Loop) : Type 0 where
    pub good : AllGood lib config payload l.ctx l.slots
    pub left : l.ctx.loop_cnt + all_left config l.slots ≡ config.total_msg_cnt
    pub accounts : Accounts config 0 0 0 l

  pub record Finishes (r : Outcome Loop) : Type 0 where
    pub after : Loop
    pub runs : r ≡ done after
    pub balanced : Balanced after
    pub finished : (length after.slots ≡ 0) ↔ (after.ctx.loop_cnt ≡ config.total_msg_cnt)

  Good-shared :
      (ctx : Context) (c : ClientCtx) (s : Status)
      → Good lib config payload ctx c s
      → Hashed lib config payload ctx × (ctx.out_fp ≢ closed_file)
  Good-shared ctx c fresh g = (g.hash, g.file)
  Good-shared ctx c (receiving received) g = (g.hash, g.file)

  AllGood-shared :
      (ctx : Context) (slots : List Slot)
      → AllGood lib config payload ctx slots
      → 0 < length slots
      → Hashed lib config payload ctx × (ctx.out_fp ≢ closed_file)
  AllGood-shared ctx [] g some = absurd (omega arith)
  AllGood-shared ctx (s ∷ slots) g some = Good-shared ctx s.client_ctx s.status g.0

  pub finished_iff :
      (n : ℕ) (ctx : Context) (slots : List Slot)
      → AllGood lib config payload ctx slots
      → n + all_left config slots ≡ config.total_msg_cnt
      → (length slots ≡ 0) ↔ (n ≡ config.total_msg_cnt)
  unfolding remaining
  finished_iff n ctx [] g e = (λ _. omega (arith, e), λ _. refl)
  finished_iff n ctx (s ∷ slots) g e =
      (λ none. absurd (omega arith), λ all. absurd (omega (arith, e, all, g.1.waits)))

  module _ (full : length payload ≡ config.max_data_len) (total : config.total_msg_cnt < 2 ^ 64)
      (limit : config.msg_limit_per_client < 2 ^ 64) where
    pub record Balances (r : Outcome Loop) : Type 0 where
      pub after : Loop
      pub runs : r ≡ done after
      pub balanced : Balanced after

    pub step-Balanced :
        (i : ℕ) (e : Event) (l : Loop)
        → AllowedAt payload (suc (length l.slots)) i e l.slots
        → Balanced l
        → Balances (step lib config (on_close config) i e l.ctx l.slots)
    step-Balanced i e l a b =
        let closes =
          step-closes lib config payload total limit l.ctx i e 0 0 l.slots
            (subst (λ n. AllowedAt payload n i e l.slots) (omega arith) a) b.good
            (omega (arith, b.left)) (λ _. refl) (λ some. absurd (omega (arith, some))) in
        let allowed : AllowedAt payload (0 + length l.slots) i (before_close e) l.slots =
          AllowedAt-before_close payload (0 + length l.slots) i e l.slots (omega arith)
            (subst (λ n. AllowedAt payload n i e l.slots) (omega arith) a) in
        let one =
          step-Steps lib config payload (λ ctx. done ctx) done-CloseKeeps full total limit i
            (before_close e) 0 l.ctx l.slots
            (λ some. AllGood-shared l.ctx l.slots b.good (omega (arith, some))) allowed b.good
            (omega (arith, b.left)) in
        record {
          after = one.after;
          runs = closes ∙ one.runs;
          balanced = record {
            good = one.settled.good;
            left = one.settled.left ∙ b.left;
            accounts = subst (Ends (Accounts config 0 0 0)) one.runs (
                step-Accounts lib config payload (λ ctx. done ctx) done-CloseKeeps full total limit
                  0 0 0 i (before_close e) l.ctx l.slots allowed b.good (omega (arith, b.left))
                  b.accounts);
          };
        }

    -- Whatever order the clients' events come in, while each server echoes, the calls succeed, and
    -- `Close` calls `OnClose` at once and counts the socket that closes still: no callback aborts or
    -- writes out of a buffer; each client holds its message or the part of its echo that came, and has written its
    -- message only; the echoes that came and those that the clients and their successors still wait
    -- for are `TOTAL_MSG_CNT`; and no client is left exactly when all of them have come.
    pub run-Finishes :
        (events : List (ℕ × Event)) (l : Loop)
        → AllAllowed lib config payload events l
        → Balanced l
        → Finishes (run lib config (on_close config) events l)
    unfolding run AllAllowed
    run-Finishes [] l a b = record {
      after = l;
      runs = refl;
      balanced = b;
      finished = finished_iff l.ctx.loop_cnt l.ctx l.slots b.good b.left;
    }
    run-Finishes ((i, e) ∷ events) l a b =
        let one = step-Balanced i e l a.0 b in
        let more = run-Finishes events one.after (a.1 one.after one.runs) one.balanced in
        record {
          after = more.after;
          runs = rw one.runs more.runs;
          balanced = more.balanced;
          finished = more.finished;
        }
