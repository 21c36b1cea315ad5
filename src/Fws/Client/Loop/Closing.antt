-- ===== src/Fws/Client/Loop/Closing.antt =====
-- One event of the flashws client's loop, in which `Close` calls `OnClose` at once, is one in which
-- `OnClose` does nothing and the socket that closes is not counted.
use mathlib.Core.Path.{subst}
use ws_benchmark.Prelude.{
  ℕ, zero, suc, ◌+◌, ◌^◌, ◌≤◌, ◌<◌, ◌≡◌, refl, ap, List, [], ◌∷◌, length, arith, Bool-cases, inl,
  inr, ◌==◌,
}
use ws_benchmark.Fws.{done, ◌>>=◌}
use ws_benchmark.Fws.Client.{Config, ClientCtx, Context, ClientLib, on_close}
use ws_benchmark.Fws.Client.Callbacks.Balance.{remaining}
use ws_benchmark.Fws.Client.Callbacks.Closing.{uncounted, on_read-closes}
use ws_benchmark.Fws.Client.Loop.{
  Event, opens, closes, reads, Status, receiving, fresh, Slot, settle, status_after, handle, step,
}
use ws_benchmark.Fws.Client.Loop.Slots.{all_left, AllGood}
use ws_benchmark.Fws.Client.Loop.Steps.{Allowed, AllowedAt}

unfoldable pub before_close : Event → Event
before_close (opens env) = opens env
before_close (closes env) = closes env
before_close (reads env p) = reads (uncounted env) p

Allowed-before_close :
    (payload : List ℕ) (n : ℕ) (e : Event) (s : Status)
    → 0 < n
    → Allowed payload (suc n) e s
    → Allowed payload n (before_close e) s
unfolding before_close
Allowed-before_close payload n (opens env) fresh some a = a
Allowed-before_close payload n (opens env) (receiving received) some a = a
Allowed-before_close payload n (closes env) s some a = a
Allowed-before_close payload n (reads env p) fresh some a = a
Allowed-before_close payload n (reads env p) (receiving received) some a = (
  record { writes = a.0.writes; connects = a.0.connects; adds = a.0.adds },
  a.1,
  omega (arith, a.2, some),
)

pub AllowedAt-before_close :
    (payload : List ℕ) (n i : ℕ) (e : Event) (slots : List Slot)
    → length slots ≤ n
    → AllowedAt payload (suc n) i e slots
    → AllowedAt payload n i (before_close e) slots
AllowedAt-before_close payload n i e [] h a = tt
AllowedAt-before_close payload n zero e (s ∷ slots) h a =
    Allowed-before_close payload n e s.status (omega (arith, h)) a
AllowedAt-before_close payload n (suc i) e (s ∷ slots) h a =
    AllowedAt-before_close payload n i e slots (omega (arith, h)) a

module _ (lib : ClientLib) (config : Config) (payload : List ℕ) where
  all_left-none : (slots : List Slot) → length slots ≡ 0 → all_left config slots ≡ 0
  all_left-none [] e = refl
  all_left-none (s ∷ slots) e = absurd (omega arith)

  all_left-some :
      (ctx : Context) (slots : List Slot)
      → AllGood lib config payload ctx slots
      → 0 < length slots
      → 0 < all_left config slots
  unfolding remaining
  all_left-some ctx [] g some = absurd (omega arith)
  all_left-some ctx (s ∷ slots) g some = omega (arith, g.1.waits)

  module _ (total : config.total_msg_cnt < 2 ^ 64) (limit : config.msg_limit_per_client < 2 ^ 64)
      (ctx : Context) where
    first-closes :
        (e : Event) (others left : ℕ) (c : ClientCtx) (status : Status) (slots : List Slot)
        → Allowed payload (suc (others + suc (length slots))) e status
        → AllGood lib config payload ctx (record { client_ctx = c; status = status } ∷ slots)
        → ctx.loop_cnt + (left + (remaining config c + all_left config slots))
          ≡ config.total_msg_cnt
        → (others ≡ 0 → left ≡ 0)
        → (0 < others → 0 < left)
        → step lib config
            (on_close config)
            zero
            e
            ctx
            (record { client_ctx = c; status = status } ∷ slots)
          ≡ step lib config
              (λ _ ctx'. done ctx')
              zero
              (before_close e)
              ctx
              (record { client_ctx = c; status = status } ∷ slots)
    unfolding step handle status_after before_close
    first-closes (opens env) others left c status slots a g sum none some = refl
    first-closes (closes env) others left c status slots a g sum none some = absurd a
    first-closes (reads env p) others left c fresh slots a g sum none some = absurd a
    first-closes (reads env p) others left c (receiving received) slots a g sum none some =
        ap
          (λ r. r >>= λ action.
            done (settle (status_after (reads env p) (receiving received)) slots action))
          (on_read-closes lib config env (left + all_left config slots)
            (record {
              counted = omega (arith, a.2);
              alone = λ one.
                  let no_others = none (omega (arith, a.2, one)) in
                  let no_slots = all_left-none slots (omega (arith, a.2, one)) in
                  omega (arith, no_others, no_slots);
              together = λ more. elim (Bool-cases (others == 0)) [
                | inl z ↦
                    let left_some = all_left-some ctx slots g.2 (ground (arith, a.2)) in
                    omega (arith, left_some)
                | inr z ↦ let left_some = some (ground arith) in omega (arith, left_some)
              ];
            })
            total limit p (record { ctx = ctx; client_ctx = c }) g.1 (omega (arith, sum)))

    -- `others` more clients, which wait for `left` echoes, share the context.
    pub step-closes :
        (i : ℕ) (e : Event) (others left : ℕ) (slots : List Slot)
        → AllowedAt payload (suc (others + length slots)) i e slots
        → AllGood lib config payload ctx slots
        → ctx.loop_cnt + (left + all_left config slots) ≡ config.total_msg_cnt
        → (others ≡ 0 → left ≡ 0)
        → (0 < others → 0 < left)
        → step lib config (on_close config) i e ctx slots
          ≡ step lib config (λ _ ctx'. done ctx') i (before_close e) ctx slots
    unfolding step remaining
    step-closes i e others left [] a g sum none some = refl
    step-closes zero e others left (s ∷ slots) a g sum none some =
        first-closes e others left s.client_ctx s.status slots a g sum none some
    step-closes (suc i) e others left (s ∷ slots) a g sum none some =
        ap (λ r. r >>= λ l. done (record { ctx = l.ctx; slots = s ∷ l.slots }))
          (step-closes i e (suc others) (left + remaining config s.client_ctx) slots
            (subst (λ n. AllowedAt payload n i e slots) (omega arith) a) g.2 (omega (arith, sum))
            (λ impossible. absurd (omega (arith, impossible))) (λ _. omega (arith, g.1.waits)))
