-- ===== src/Fws/Client/Loop/Accounts.antt =====
-- The flashws clients' counts against their loop: each echo is a round trip, and its bytes came and
-- went once.
use native.Mathlib.Nat.{suc-mul}
use ws_benchmark.Prelude.{
  ℕ, suc, ◌+◌, ◌*◌, ◌<◌, ◌≡◌, refl, ap, sym, ◌∙◌, List, [], ◌∷◌, length, arith,
}
use ws_benchmark.Fws.Client.{
  Config, ClientCtx, Context, Env, Part, Action, goes_on, reborn, closed, ended, ClientLib,
}
use ws_benchmark.Fws.Client
use ws_benchmark.Fws.Client.Callbacks.Balance.{Leaves}
use ws_benchmark.Fws.Client.Callbacks.Charges.{
  Charged, Reported, recount, recount_row, ChargedBy, StaysBy,
}
use ws_benchmark.Fws.Client.Callbacks.Counter.{ctx_of}
use ws_benchmark.Fws.Client.Loop.{Status, fresh, receiving, Slot, Loop, settle}

abbrev pub received_of : Status → ℕ
received_of fresh = 0
received_of (receiving received) = length received

abbrev pub open_of : Status → ℕ
open_of fresh = 0
open_of (receiving received) = 1

-- The bytes of echoes that are not whole, and the clients whose message is under way.
abbrev pub all_received : List Slot → ℕ
all_received [] = 0
all_received (s ∷ slots) = received_of s.status + all_received slots

abbrev pub all_open : List Slot → ℕ
all_open [] = 0
all_open (s ∷ slots) = open_of s.status + all_open slots

all_received-none : (slots : List Slot) → length slots ≡ 0 → all_received slots ≡ 0
all_received-none [] e = refl
all_received-none (s ∷ slots) e = absurd (omega arith)

all_open-none : (slots : List Slot) → length slots ≡ 0 → all_open slots ≡ 0
all_open-none [] e = refl
all_open-none (s ∷ slots) e = absurd (omega arith)

module _ (config : Config) where
  -- While a client is left the file is open and empty, each whole echo has been one round trip of as
  -- many bytes as the message in each direction, and each message under way was sent; then the one
  -- row is written. `others` more clients share the context, of which `open` wait for an echo, and
  -- have received `bytes` of theirs.
  pub record Accounts (bytes open_cnt others : ℕ) (l : Loop) : Type 0 where
    pub counts :
        0 < others + length l.slots
        → Charged [] l.ctx.loop_cnt
            (l.ctx.loop_cnt * config.max_data_len + (bytes + all_received l.slots))
            ((l.ctx.loop_cnt + (open_cnt + all_open l.slots)) * config.max_data_len)
            l.ctx
    pub report :
        others + length l.slots ≡ 0
        → Reported config [] l.ctx.loop_cnt
            (l.ctx.loop_cnt * config.max_data_len + bytes)
            ((l.ctx.loop_cnt + open_cnt) * config.max_data_len)
            l.ctx

  module _ (bytes open_cnt others : ℕ) (s : Slot) where
    pub Accounts-push :
        (ctx : Context) (slots : List Slot)
        → Accounts bytes open_cnt others (record { ctx = ctx; slots = s ∷ slots })
        → Accounts
            (bytes + received_of s.status)
            (open_cnt + open_of s.status)
            (suc others)
            (record { ctx = ctx; slots = slots })
    Accounts-push ctx slots a = record {
      counts = λ some.
          recount (a.counts (omega arith)) refl (omega arith)
            (ap (λ n. n * config.max_data_len) (omega arith));
      report = λ none. absurd (omega arith);
    }

    pub Accounts-pop :
        (l : Loop)
        → Accounts (bytes + received_of s.status) (open_cnt + open_of s.status) (suc others) l
        → Accounts bytes open_cnt others (record { ctx = l.ctx; slots = s ∷ l.slots })
    Accounts-pop l a = record {
      counts = λ some.
          recount (a.counts (omega arith)) refl (omega arith)
            (ap (λ n. n * config.max_data_len) (omega arith));
      report = λ none. absurd (omega arith);
    }

  one_more :
      (a b : ℕ)
      → b ≡ a + 1
      → b * config.max_data_len ≡ a * config.max_data_len + config.max_data_len
  one_more a b e =
      ap (λ n. n * config.max_data_len) (e ∙ omega arith)
      ∙ suc-mul a config.max_data_len
      ∙ omega arith

module _ (lib : ClientLib) (config : Config) (bytes open_cnt others : ℕ) (slots : List Slot)
    (loop_cnt : ℕ) where
  -- The last part of an echo, of which `got` came before.
  pub settle-Accounts :
      (env : Env) (got part n : ℕ) (action : Action)
      → got + part ≡ config.max_data_len
      → env.socket_count ≡ others + length slots
      → Leaves lib config n action
      → (ctx_of action).loop_cnt ≡ loop_cnt + 1
      → ChargedBy lib config env []
          (loop_cnt + 1)
          (loop_cnt * config.max_data_len + (bytes + (got + all_received slots)) + part)
          ((loop_cnt + (open_cnt + (1 + all_open slots))) * config.max_data_len)
          (got + part)
          action
      → Accounts config bytes open_cnt others (settle (receiving []) slots action)
  unfolding settle
  settle-Accounts env got part n (goes_on f) whole count leaves counted charged = record {
    counts = λ some.
        recount charged (sym counted)
          (omega (arith, whole, one_more config loop_cnt f.ctx.loop_cnt counted))
          (omega (
            arith,
            whole,
            one_more config (loop_cnt + (open_cnt + (1 + all_open slots)))
                (f.ctx.loop_cnt + (open_cnt + (1 + all_open slots))) (omega (arith, counted)),
          ));
    report = λ none. absurd (omega arith);
  }
  settle-Accounts env got part n (reborn ctx c) whole count leaves counted charged = record {
    counts = λ some.
        recount charged (sym counted)
          (omega (arith, whole, one_more config loop_cnt ctx.loop_cnt counted))
          (ap (λ n. n * config.max_data_len) (omega (arith, counted)));
    report = λ none. absurd (omega arith);
  }
  settle-Accounts env got part n (closed ctx) whole count leaves counted charged = record {
    counts = λ some.
        recount (charged.0 (ground arith)) (sym counted)
          (omega (arith, whole, one_more config loop_cnt ctx.loop_cnt counted))
          (ap (λ n. n * config.max_data_len) (omega (arith, counted)));
    report = λ no_more.
        recount_row (charged.1 (ground arith)) (sym counted)
          (omega (
            arith,
            whole,
            one_more config loop_cnt ctx.loop_cnt counted,
            all_received-none slots (omega (arith, no_more)),
          ))
          (ap (λ n. n * config.max_data_len)
            (omega (arith, counted, all_open-none slots (omega (arith, no_more)))));
  }
  settle-Accounts env got part n (ended ctx) whole count leaves counted charged = absurd leaves

  -- A part that does not end an echo.
  pub stays-Accounts :
      (got part : ℕ) (st : Status) (action : Action)
      → received_of st ≡ got + part
      → open_of st ≡ 1
      → StaysBy lib config [] loop_cnt
          (loop_cnt * config.max_data_len + (bytes + (got + all_received slots)) + part)
          ((loop_cnt + (open_cnt + (1 + all_open slots))) * config.max_data_len)
          loop_cnt
          action
      → Accounts config bytes open_cnt others (settle st slots action)
  unfolding settle
  stays-Accounts got part st (goes_on f) now is_open charged = record {
    counts = λ some.
        recount charged.0 (sym charged.1)
          (ap (λ n. n * config.max_data_len + (bytes + (got + all_received slots)) + part)
              (sym charged.1)
            ∙ omega (arith, now))
          (ap (λ n. n * config.max_data_len) (omega (arith, charged.1, is_open)));
    report = λ none. absurd (omega arith);
  }
  stays-Accounts got part st (reborn ctx c) now is_open charged = absurd charged
  stays-Accounts got part st (closed ctx) now is_open charged = absurd charged
  stays-Accounts got part st (ended ctx) now is_open charged = absurd charged

  -- The first client's message is under way.
  pub opens-Accounts :
      (f : Client.Frame)
      → f.ctx.loop_cnt ≡ loop_cnt
      → Charged [] loop_cnt
          (loop_cnt * config.max_data_len + (bytes + (0 + all_received slots)))
          ((loop_cnt + (open_cnt + (0 + all_open slots))) * config.max_data_len
            + config.max_data_len)
          f.ctx
      → Accounts config bytes open_cnt others (settle (receiving []) slots (goes_on f))
  unfolding settle
  opens-Accounts f counted charged = record {
    counts = λ some.
        recount charged (sym counted)
          (ap (λ n. n * config.max_data_len + (bytes + (0 + all_received slots))) (sym counted))
          (sym (
            one_more config (loop_cnt + (open_cnt + (0 + all_open slots)))
              (f.ctx.loop_cnt + (open_cnt + (1 + all_open slots))) (omega (arith, counted))));
    report = λ none. absurd (omega arith);
  }
