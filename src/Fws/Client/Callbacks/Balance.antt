-- ===== src/Fws/Client/Callbacks/Balance.antt =====
-- How many echoes the flashws client has to wait for: the counters of its callbacks.
use native.Mathlib.Nat.{suc-mul, zero-mul}
use ws_benchmark.Prelude.{
  ℕ, ◌+◌, ◌-◌, ◌*◌, ◌^◌, ◌≤◌, ◌<◌, ◌≡◌, refl, ap, ◌∙◌, true, arith, List, [], ◌∷◌, Bool-cases, inl,
  inr, if_true, if_false, inc64, sub64, ◌==◌, leb,
}
use ws_benchmark.Fws.{Outcome, Ends, Ends-bind, assert, append_bytes, IoBuffer}
use ws_benchmark.Fws.Client.{
  Config, ClientCtx, Context, Env, Part, Frame, Action, goes_on, reborn, closed, ended, ClientLib,
  end_client, on_close, write_row, not,
}
use ws_benchmark.Fws.Client.Callbacks.{
  write_message, write_first_msg, check_hash, after_close, retire, on_echo, on_data_part,
  on_control_part, on_read,
}

-- The echoes that the clients to come after this one wait for, then all that are left for it and
-- them.
unfoldable pub later : Config → ℕ → ℕ
later config reborn_cnt =
    (config.reborn_limit_for_client - reborn_cnt) * config.msg_limit_per_client

unfoldable pub remaining : Config → ClientCtx → ℕ
remaining config c = config.msg_limit_per_client - c.msg_cnt + later config c.reborn_cnt

-- The echoes that the clients wait for.
abbrev pub all_remaining : Config → List ClientCtx → ℕ
all_remaining config [] = 0
all_remaining config (c ∷ clients) = remaining config c + all_remaining config clients

pub record IsLive (config : Config) (c : ClientCtx) : Type 0 where
  pub waits : c.msg_cnt < config.msg_limit_per_client
  pub allowed : c.reborn_cnt ≤ config.reborn_limit_for_client

pub later-suc :
    (config : Config) (n : ℕ)
    → n < config.reborn_limit_for_client
    → later config n ≡ config.msg_limit_per_client + later config (n + 1)
unfolding later
later-suc config n h =
    ap (λ k. k * config.msg_limit_per_client) (omega arith)
    ∙ suc-mul (config.reborn_limit_for_client - (n + 1)) config.msg_limit_per_client
    ∙ omega arith

pub later-last : (config : Config) (n : ℕ) → config.reborn_limit_for_client ≤ n → later config n ≡ 0
unfolding later
later-last config n h =
    ap (λ k. k * config.msg_limit_per_client) (omega arith) ∙ zero-mul config.msg_limit_per_client

module _ (lib : ClientLib) (config : Config) where
  pub record Kept (f f' : Frame) : Type 0 where
    pub loop_kept : f'.ctx.loop_cnt ≡ f.ctx.loop_cnt
    pub msg_kept : f'.client_ctx.msg_cnt ≡ f.client_ctx.msg_cnt
    pub reborn_kept : f'.client_ctx.reborn_cnt ≡ f.client_ctx.reborn_cnt

  write_message-Kept : (env : Env) (f : Frame) → Ends (Kept f) (write_message lib config env f)
  unfolding write_message
  write_message-Kept env f = ground arith

  pub write_first_msg-Kept :
      (env : Env) (f : Frame) → Ends (Kept f) (write_first_msg lib config env f)
  unfolding write_first_msg write_message
  write_first_msg-Kept env f = ground arith

  check_hash-Kept : (env : Env) (f : Frame) → Ends (Kept f) (check_hash lib config env f)
  unfolding check_hash
  check_hash-Kept env f = ground arith

  pub end_client-keeps :
      (env : Env) (ctx : Context)
      → Ends (λ ctx'. ctx'.loop_cnt ≡ ctx.loop_cnt) (end_client config env ctx)
  unfolding end_client write_row
  end_client-keeps env ctx = ground arith

  pub on_close-keeps :
      (env : Env) (ctx : Context)
      → Ends (λ ctx'. ctx'.loop_cnt ≡ ctx.loop_cnt) (on_close config env ctx)
  unfolding on_close
  on_close-keeps env ctx = ground (arith, end_client-keeps env ctx)

  -- What an action leaves of `n` messages, the echoed ones and those to come.
  abbrev pub Leaves : ℕ → Action → Type 0
  Leaves n (goes_on f) =
      IsLive config f.client_ctx × (f.ctx.loop_cnt + remaining config f.client_ctx ≡ n)
  Leaves n (reborn ctx c) = IsLive config c × (ctx.loop_cnt + remaining config c ≡ n)
  Leaves n (closed ctx) = ctx.loop_cnt ≡ n
  Leaves n (ended ctx) = ⊥

  after_close-Leaves :
      (env : Env) (b : IoBuffer) (r : ℕ) (ctx : Context)
      → 0 < config.msg_limit_per_client
      → r ≤ config.reborn_limit_for_client
      → Ends (Leaves (ctx.loop_cnt + later config r)) (after_close lib config env b r ctx)
  unfolding after_close remaining
  after_close-Leaves env b r ctx pos h =
      ground (arith, later-suc config r, later-last config r, end_client-keeps env ctx)

  module _ (close : Context → Outcome Context)
      (keeps : (ctx : Context) → Ends (λ ctx'. ctx'.loop_cnt ≡ ctx.loop_cnt) (close ctx)) where
    retire-Leaves :
        (env : Env) (f : Frame)
        → 0 < config.msg_limit_per_client
        → f.client_ctx.reborn_cnt ≤ config.reborn_limit_for_client
        → Ends
            (Leaves (f.ctx.loop_cnt + later config f.client_ctx.reborn_cnt))
            (retire lib config close env f)
    unfolding retire
    retire-Leaves env f pos h =
        Ends-bind (λ _. Unit {0}) _ (assert (f.client_ctx.temp_buf.size == config.max_data_len)) _
          (ground arith)
          (λ _ _.
            Ends-bind (λ ctx. ctx.loop_cnt ≡ f.ctx.loop_cnt) _ (close f.ctx) _ (keeps f.ctx)
              (λ ctx e.
                rw⁻¹ e
                  (after_close-Leaves env f.client_ctx.temp_buf f.client_ctx.reborn_cnt ctx pos h)))

    on_echo-Leaves :
        (env : Env) (f : Frame)
        → IsLive config f.client_ctx
        → f.ctx.loop_cnt + remaining config f.client_ctx ≤ config.total_msg_cnt
        → config.total_msg_cnt < 2 ^ 64
        → config.msg_limit_per_client < 2 ^ 64
        → Ends
            (Leaves (f.ctx.loop_cnt + remaining config f.client_ctx))
            (on_echo lib config close env f)
    unfolding on_echo remaining
    on_echo-Leaves env f live fits total limit =
        elim (Bool-cases (inc64 f.client_ctx.msg_cnt == config.msg_limit_per_client)) [
          | inl e ↦
              rw (if_true _ _ e, retired e) (retire-Leaves env counted (ground arith) live.allowed)
          | inr e ↦ elim (Bool-cases (leb config.total_msg_cnt (inc64 f.ctx.loop_cnt))) [
            | inl l ↦ absurd (ground arith)
            | inr l ↦
                rw (if_false _ _ e, if_false _ _ l)
                  (Ends-bind (Kept counted) _ (check_hash lib config env counted) _
                    (check_hash-Kept env counted)
                    (λ checked k.
                      Ends-bind (Kept (timed checked)) _
                        (write_message lib config env (timed checked)) _
                        (write_message-Kept env (timed checked)) (λ f'' k'. ground arith)))
          ]
        ]
      where
        counted : Frame
        counted = record {
          ctx = record (f.ctx) {
            rtt_hist =
                lib.ns_of_ticks (sub64 env.stop_tick f.client_ctx.start_write_tick)
                ∷ f.ctx.rtt_hist;
            loop_cnt = inc64 f.ctx.loop_cnt;
          };
          client_ctx = record (f.client_ctx) { msg_cnt = inc64 f.client_ctx.msg_cnt };
        }

        timed : Frame → Frame
        timed checked = record checked {
          client_ctx = record (checked.client_ctx) { start_write_tick = env.start_tick };
        }

        retired :
            (inc64 f.client_ctx.msg_cnt == config.msg_limit_per_client) ≡ true
            → f.ctx.loop_cnt + remaining config f.client_ctx
              ≡ inc64 f.ctx.loop_cnt + later config f.client_ctx.reborn_cnt
        retired e = ground arith

    -- A data or control part takes its echo, if it makes one whole, out of those that are left: no
    -- echo is lost or counted twice, and the client does not end the program while it waits for more.
    pub on_read-Leaves :
        (env : Env) (p : Part) (f : Frame)
        → IsLive config f.client_ctx
        → f.ctx.loop_cnt + remaining config f.client_ctx ≤ config.total_msg_cnt
        → config.total_msg_cnt < 2 ^ 64
        → config.msg_limit_per_client < 2 ^ 64
        → Ends
            (Leaves (f.ctx.loop_cnt + remaining config f.client_ctx))
            (on_read lib config close env p f)
    unfolding on_read on_data_part on_control_part remaining
    on_read-Leaves env p f live fits total limit = elim (Bool-cases p.is_control_msg) [
      | inl c ↦ rw (if_false _ _ (ap not c)) (ground arith)
      | inr c ↦ rw (if_true _ _ (ap not c)) (
          Ends-bind (λ _. Unit {0}) _ (append_bytes f.client_ctx.temp_buf p.payload) _
            (ground arith)
            (λ b _. elim (Bool-cases p.is_msg_end) [
              | inl e ↦ rw (if_true _ _ e) (
                  on_echo-Leaves env _ (record { waits = live.waits; allowed = live.allowed }) fits
                    total limit)
              | inr e ↦
                  rw (if_false _ _ e) (record { waits = live.waits; allowed = live.allowed }, refl)
            ]))
    ]
