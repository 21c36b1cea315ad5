-- ===== src/Fws/Client/Callbacks/Closing.antt =====
-- `OnClose` of the flashws client, which `Close` calls at once: with the last echo it ends the
-- program, where the socket that closes is still counted.
use ws_benchmark.Prelude.{
  ℕ, ◌+◌, ◌-◌, ◌^◌, ◌≤◌, ◌<◌, ◌≡◌, ◌≢◌, refl, sym, ap, ◌∙◌, arith, not, Bool-cases, inl, inr,
  if_true, if_false, inc64, sub64, length, true, false, ◌∷◌, ◌==◌, ==_iff, ltb,
}
use ws_benchmark.Fws.{Outcome, done, aborts, faults, ◌>>=◌, assert, append_bytes, IoBuffer}
use ws_benchmark.Fws.Client.{
  Config, Context, Env, Part, Frame, closed, ClientLib, end_client, on_close,
}
use ws_benchmark.Fws.Client.Callbacks.{
  check_hash, write_message, after_close, retire, on_echo, on_data_part, on_control_part, on_read,
}
use ws_benchmark.Fws.Client.Callbacks.Balance.{IsLive, later, remaining, later-suc, later-last}

bind_cong :
    {A B : Type 0} (r : Outcome A) (k k' : A → Outcome B)
    → ((a : A) → k a ≡ k' a)
    → (r >>= k) ≡ (r >>= k')
bind_cong (done a) k k' same = same a
bind_cong aborts k k' same = refl
bind_cong faults k k' same = refl

-- What is read from outside, with the socket that closes not counted.
abbrev pub uncounted : Env → Env
uncounted env = record env { socket_count = env.socket_count - 1 }

module _ (lib : ClientLib) (config : Config) where
  on_close-more :
      (env : Env) (ctx : Context)
      → ctx.loop_cnt < config.total_msg_cnt
      → on_close config env ctx ≡ done ctx
  unfolding on_close
  on_close-more env ctx h = ground arith

  on_close-last :
      (env : Env) (ctx : Context)
      → config.total_msg_cnt ≤ ctx.loop_cnt
      → on_close config env ctx ≡ end_client config env ctx
  unfolding on_close
  on_close-last env ctx h = ground arith

  -- `others` echoes are left to the other clients, none if their sockets are none.
  pub record Left (env : Env) (others : ℕ) : Type 0 where
    pub counted : 0 < env.socket_count
    pub alone : env.socket_count ≡ 1 → others ≡ 0
    pub together : env.socket_count ≢ 1 → 0 < others

  module _ (env : Env) (others : ℕ) (left : Left env others) where
    after_close-closes :
        (b : IoBuffer) (r : ℕ) (ctx : Context)
        → 0 < config.msg_limit_per_client
        → ctx.loop_cnt + (later config r + others) ≡ config.total_msg_cnt
        → (on_close config env ctx >>= after_close lib config env b r)
          ≡ after_close lib config (uncounted env) b r ctx
    unfolding after_close end_client
    after_close-closes b r ctx pos total =
        elim (Bool-cases (ltb r config.reborn_limit_for_client)) [
          | inl e ↦
              ap (λ o. o >>= after_close lib config env b r)
                (on_close-more env ctx (ground (arith, later-suc config r)))
              ∙ if_true _ _ e
              ∙ sym (if_true _ _ e)
          | inr e ↦ elim (Bool-cases (env.socket_count == 1)) [
            | inl z ↦
                let one = (==_iff env.socket_count 1).0 z in
                let still : (env.socket_count == 0) ≡ false = rw one refl in
                let none : ((uncounted env).socket_count == 0) ≡ true = rw one refl in
                ap (λ o. o >>= after_close lib config env b r)
                  (on_close-last env ctx (ground (arith, later-last config r, left.alone one)))
                ∙ bind_cong (end_client config env ctx) (after_close lib config env b r)
                    (λ ctx'. done (closed ctx')) (λ ctx'. if_false _ _ e ∙ if_false _ _ still)
                ∙ sym (if_true _ _ none)
                ∙ sym (if_false _ _ e)
            | inr z ↦
                let some = left.together (ground arith) in
                let counted = left.counted in
                let still : (env.socket_count == 0) ≡ false = ground arith in
                let more : ((uncounted env).socket_count == 0) ≡ false = ground arith in
                ap (λ o. o >>= after_close lib config env b r)
                  (on_close-more env ctx (omega (arith, total, some)))
                ∙ if_false _ _ e
                ∙ if_false _ _ still
                ∙ sym (if_false _ _ more)
                ∙ sym (if_false _ _ e)
          ]
        ]

    retire-closes :
        (f : Frame)
        → 0 < config.msg_limit_per_client
        → f.ctx.loop_cnt + (later config f.client_ctx.reborn_cnt + others) ≡ config.total_msg_cnt
        → retire lib config (on_close config env) env f
          ≡ retire lib config (λ c. done c) (uncounted env) f
    unfolding retire
    retire-closes f pos total =
        bind_cong (assert (f.client_ctx.temp_buf.size == config.max_data_len)) _ _
          (λ _. after_close-closes f.client_ctx.temp_buf f.client_ctx.reborn_cnt f.ctx pos total)

    module _ (total : config.total_msg_cnt < 2 ^ 64)
        (limit : config.msg_limit_per_client < 2 ^ 64) where
      on_echo-closes :
          (f : Frame)
          → IsLive config f.client_ctx
          → f.ctx.loop_cnt + (remaining config f.client_ctx + others) ≡ config.total_msg_cnt
          → on_echo lib config (on_close config env) env f
            ≡ on_echo lib config (λ c. done c) (uncounted env) f
      unfolding on_echo remaining end_client check_hash write_message
      on_echo-closes f live sum =
          let waits = live.waits in
          elim (Bool-cases (inc64 f.client_ctx.msg_cnt == config.msg_limit_per_client)) [
            | inl e ↦
                if_true _ _ e
                ∙ retire-closes counted (omega (arith, waits)) (ground (arith, sum, waits))
                ∙ sym (if_true _ _ e)
            | inr e ↦ if_false _ _ e ∙ sym (if_false _ _ e)
          ]
        where
          counted : Frame
          counted = record {
            ctx = record (f.ctx) {
              rtt_hist =
                  lib.ns_of_ticks (sub64 env.stop_tick f.client_ctx.start_write_tick)
                  ∷ f.ctx.rtt_hist;
              loop_cnt = inc64 f.ctx.loop_cnt;
            };
            client_ctx = record (f.client_ctx) { msg_cnt = inc64 f.client_ctx.msg_cnt };
          }

      -- The callback does what it does if `OnClose` does nothing and the socket that closes is not
      -- counted: either way the last client of all, and it alone, ends the program once.
      pub on_read-closes :
          (p : Part) (f : Frame)
          → IsLive config f.client_ctx
          → f.ctx.loop_cnt + (remaining config f.client_ctx + others) ≡ config.total_msg_cnt
          → on_read lib config (on_close config env) env p f
            ≡ on_read lib config (λ c. done c) (uncounted env) p f
      unfolding on_read on_data_part on_control_part remaining
      on_read-closes p f live sum = elim (Bool-cases p.is_control_msg) [
        | inl c ↦ if_false _ _ (ap not c) ∙ sym (if_false _ _ (ap not c))
        | inr c ↦
            if_true _ _ (ap not c)
            ∙ bind_cong (append_bytes f.client_ctx.temp_buf p.payload) _ _ (λ b.
              elim (Bool-cases p.is_msg_end) [
                | inl e ↦ if_true _ _ e ∙ on_echo-closes (grown b) still sum ∙ sym (if_true _ _ e)
                | inr e ↦ if_false _ _ e ∙ sym (if_false _ _ e)
              ])
            ∙ sym (if_true _ _ (ap not c))
      ]
        where
          still : {b : IoBuffer} → IsLive config (record (f.client_ctx) { temp_buf = b })
          still = record { waits = live.waits; allowed = live.allowed }

          grown : IoBuffer → Frame
          grown b = record {
            ctx = record (f.ctx) { recv_bytes_sum = f.ctx.recv_bytes_sum + length p.payload };
            client_ctx = record (f.client_ctx) { temp_buf = b };
          }
