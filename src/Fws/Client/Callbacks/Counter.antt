-- ===== src/Fws/Client/Callbacks/Counter.antt =====
-- `loop_cnt` of the flashws client counts the echoes that are whole.
use ws_benchmark.Prelude.{
  ℕ, ◌≡◌, ap, sym, true, false, not, arith, Bool-cases, inl, inr, if_true, if_false, inc64, leb,
  ◌==◌,
}
use ws_benchmark.Fws.{Outcome, Ends, Ends-bind, Ends-any, append_bytes, IoBuffer, assert}
use ws_benchmark.Fws.Client.{
  Config, Context, Env, Part, Frame, Action, goes_on, reborn, closed, ended, ClientLib, end_client,
}
use ws_benchmark.Fws.Client.Callbacks.{
  write_message, check_hash, after_close, retire, on_echo, on_data_part, on_read,
}
use ws_benchmark.Fws.Client.Callbacks.Balance.{end_client-keeps}

abbrev pub ctx_of : Action → Context
ctx_of (goes_on f) = f.ctx
ctx_of (reborn ctx c) = ctx
ctx_of (closed ctx) = ctx
ctx_of (ended ctx) = ctx

module _ (lib : ClientLib) (config : Config) where
  -- A callback leaves the counter at `n`.
  abbrev pub Counts : ℕ → Action → Type 0
  Counts n action = (ctx_of action).loop_cnt ≡ n

  after_close-Counts :
      (env : Env) (b : IoBuffer) (r : ℕ) (ctx : Context)
      → Ends (Counts ctx.loop_cnt) (after_close lib config env b r ctx)
  unfolding after_close
  after_close-Counts env b r ctx = ground (arith, end_client-keeps lib config env ctx)

  module _ (close : Context → Outcome Context)
      (keeps : (ctx : Context) → Ends (λ ctx'. ctx'.loop_cnt ≡ ctx.loop_cnt) (close ctx)) where
    retire-Counts :
        (env : Env) (f : Frame) → Ends (Counts f.ctx.loop_cnt) (retire lib config close env f)
    unfolding retire
    retire-Counts env f =
        Ends-bind (λ _. Unit {0}) _ (assert (f.client_ctx.temp_buf.size == config.max_data_len)) _
          (Ends-any _)
          (λ _ _.
            Ends-bind (λ ctx'. ctx'.loop_cnt ≡ f.ctx.loop_cnt) _ (close f.ctx) _ (keeps f.ctx)
              (λ ctx same.
                rw (sym same)
                  (after_close-Counts env f.client_ctx.temp_buf f.client_ctx.reborn_cnt ctx)))

    on_echo-Counts :
        (env : Env) (f : Frame)
        → Ends (Counts (inc64 f.ctx.loop_cnt)) (on_echo lib config close env f)
    unfolding on_echo check_hash write_message
    on_echo-Counts env f =
        elim (Bool-cases (inc64 f.client_ctx.msg_cnt == config.msg_limit_per_client)) [
          | inl e ↦ rw (if_true _ _ e) (retire-Counts env _)
          | inr e ↦
              rw (if_false _ _ e)
                (elim (Bool-cases (leb config.total_msg_cnt (inc64 f.ctx.loop_cnt))) [
                  | inl all ↦ rw (if_true _ _ all) (
                      Ends-bind _ _ (end_client config env _) _ (end_client-keeps lib config env _)
                        (λ ctx same. same))
                  | inr more ↦ rw (if_false _ _ more) (ground arith)
                ])
        ]

    on_data_part-Counts :
        (env : Env) (p : Part) (f : Frame)
        → p.is_msg_end ≡ true
        → Ends (Counts (inc64 f.ctx.loop_cnt)) (on_data_part lib config close env p f)
    unfolding on_data_part
    on_data_part-Counts env p f e =
        Ends-bind (λ _. Unit {0}) _ (append_bytes f.client_ctx.temp_buf p.payload) _ (Ends-any _)
          (λ temp_buf _. rw (if_true _ _ e) (on_echo-Counts env _))

    -- The last part of an echo counts one.
    pub on_read-Counts :
        (env : Env) (p : Part) (f : Frame)
        → p.is_control_msg ≡ false
        → p.is_msg_end ≡ true
        → Ends (Counts (inc64 f.ctx.loop_cnt)) (on_read lib config close env p f)
    unfolding on_read
    on_read-Counts env p f c e = rw (if_true _ _ (ap not c)) (on_data_part-Counts env p f e)
