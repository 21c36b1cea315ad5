-- ===== src/Fws/Client/Callbacks/Counts.antt =====
-- What the last part of an echo does to the counters of the flashws client's connection.
use ws_benchmark.Prelude.{
  ℕ, ◌+◌, ◌^◌, ◌<◌, ◌≡◌, ap, true, false, not, arith, length, Bool-cases, inl, inr, if_true,
  if_false, inc64, ◌==◌,
}
use ws_benchmark.Fws.{Outcome, Ends, Ends-bind, Ends-any, append_bytes, IoBuffer, assert}
use ws_benchmark.Fws.Client.{
  Config, Context, Env, Part, Frame, Action, goes_on, reborn, closed, ended, ClientLib,
}
use ws_benchmark.Fws.Client.Callbacks.{
  write_message, write_first_msg, check_hash, after_close, retire, on_echo, on_data_part, on_read,
}

module _ (lib : ClientLib) (config : Config) where
  -- The client goes on with one more echo counted and one more message written, or it has had the
  -- last echo of its connection.
  abbrev pub Answers : ℕ → ℕ → Action → Type 0
  Answers msgs frames (goes_on f) =
      (f.client_ctx.msg_cnt ≡ msgs + 1) × (length f.client_ctx.written ≡ frames + 1)
  Answers msgs frames (reborn ctx c) = msgs + 1 ≡ config.msg_limit_per_client
  Answers msgs frames (closed ctx) = msgs + 1 ≡ config.msg_limit_per_client
  Answers msgs frames (ended ctx) = Unit {0}

  after_close-Answers :
      (env : Env) (b : IoBuffer) (r msgs frames : ℕ) (ctx : Context)
      → msgs + 1 ≡ config.msg_limit_per_client
      → Ends (Answers msgs frames) (after_close lib config env b r ctx)
  unfolding after_close
  after_close-Answers env b r msgs frames ctx h = ground arith

  retire-Answers :
      (close : Context → Outcome Context) (env : Env) (f : Frame) (msgs frames : ℕ)
      → msgs + 1 ≡ config.msg_limit_per_client
      → Ends (Answers msgs frames) (retire lib config close env f)
  unfolding retire
  retire-Answers close env f msgs frames h =
      Ends-bind (λ _. Unit {0}) _ (assert (f.client_ctx.temp_buf.size == config.max_data_len)) _
        (ground arith)
        (λ _ _.
          Ends-bind (λ _. Unit {0}) _ (close f.ctx) _ (Ends-any (close f.ctx))
            (λ ctx _.
              after_close-Answers env f.client_ctx.temp_buf f.client_ctx.reborn_cnt msgs frames ctx
                h))

  on_echo-Answers :
      (close : Context → Outcome Context) (env : Env) (f : Frame)
      → f.client_ctx.msg_cnt < config.msg_limit_per_client
      → config.msg_limit_per_client < 2 ^ 64
      → Ends
          (Answers f.client_ctx.msg_cnt (length f.client_ctx.written))
          (on_echo lib config close env f)
  unfolding on_echo check_hash write_message
  on_echo-Answers close env f waits limit =
      elim (Bool-cases (inc64 f.client_ctx.msg_cnt == config.msg_limit_per_client)) [
        | inl e ↦ rw (if_true _ _ e) (
            retire-Answers close env _ f.client_ctx.msg_cnt (length f.client_ctx.written)
              (ground arith))
        | inr e ↦ rw (if_false _ _ e) (ground arith)
      ]

  pub on_read-Answers :
      (close : Context → Outcome Context) (env : Env) (p : Part) (f : Frame)
      → p.is_control_msg ≡ false
      → p.is_msg_end ≡ true
      → f.client_ctx.msg_cnt < config.msg_limit_per_client
      → config.msg_limit_per_client < 2 ^ 64
      → Ends
          (Answers f.client_ctx.msg_cnt (length f.client_ctx.written))
          (on_read lib config close env p f)
  unfolding on_read on_data_part
  on_read-Answers close env p f c e waits limit = rw (if_true _ _ (ap not c)) (
      Ends-bind (λ _. Unit {0}) _ (append_bytes f.client_ctx.temp_buf p.payload) _ (Ends-any _)
        (λ b _. rw (if_true _ _ e) (on_echo-Answers close env _ waits limit)))

  pub write_first_msg-Writes :
      (env : Env) (f : Frame)
      → Ends
          (λ f'. length f'.client_ctx.written ≡ length f.client_ctx.written + 1)
          (write_first_msg lib config env f)
  unfolding write_first_msg write_message
  write_first_msg-Writes env f = ground arith
