-- ===== src/Fws/Client/Callbacks/Frames.antt =====
-- How many frames a flashws client has written after each callback.
use ws_benchmark.Prelude.{
  ℕ, ◌+◌, ◌≡◌, ap, Bool, false, not, length, if◌then◌else◌, arith, Bool-cases, inl, inr, if_true,
  if_false, inc64, ◌==◌,
}
use ws_benchmark.Fws.{Outcome, Ends, Ends-bind, Ends-any, append_bytes, IoBuffer, assert}
use ws_benchmark.Fws.Client.{
  Config, Context, Env, Part, Frame, Action, goes_on, reborn, closed, ended, ClientLib,
}
use ws_benchmark.Fws.Client.Callbacks.{
  write_message, write_first_msg, check_hash, after_close, retire, on_echo, on_data_part, on_read,
  on_control_part,
}

-- The messages that a part ends.
unfoldable pub ends : Bool → Bool → ℕ
ends is_control_msg is_msg_end = if is_control_msg then 0 else if is_msg_end then 1 else 0

-- A client that goes on has written `n` frames, one that takes over none.
abbrev pub HasWritten : ℕ → Action → Type 0
HasWritten n (goes_on f) = length f.client_ctx.written ≡ n
HasWritten n (reborn ctx c) = length c.written ≡ 0
HasWritten n (closed ctx) = Unit {0}
HasWritten n (ended ctx) = Unit {0}

module _ (lib : ClientLib) (config : Config) where
  pub write_first_msg-frames :
      (env : Env) (f : Frame)
      → Ends
          (λ f'. length f'.client_ctx.written ≡ length f.client_ctx.written + 1)
          (write_first_msg lib config env f)
  unfolding write_first_msg write_message
  write_first_msg-frames env f = ground arith

  after_close-HasWritten :
      (env : Env) (b : IoBuffer) (r n : ℕ) (ctx : Context)
      → Ends (HasWritten n) (after_close lib config env b r ctx)
  unfolding after_close
  after_close-HasWritten env b r n ctx = ground arith

  retire-HasWritten :
      (close : Context → Outcome Context) (env : Env) (f : Frame) (n : ℕ)
      → Ends (HasWritten n) (retire lib config close env f)
  unfolding retire
  retire-HasWritten close env f n =
      Ends-bind (λ _. Unit {0}) _ (assert (f.client_ctx.temp_buf.size == config.max_data_len)) _
        (Ends-any _)
        (λ _ _.
          Ends-bind (λ _. Unit {0}) _ (close f.ctx) _ (Ends-any (close f.ctx))
            (λ ctx _.
              after_close-HasWritten env f.client_ctx.temp_buf f.client_ctx.reborn_cnt n ctx))

  on_echo-HasWritten :
      (close : Context → Outcome Context) (env : Env) (f : Frame)
      → Ends (HasWritten (length f.client_ctx.written + 1)) (on_echo lib config close env f)
  unfolding on_echo check_hash write_message
  on_echo-HasWritten close env f =
      elim (Bool-cases (inc64 f.client_ctx.msg_cnt == config.msg_limit_per_client)) [
        | inl e ↦
            rw (if_true _ _ e) (retire-HasWritten close env _ (length f.client_ctx.written + 1))
        | inr e ↦ rw (if_false _ _ e) (ground arith)
      ]

  on_data_part-HasWritten :
      (close : Context → Outcome Context) (env : Env) (p : Part) (f : Frame)
      → p.is_control_msg ≡ false
      → Ends
          (HasWritten (length f.client_ctx.written + ends p.is_control_msg p.is_msg_end))
          (on_data_part lib config close env p f)
  unfolding on_data_part ends
  on_data_part-HasWritten close env p f c =
      Ends-bind (λ _. Unit {0}) _ (append_bytes f.client_ctx.temp_buf p.payload) _ (Ends-any _)
        (λ temp_buf _. elim (Bool-cases p.is_msg_end) [
          | inl e ↦ rw (c, e) (on_echo-HasWritten close env _)
          | inr e ↦ ground arith
        ])

  pub on_read-HasWritten :
      (close : Context → Outcome Context) (env : Env) (p : Part) (f : Frame)
      → Ends
          (HasWritten (length f.client_ctx.written + ends p.is_control_msg p.is_msg_end))
          (on_read lib config close env p f)
  unfolding on_read on_control_part ends
  on_read-HasWritten close env p f = elim (Bool-cases p.is_control_msg) [
    | inl c ↦ ground arith
    | inr c ↦ rw (if_true _ _ (ap not c)) (on_data_part-HasWritten close env p f c)
  ]
