-- ===== src/Fws/Client/Callbacks/Stops.antt =====
-- The last flashws client of all stops the program's loop when it is closed.
use ws_benchmark.Prelude.{
  ◌≡◌, ap, false, not, arith, Bool-cases, inl, inr, if_true, if_false, inc64, ◌==◌, leb, ℕ,
}
use ws_benchmark.Fws.{done, Ends, Ends-bind, Ends-any, assert, append_bytes, IoBuffer}
use ws_benchmark.Fws.Client.{
  Config, Context, Env, Part, Frame, Action, goes_on, reborn, closed, ended, ClientLib, end_client,
  write_row,
}
use ws_benchmark.Fws.Client.Callbacks.{
  write_message, check_hash, after_close, retire, on_echo, on_data_part, on_control_part, on_read,
}

abbrev pub HasStopped : Action → Type 0
HasStopped (goes_on f) = Unit {0}
HasStopped (reborn ctx c) = Unit {0}
HasStopped (closed ctx) = ctx.is_running ≡ false
HasStopped (ended ctx) = ctx.is_running ≡ false

module _ (lib : ClientLib) (config : Config) (env : Env) where
  end_client-stops :
      (ctx : Context) → Ends (λ ctx'. ctx'.is_running ≡ false) (end_client config env ctx)
  unfolding end_client write_row
  end_client-stops ctx = ground arith

  module _ (none : env.socket_count ≡ 0) where
    after_close-stops :
        (b : IoBuffer) (r : ℕ) (ctx : Context)
        → Ends HasStopped (after_close lib config env b r ctx)
    unfolding after_close
    after_close-stops b r ctx = ground (arith, end_client-stops ctx)

    retire-stops : (f : Frame) → Ends HasStopped (retire lib config (λ c. done c) env f)
    unfolding retire
    retire-stops f =
        Ends-bind (λ _. Unit {0}) _ (assert (f.client_ctx.temp_buf.size == config.max_data_len)) _
          (Ends-any _)
          (λ _ _. after_close-stops f.client_ctx.temp_buf f.client_ctx.reborn_cnt f.ctx)

    on_echo-stops : (f : Frame) → Ends HasStopped (on_echo lib config (λ c. done c) env f)
    unfolding on_echo
    on_echo-stops f =
        elim (Bool-cases (inc64 f.client_ctx.msg_cnt == config.msg_limit_per_client)) [
          | inl e ↦ rw (if_true _ _ e) (retire-stops _)
          | inr e ↦ elim (Bool-cases (leb config.total_msg_cnt (inc64 f.ctx.loop_cnt))) [
            | inl l ↦
                rw (if_false _ _ e, if_true _ _ l)
                  (Ends-bind (λ ctx'. ctx'.is_running ≡ false) HasStopped (end_client config env _)
                    _ (end_client-stops _) (λ ctx' stopped. stopped))
            | inr l ↦
                rw (if_false _ _ e, if_false _ _ l)
                  (Ends-bind (λ _. Unit {0}) HasStopped (check_hash lib config env _) _ (Ends-any _)
                    (λ checked _.
                      Ends-bind (λ _. Unit {0}) HasStopped (write_message lib config env _) _
                        (Ends-any _) (λ _ _. tt)))
          ]
        ]

    pub on_read-stops :
        (p : Part) (f : Frame) → Ends HasStopped (on_read lib config (λ c. done c) env p f)
    unfolding on_read on_data_part on_control_part
    on_read-stops p f = elim (Bool-cases p.is_control_msg) [
      | inl c ↦ rw (if_false _ _ (ap not c)) (ground arith)
      | inr c ↦ rw (if_true _ _ (ap not c)) (
          Ends-bind (λ _. Unit {0}) _ (append_bytes f.client_ctx.temp_buf p.payload) _ (Ends-any _)
            (λ b _. elim (Bool-cases p.is_msg_end) [
              | inl e ↦ rw (if_true _ _ e) (on_echo-stops _)
              | inr e ↦ rw (if_false _ _ e) tt
            ]))
    ]
