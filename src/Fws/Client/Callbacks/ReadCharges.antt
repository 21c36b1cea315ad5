-- ===== src/Fws/Client/Callbacks/ReadCharges.antt =====
-- What `OnRead` of the flashws client adds to the counts of its report.
use mathlib.Core.Path.{subst}
use ws_benchmark.Prelude.{
  ℕ, ◌+◌, ◌≡◌, refl, ap, sym, true, false, not, List, ◌∷◌, length, arith, Bool-cases, inl, inr,
  if_true, if_false, inc64, sub64, leb, ◌==◌,
}
use ws_benchmark.Fws.{Outcome, Ends, Ends-bind, Ends-any, append_bytes, assert}
use ws_benchmark.Fws.Client.{Config, Context, Env, Part, Frame, Summary, ClientLib, end_client}
use ws_benchmark.Fws.Client.Callbacks.{
  write_message, check_hash, retire, on_echo, on_data_part, on_read, on_control_part,
}
use ws_benchmark.Fws.Client.Callbacks.Charges.{
  Charged, ChargedBy, StaysBy, after_close-ChargedBy, check_hash-Charged, write_message-Charged,
  append_bytes-size, received,
}

module _ (lib : ClientLib) (config : Config) where
  module _ (close : Context → Outcome Context)
      (keeps : (rows : List Summary) (rtts recv send : ℕ) (ctx : Context)
        → Charged rows rtts recv send ctx
        → Ends (Charged rows rtts recv send) (close ctx)) where
    retire-ChargedBy :
        (env : Env) (rows : List Summary) (rtts recv send sent : ℕ) (f : Frame)
        → Charged rows rtts recv send f.ctx
        → Ends (ChargedBy lib config env rows rtts recv send sent) (retire lib config close env f)
    unfolding retire
    retire-ChargedBy env rows rtts recv send sent f c =
        Ends-bind (λ _. Unit {0}) _ (assert (f.client_ctx.temp_buf.size == config.max_data_len)) _
          (Ends-any _)
          (λ _ _.
            Ends-bind (Charged rows rtts recv send) _ (close f.ctx) _
              (keeps rows rtts recv send f.ctx c)
              (λ ctx c'.
                after_close-ChargedBy lib config env f.client_ctx.temp_buf f.client_ctx.reborn_cnt
                  rows rtts recv send sent ctx c'))

    -- A whole echo counts one round trip, and its client sends as much again if it goes on.
    on_echo-ChargedBy :
        (env : Env) (rows : List Summary) (rtts recv send : ℕ) (f : Frame)
        → Charged rows rtts recv send f.ctx
        → Ends
            (ChargedBy lib config env rows (rtts + 1) recv send f.client_ctx.temp_buf.size)
            (on_echo lib config close env f)
    unfolding on_echo
    on_echo-ChargedBy env rows rtts recv send f c =
        elim (Bool-cases (inc64 f.client_ctx.msg_cnt == config.msg_limit_per_client)) [
          | inl e ↦
              rw (if_true _ _ e) (
                retire-ChargedBy env rows (rtts + 1) recv send f.client_ctx.temp_buf.size _ counted)
          | inr e ↦ elim (Bool-cases (leb config.total_msg_cnt (inc64 f.ctx.loop_cnt))) [
            | inl l ↦
                rw (if_false _ _ e, if_true _ _ l)
                  (Ends-bind (λ _. Unit {0}) _ (end_client config env _) _ (Ends-any _) (λ _ _. tt))
            | inr l ↦
                rw (if_false _ _ e, if_false _ _ l)
                  (Ends-bind _ _ (check_hash lib config env _) _
                    (check_hash-Charged lib config env rows (rtts + 1) recv send _ counted)
                    (λ checked h.
                      Ends-bind _ _ (write_message lib config env _) _
                        (write_message-Charged lib config env rows (rtts + 1) recv send _ h.0)
                        (λ f'' c''.
                          subst (λ k. Charged rows (rtts + 1) recv (send + k.temp_buf.size) f''.ctx)
                            h.1 c'')))
          ]
        ]
      where
        counted : Charged rows (rtts + 1) recv send (record (f.ctx) {
          rtt_hist =
              lib.ns_of_ticks (sub64 env.stop_tick f.client_ctx.start_write_tick) ∷ f.ctx.rtt_hist;
          loop_cnt = inc64 f.ctx.loop_cnt;
        })
        counted = record {
          file = c.file;
          kept = c.kept;
          rtt_cnt = omega (arith, c.rtt_cnt);
          recv_sum = c.recv_sum;
          send_sum = c.send_sum;
        }

    -- The part that ends an echo, one that does not, and one of a control message.
    pub on_read-end :
        (env : Env) (p : Part) (rows : List Summary) (rtts recv send : ℕ) (f : Frame)
        → p.is_control_msg ≡ false
        → p.is_msg_end ≡ true
        → Charged rows rtts recv send f.ctx
        → Ends
            (ChargedBy lib config env rows
              (rtts + 1)
              (recv + length p.payload)
              send
              (f.client_ctx.temp_buf.size + length p.payload))
            (on_read lib config close env p f)
    unfolding on_read on_data_part
    on_read-end env p rows rtts recv send f k e c = rw (if_true _ _ (ap not k)) (
        Ends-bind (λ b. b.size ≡ f.client_ctx.temp_buf.size + length p.payload) _
          (append_bytes f.client_ctx.temp_buf p.payload) _
          (append_bytes-size lib config f.client_ctx.temp_buf p.payload)
          (λ b sized.
            rw (if_true _ _ e, sym sized)
              (on_echo-ChargedBy env rows rtts (recv + length p.payload) send _
                (received lib config rows rtts recv send f.ctx p c))))

    pub on_read-more :
        (env : Env) (p : Part) (rows : List Summary) (rtts recv send : ℕ) (f : Frame)
        → p.is_control_msg ≡ false
        → p.is_msg_end ≡ false
        → Charged rows rtts recv send f.ctx
        → Ends
            (StaysBy lib config rows rtts (recv + length p.payload) send f.ctx.loop_cnt)
            (on_read lib config close env p f)
    unfolding on_read on_data_part
    on_read-more env p rows rtts recv send f k e c = rw (if_true _ _ (ap not k)) (
        Ends-bind (λ _. Unit {0}) _ (append_bytes f.client_ctx.temp_buf p.payload) _ (Ends-any _)
          (λ b _. rw (if_false _ _ e) (received lib config rows rtts recv send f.ctx p c, refl)))

    pub on_read-control :
        (env : Env) (p : Part) (rows : List Summary) (rtts recv send : ℕ) (f : Frame)
        → p.is_control_msg ≡ true
        → Charged rows rtts recv send f.ctx
        → Ends
            (StaysBy lib config rows rtts recv send f.ctx.loop_cnt)
            (on_read lib config close env p f)
    unfolding on_read on_control_part
    on_read-control env p rows rtts recv send f k c = rw (if_false _ _ (ap not k)) (ground arith)
