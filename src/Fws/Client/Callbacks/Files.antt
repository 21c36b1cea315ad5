-- ===== src/Fws/Client/Callbacks/Files.antt =====
-- What a client of the flashws program that is closed leaves to the others: the file and the hash.
use ws_benchmark.Prelude.{
  ℕ, ◌≡◌, ◌≢◌, refl, ap, arith, not, Bool-cases, inl, inr, if_true, if_false, inc64, ◌==◌, leb, ltb,
}
use ws_benchmark.Fws.{Outcome, Ends, Ends-bind, Ends-any, assert, append_bytes, IoBuffer}
use ws_benchmark.Fws.Client.{
  Config, Context, Env, Part, Frame, Action, goes_on, reborn, closed, ended, ClientLib, end_client,
}
use ws_benchmark.Fws.Client.Callbacks.{
  write_message, check_hash, after_close, retire, on_echo, on_data_part, on_control_part, on_read,
}

abbrev pub Shares : Context → Context → Type 0
Shares ctx ctx' = (ctx'.out_fp ≡ ctx.out_fp) × (ctx'.data_hash ≡ ctx.data_hash)

abbrev pub SharesClosed : Env → Context → Action → Type 0
SharesClosed env ctx (goes_on f) = Unit {0}
SharesClosed env ctx (reborn ctx' c) = Unit {0}
SharesClosed env ctx (closed ctx') = env.socket_count ≢ 0 → Shares ctx ctx'
SharesClosed env ctx (ended ctx') = Unit {0}

module _ (lib : ClientLib) (config : Config) (close : Context → Outcome Context)
    (shares : (ctx : Context) → Ends (Shares ctx) (close ctx)) where
  after_close-Shares :
      (env : Env) (b : IoBuffer) (r : ℕ) (ctx₀ ctx : Context)
      → Shares ctx₀ ctx
      → Ends (SharesClosed env ctx₀) (after_close lib config env b r ctx)
  unfolding after_close
  after_close-Shares env b r ctx₀ ctx h = elim (Bool-cases (ltb r config.reborn_limit_for_client)) [
    | inl e ↦ rw (if_true _ _ e) (ground arith)
    | inr e ↦ elim (Bool-cases (env.socket_count == 0)) [
      | inl z ↦
          rw (if_false _ _ e, if_true _ _ z)
            (Ends-bind (λ _. Unit {0}) (SharesClosed env ctx₀) (end_client config env ctx) _
              (Ends-any (end_client config env ctx)) (λ ctx' _ some. absurd (ground arith)))
      | inr z ↦ rw (if_false _ _ e, if_false _ _ z) (λ some. h)
    ]
  ]

  retire-Shares :
      (env : Env) (ctx₀ : Context) (f : Frame)
      → Shares ctx₀ f.ctx
      → Ends (SharesClosed env ctx₀) (retire lib config close env f)
  unfolding retire
  retire-Shares env ctx₀ f h =
      Ends-bind (λ _. Unit {0}) _ (assert (f.client_ctx.temp_buf.size == config.max_data_len)) _
        (ground arith)
        (λ _ _. Ends-bind (Shares f.ctx) _ (close f.ctx) _ (shares f.ctx) (λ ctx k.
          after_close-Shares env f.client_ctx.temp_buf f.client_ctx.reborn_cnt ctx₀ ctx
            (ground (arith, h, k))))

  on_echo-Shares :
      (env : Env) (f : Frame) → Ends (SharesClosed env f.ctx) (on_echo lib config close env f)
  unfolding on_echo
  on_echo-Shares env f =
      elim (Bool-cases (inc64 f.client_ctx.msg_cnt == config.msg_limit_per_client)) [
        | inl e ↦ rw (if_true _ _ e) (retire-Shares env f.ctx _ (refl, refl))
        | inr e ↦ elim (Bool-cases (leb config.total_msg_cnt (inc64 f.ctx.loop_cnt))) [
          | inl l ↦
              rw (if_false _ _ e, if_true _ _ l)
                (Ends-bind (λ _. Unit {0}) (SharesClosed env f.ctx) (end_client config env _) _
                  (Ends-any (end_client config env _)) (λ _ _. tt))
          | inr l ↦
              rw (if_false _ _ e, if_false _ _ l)
                (Ends-bind (λ _. Unit {0}) (SharesClosed env f.ctx) (check_hash lib config env _) _
                  (Ends-any (check_hash lib config env _))
                  (λ checked _.
                    Ends-bind (λ _. Unit {0}) (SharesClosed env f.ctx)
                      (write_message lib config env _) _ (Ends-any (write_message lib config env _))
                      (λ _ _. tt)))
        ]
      ]

  pub on_read-Shares :
      (env : Env) (p : Part) (f : Frame)
      → Ends (SharesClosed env f.ctx) (on_read lib config close env p f)
  unfolding on_read on_data_part on_control_part
  on_read-Shares env p f = elim (Bool-cases p.is_control_msg) [
    | inl c ↦ rw (if_false _ _ (ap not c)) (ground arith)
    | inr c ↦ rw (if_true _ _ (ap not c)) (
        Ends-bind (λ _. Unit {0}) _ (append_bytes f.client_ctx.temp_buf p.payload) _ (Ends-any _)
          (λ b _. elim (Bool-cases p.is_msg_end) [
            | inl e ↦ rw (if_true _ _ e) (on_echo-Shares env _)
            | inr e ↦ rw (if_false _ _ e) tt
          ]))
  ]
