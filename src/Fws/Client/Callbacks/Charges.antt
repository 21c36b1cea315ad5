-- ===== src/Fws/Client/Callbacks/Charges.antt =====
-- What the flashws client counts for its report: the round trips and the bytes of both directions.
use ws_benchmark.Prelude.{
  ℕ, ◌+◌, ◌≡◌, refl, ◌∙◌, true, false, ◌&&◌, List, ◌∷◌, length, arith, Bool-cases, inl, inr,
  if_true, if_false, ltb, ◌==◌,
}
use ws_benchmark.Prelude.Int.{sub_ℕ}
use ws_benchmark.Fws.{Ends, Ends-bind, append_bytes, IoBuffer}
use ws_benchmark.Fws.Client.{
  Config, Context, Env, Part, Frame, Action, Summary, open_file, goes_on, reborn, closed, ended,
  ClientLib, end_client, write_row, new_ws_client,
}
use ws_benchmark.Fws.Client.Callbacks.{write_message, write_first_msg, check_hash, after_close}

-- The file is open and holds `rows`, and these are the counts.
pub record Charged (rows : List Summary) (rtts recv send : ℕ) (ctx : Context) : Type 0 where
  pub file : ctx.out_fp ≡ open_file
  pub kept : ctx.rows ≡ rows
  pub rtt_cnt : length ctx.rtt_hist ≡ rtts
  pub recv_sum : ctx.recv_bytes_sum ≡ recv
  pub send_sum : ctx.send_bytes_sum ≡ send

pub recount :
    {rows : List Summary} {rtts recv send rtts' recv' send' : ℕ} {ctx : Context}
    → Charged rows rtts recv send ctx
    → rtts ≡ rtts'
    → recv ≡ recv'
    → send ≡ send'
    → Charged rows rtts' recv' send' ctx
recount c a b d = record {
  file = c.file;
  kept = c.kept;
  rtt_cnt = c.rtt_cnt ∙ a;
  recv_sum = c.recv_sum ∙ b;
  send_sum = c.send_sum ∙ d;
}

-- A row was written, of these counts.
pub record Reported (config : Config) (rows : List Summary) (rtts recv send : ℕ) (ctx : Context)
    : Type 0 where
  pub row : Summary
  pub written : ctx.rows ≡ row ∷ rows
  pub size : row.msg_size ≡ config.max_data_len
  pub bytes : row.bytes_sum ≡ recv + send
  pub trips : length row.round_trips ≡ rtts

pub recount_row :
    {config : Config} {rows : List Summary} {rtts recv send rtts' recv' send' : ℕ} {ctx : Context}
    → Reported config rows rtts recv send ctx
    → rtts ≡ rtts'
    → recv ≡ recv'
    → send ≡ send'
    → Reported config rows rtts' recv' send' ctx
recount_row r a b d = record {
  row = r.row;
  written = r.written;
  size = r.size;
  bytes = omega (arith, r.bytes, b, d);
  trips = r.trips ∙ a;
}

module _ (lib : ClientLib) (config : Config) where
  -- A client that goes on has sent `sent` bytes more; the last one that is closed writes the row.
  abbrev pub ChargedBy : Env → List Summary → ℕ → ℕ → ℕ → ℕ → Action → Type 0
  ChargedBy env rows rtts recv send sent (goes_on f) = Charged rows rtts recv (send + sent) f.ctx
  ChargedBy env rows rtts recv send sent (reborn ctx c) = Charged rows rtts recv send ctx
  ChargedBy env rows rtts recv send sent (closed ctx) =
      ((env.socket_count == 0) ≡ false → Charged rows rtts recv send ctx)
      × ((env.socket_count == 0) ≡ true → Reported config rows rtts recv send ctx)
  ChargedBy env rows rtts recv send sent (ended ctx) = Unit {0}

  -- A client that goes on, with the echoes of the program as they were.
  abbrev pub StaysBy : List Summary → ℕ → ℕ → ℕ → ℕ → Action → Type 0
  StaysBy rows rtts recv send loop_cnt (goes_on f) =
      Charged rows rtts recv send f.ctx × (f.ctx.loop_cnt ≡ loop_cnt)
  StaysBy rows rtts recv send loop_cnt (reborn ctx c) = ⊥
  StaysBy rows rtts recv send loop_cnt (closed ctx) = ⊥
  StaysBy rows rtts recv send loop_cnt (ended ctx) = ⊥

  end_client-Reported :
      (env : Env) (rows : List Summary) (rtts recv send : ℕ) (ctx : Context)
      → Charged rows rtts recv send ctx
      → Ends (Reported config rows rtts recv send) (end_client config env ctx)
  unfolding end_client write_row
  end_client-Reported env rows rtts recv send ctx c = rw c.file (record {
    row = record {
      msg_size = config.max_data_len;
      bytes_sum = ctx.recv_bytes_sum + ctx.send_bytes_sum;
      to_now_ns = sub_ℕ env.now_ns ctx.start_ns_from_epoch;
      round_trips = ctx.rtt_hist;
    };
    written = rw c.kept refl;
    size = refl;
    bytes = rw (c.recv_sum, c.send_sum) refl;
    trips = c.rtt_cnt;
  })

  pub after_close-ChargedBy :
      (env : Env) (b : IoBuffer) (r : ℕ) (rows : List Summary) (rtts recv send sent : ℕ)
      (ctx : Context)
      → Charged rows rtts recv send ctx
      → Ends (ChargedBy env rows rtts recv send sent) (after_close lib config env b r ctx)
  unfolding after_close
  after_close-ChargedBy env b r rows rtts recv send sent ctx c =
      elim (Bool-cases (ltb r config.reborn_limit_for_client)) [
        | inl e ↦
            rw (if_true _ _ e)
              (elim (Bool-cases (new_ws_client env.new_client && env.add_socket_ok)) [
                | inl up ↦ rw (if_true _ _ up) c
                | inr down ↦ rw (if_false _ _ down) tt
              ])
        | inr e ↦ elim (Bool-cases (env.socket_count == 0)) [
          | inl z ↦
              rw (if_false _ _ e, if_true _ _ z)
                (Ends-bind _ _ (end_client config env ctx) _
                  (end_client-Reported env rows rtts recv send ctx c)
                  (λ ctx' reported. (λ some. absurd (ground arith), λ none. reported)))
          | inr z ↦ rw (if_false _ _ e, if_false _ _ z) (λ some. c, λ none. absurd (ground arith))
        ]
      ]

  pub check_hash-Charged :
      (env : Env) (rows : List Summary) (rtts recv send : ℕ) (f : Frame)
      → Charged rows rtts recv send f.ctx
      → Ends
          (λ f'. Charged rows rtts recv send f'.ctx × (f'.client_ctx ≡ f.client_ctx))
          (check_hash lib config env f)
  unfolding check_hash
  check_hash-Charged env rows rtts recv send f c = ground arith

  pub write_message-Charged :
      (env : Env) (rows : List Summary) (rtts recv send : ℕ) (f : Frame)
      → Charged rows rtts recv send f.ctx
      → Ends
          (λ f'. Charged rows rtts recv (send + f.client_ctx.temp_buf.size) f'.ctx)
          (write_message lib config env f)
  unfolding write_message
  write_message-Charged env rows rtts recv send f c = ground arith

  pub write_first_msg-Charged :
      (env : Env) (rows : List Summary) (rtts recv send : ℕ) (f : Frame)
      → Charged rows rtts recv send f.ctx
      → Ends
          (λ f'. Charged rows rtts recv (send + f.client_ctx.temp_buf.size) f'.ctx)
          (write_first_msg lib config env f)
  unfolding write_first_msg write_message
  write_first_msg-Charged env rows rtts recv send f c = ground arith

  pub append_bytes-size :
      (b : IoBuffer) (bytes : List ℕ)
      → Ends (λ b'. b'.size ≡ b.size + length bytes) (append_bytes b bytes)
  unfolding append_bytes
  append_bytes-size b bytes = ground arith

  pub received :
      (rows : List Summary) (rtts recv send : ℕ) (ctx : Context) (p : Part)
      → Charged rows rtts recv send ctx
      → Charged rows rtts
          (recv + length p.payload)
          send
          (record ctx { recv_bytes_sum = ctx.recv_bytes_sum + length p.payload })
  received rows rtts recv send ctx p c = record {
    file = c.file;
    kept = c.kept;
    rtt_cnt = c.rtt_cnt;
    recv_sum = omega (arith, c.recv_sum);
    send_sum = c.send_sum;
  }
