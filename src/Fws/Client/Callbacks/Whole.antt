-- ===== src/Fws/Client/Callbacks/Whole.antt =====
-- How the flashws client handles an echo that is whole.
use ws_benchmark.Prelude.{
  ℕ, ◌≡◌, ◌≢◌, ◌⊎◌, [], ◌∷◌, ◌%◌, Bool, true, false, List, length, if_true, if_false, Bool-cases,
  inl, inr, refl, ap, ◌∙◌, leb, ltb, ◌==◌, ◌&&◌, inc64, sub64, ==_refl,
}
use ws_benchmark.Fws.{IoBuffer, Outcome, assert, done, contents}
use ws_benchmark.Fws.Buffers.{Holds, new_buf-Holds}
use ws_benchmark.Fws.Client.{
  new_ws_client, Config, Context, Summary, Env, Frame, OutFile, closed_file, write_row, no_file,
  open_file, goes_on, closed, ended, ClientLib, hash_arr, end_client,
}
use ws_benchmark.Fws.Client.Callbacks.{write_message, check_hash, after_close, retire, on_echo}
use ws_benchmark.Fws.Client.Callbacks.Echo.{IsFine, IsClose, Goes, Sends, IsWhole}

assert-true : (b : Bool) → b ≡ true → assert b ≡ done tt
assert-true true e = refl
assert-true false e = cc

OutFile-cases : (o : OutFile) → o ≢ closed_file → (o ≡ no_file) ⊎ (o ≡ open_file)
OutFile-cases no_file h = inl refl
OutFile-cases open_file h = inr refl
OutFile-cases closed_file h = absurd (h refl)

module _ (lib : ClientLib) (config : Config) (payload : List ℕ) where
  pub write_message-Sends :
      (env : Env) (f : Frame)
      → env.write_ok ≡ true
      → IsWhole lib config payload f
      → Sends lib config payload (write_message lib config env f)
  unfolding write_message
  write_message-Sends env f w whole = record {
    after = _;
    runs = if_true _ _ w;
    good = record {
      buffer = new_buf-Holds lib.fws config.max_data_len;
      hash = whole.hash;
      file = whole.file;
      frames = (whole.message, whole.frames);
    };
  }

  record Passes (f : Frame) (r : Outcome Frame) : Type 0 where
    pub after : Frame
    pub runs : r ≡ done after
    pub client_kept : after.client_ctx ≡ f.client_ctx
    pub hash_kept : after.ctx.data_hash ≡ f.ctx.data_hash
    pub file_kept : after.ctx.out_fp ≡ f.ctx.out_fp

  check_hash-Passes :
      (env : Env) (f : Frame)
      → contents f.client_ctx.temp_buf ≡ payload
      → f.ctx.data_hash ≡ hash_arr lib.rotate_r payload
      → Passes f (check_hash lib config env f)
  unfolding check_hash
  check_hash-Passes env f message hash = elim (Bool-cases (f.ctx.loop_cnt % 0x4000 == 0)) [
    | inl e ↦ record {
      after = record f { ctx = record (f.ctx) { last_record_ns = env.now_ns } };
      runs = if_true _ _ e ∙ if_true _ _ same;
      client_kept = refl;
      hash_kept = refl;
      file_kept = refl;
    }
    | inr e ↦ record {
      after = f;
      runs = if_false _ _ e;
      client_kept = refl;
      hash_kept = refl;
      file_kept = refl;
    }
  ]
    where
      same : (hash_arr lib.rotate_r (contents f.client_ctx.temp_buf) == f.ctx.data_hash) ≡ true
      same = rw (message, hash) (==_refl (hash_arr lib.rotate_r payload))

  write_row_done :
      (row : Summary) (ctx : Context)
      → ctx.out_fp ≢ closed_file
      → (ctx' : Context) × (write_row row ctx ≡ done ctx')
  unfolding write_row
  write_row_done row ctx unclosed = elim (OutFile-cases ctx.out_fp unclosed) [
    | inl e ↦ (ctx, rw e refl)
    | inr e ↦ (record ctx { rows = row ∷ ctx.rows; out_fp = closed_file }, rw e refl)
  ]

  end_client_done :
      (env : Env) (ctx : Context)
      → ctx.out_fp ≢ closed_file
      → (ctx' : Context) × (end_client config env ctx ≡ done ctx')
  unfolding end_client
  end_client_done env ctx unclosed = write_row_done _ _ unclosed

  after_close-Goes :
      (env : Env) (old_buf : IoBuffer) (n : ℕ) (ctx : Context)
      → IsFine env
      → Holds lib.hdr_size config.max_data_len payload old_buf
      → ctx.data_hash ≡ hash_arr lib.rotate_r payload
      → ctx.out_fp ≢ closed_file
      → Goes lib config payload [] (after_close lib config env old_buf n ctx)
  unfolding after_close
  after_close-Goes env old_buf n ctx fine held hash file =
      elim (Bool-cases (ltb n config.reborn_limit_for_client)) [
        | inl e ↦ record {
          after = _;
          runs =
              if_true _ _ e
              ∙ if_true {b = new_ws_client env.new_client && env.add_socket_ok} _ _
                  (rw (fine.connects, fine.adds) refl);
          good = record { buffer = held; hash = hash; file = file; frames = tt };
        }
        | inr e ↦ elim (Bool-cases (env.socket_count == 0)) [
          | inl z ↦ record {
            after = closed (end_client_done env ctx file).0;
            runs = if_false _ _ e ∙ if_true _ _ z ∙ rw ((end_client_done env ctx file).1) refl;
            good = tt;
          }
          | inr z ↦ record { after = _; runs = if_false _ _ e ∙ if_false _ _ z; good = tt }
        ]
      ]

  module _ (close : Context → Outcome Context) (is_close : IsClose close)
      (full : length payload ≡ config.max_data_len) where
    retire-Goes :
        (env : Env) (f : Frame)
        → IsFine env
        → IsWhole lib config payload f
        → Holds lib.hdr_size config.max_data_len payload f.client_ctx.temp_buf
        → Goes lib config payload [] (retire lib config close env f)
    unfolding retire
    retire-Goes env f fine whole held =
        let (ctx, e, hash, file) = is_close f.ctx in
        rw (assert-true (f.client_ctx.temp_buf.size == config.max_data_len) exact, e)
          (after_close-Goes env _ f.client_ctx.reborn_cnt ctx fine held (hash ∙ whole.hash)
            (rw file whole.file))
      where
        exact : (f.client_ctx.temp_buf.size == config.max_data_len) ≡ true
        exact = rw (held.sized, full) (==_refl config.max_data_len)

    pub on_echo-Goes :
        (env : Env) (f : Frame)
        → IsFine env
        → IsWhole lib config payload f
        → Holds lib.hdr_size config.max_data_len payload f.client_ctx.temp_buf
        → Goes lib config payload [] (on_echo lib config close env f)
    unfolding on_echo
    on_echo-Goes env f fine whole held =
        elim (Bool-cases (inc64 f.client_ctx.msg_cnt == config.msg_limit_per_client)) [
          | inl e ↦ rw (if_true _ _ e) (retire-Goes env counted fine still held)
          | inr e ↦ elim (Bool-cases (leb config.total_msg_cnt (inc64 f.ctx.loop_cnt))) [
            | inl l ↦ record {
              after = ended (end_client_done env counted.ctx whole.file).0;
              runs =
                  if_false _ _ e
                  ∙ if_true _ _ l
                  ∙ rw ((end_client_done env counted.ctx whole.file).1) refl;
              good = tt;
            }
            | inr l ↦ record {
              after = goes_on sent.after;
              runs = if_false _ _ e ∙ if_false _ _ l ∙ rw checked.runs (rw sent.runs refl);
              good = sent.good;
            }
          ]
        ]
      where
        counted : Frame
        counted = record {
          ctx = record (f.ctx) {
            rtt_hist =
                lib.ns_of_ticks (sub64 env.stop_tick f.client_ctx.start_write_tick)
                ∷ f.ctx.rtt_hist;
            loop_cnt = inc64 f.ctx.loop_cnt;
          };
          client_ctx = record (f.client_ctx) { msg_cnt = inc64 f.client_ctx.msg_cnt };
        }

        still : IsWhole lib config payload counted
        still = record {
          message = whole.message;
          hash = whole.hash;
          file = whole.file;
          frames = whole.frames;
        }

        checked : Passes counted (check_hash lib config env counted)
        checked = check_hash-Passes env counted whole.message whole.hash

        sent : Sends lib config payload (
            write_message lib config env (record (checked.after) {
              client_ctx = record (checked.after.client_ctx) { start_write_tick = env.start_tick };
            }))
        sent = write_message-Sends env _ fine.writes (record {
          message = ap (λ c. contents c.temp_buf) checked.client_kept ∙ whole.message;
          hash = checked.hash_kept ∙ whole.hash;
          file = rw checked.file_kept whole.file;
          frames = rw checked.client_kept whole.frames;
        })
