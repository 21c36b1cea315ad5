-- ===== src/Fws/Client/Callbacks/Runs.antt =====
-- The callbacks of the flashws client on a connection to a server that echoes.
use ws_benchmark.Prelude.{
  ℕ, ◌≡◌, [], ◌++◌, true, false, not, List, length, if◌then◌else◌, if_true, if_false, Bool-cases,
  inl, inr, refl, ap, ◌∙◌, arith, ◌==◌, ==_refl,
}
use ws_benchmark.Fws.{Outcome, append_bytes}
use ws_benchmark.Fws.Buffers.{Appends, append_bytes-Holds}
use ws_benchmark.Fws.Client.{Config, ClientCtx, Context, Env, Part, Frame, goes_on, ClientLib}
use ws_benchmark.Fws.Client.Callbacks.{write_first_msg, on_data_part, on_control_part, on_read}
use ws_benchmark.Fws.Client.Callbacks.Echo.{
  IsFine, IsEcho, received_after, IsClose, Takes, Expects, Goes, Sends,
}
use ws_benchmark.Fws.Client.Callbacks.Whole.{write_message-Sends, on_echo-Goes}

module _ (lib : ClientLib) (config : Config) (payload : List ℕ) where
  module _ (close : Context → Outcome Context) (is_close : IsClose close)
      (full : length payload ≡ config.max_data_len) where
    on_data_part-Goes :
        (env : Env) (p : Part) (received : List ℕ) (f : Frame)
        → IsFine env
        → p.is_control_msg ≡ false
        → IsEcho payload received p
        → Expects lib config payload received f
        → Goes lib config payload
            (if p.is_msg_end then [] else received ++ p.payload)
            (on_data_part lib config close env p f)
    unfolding on_data_part
    on_data_part-Goes env p received f fine c echo expects =
        rw grown.runs (elim (Bool-cases p.is_msg_end) [
          | inl e ↦
              rw (if_true _ _ e, if_true _ _ e)
                (on_echo-Goes lib config payload close is_close full env _ fine
                  (record {
                    message = grown.held.holds ∙ echo.whole c e;
                    hash = expects.hash;
                    file = expects.file;
                    frames = expects.frames;
                  })
                  (rw⁻¹ (echo.whole c e) grown.held))
          | inr e ↦
              rw (if_false _ _ e, if_false _ _ e)
                (record {
                  after = _;
                  runs = refl;
                  good = record {
                    buffer = grown.held;
                    hash = expects.hash;
                    file = expects.file;
                    frames = expects.frames;
                  };
                })
        ])
      where
        grown :
            Appends lib.hdr_size config.max_data_len
              (received ++ p.payload)
              (append_bytes f.client_ctx.temp_buf p.payload)
        grown =
            append_bytes-Holds lib.hdr_size config.max_data_len received p.payload
              f.client_ctx.temp_buf expects.buffer (rw⁻¹ full (echo.fits c))

    pub on_read-Goes :
        (env : Env) (p : Part) (received : List ℕ) (f : Frame)
        → IsFine env
        → IsEcho payload received p
        → Expects lib config payload received f
        → Goes lib config payload (received_after p received) (on_read lib config close env p f)
    unfolding on_read received_after on_control_part
    on_read-Goes env p received f fine echo expects = elim (Bool-cases p.is_control_msg) [
      | inl c ↦
          rw (if_true _ _ c, if_false _ _ (ap not c))
            (record { after = goes_on f; runs = ground (arith, echo.pong_whole c); good = expects })
      | inr c ↦
          rw (if_false _ _ c, if_true _ _ (ap not c))
            (on_data_part-Goes env p received f fine c echo expects)
    ]

    pub write_first_msg-Sends :
        (env : Env) (ctx : Context) (c : ClientCtx)
        → env.write_ok ≡ true
        → Takes lib config payload ctx c
        → Sends lib config payload
            (write_first_msg lib config env (record { ctx = ctx; client_ctx = c }))
    unfolding write_first_msg
    write_first_msg-Sends env ctx c w takes =
        rw (if_true _ _ exact) (elim (Bool-cases (ctx.send_bytes_sum == 0)) [
          | inl z ↦ rw (if_true _ _ z) (
              write_message-Sends lib config payload env _ w (record {
                message = takes.buffer.holds;
                hash = takes.hash;
                file = takes.file;
                frames = takes.frames;
              }))
          | inr z ↦ rw (if_false _ _ z) (
              write_message-Sends lib config payload env _ w (record {
                message = takes.buffer.holds;
                hash = takes.hash;
                file = takes.file;
                frames = takes.frames;
              }))
        ])
      where
        exact : (c.temp_buf.size == config.max_data_len) ≡ true
        exact = rw (takes.buffer.sized, full) (==_refl config.max_data_len)
