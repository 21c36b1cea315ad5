-- ===== src/Fws/Server/Intervals.antt =====
-- What the printed lines of the flashws server say, and where its callback writes out of a buffer.
use mathlib.Core.Path.{subst}
use ws_benchmark.Prelude.{ℕ, ◌+◌, ◌<◌, ◌≡◌, refl, Bool, List, [], ◌∷◌, arith}
use ws_benchmark.Stats.{Report}
use ws_benchmark.Fws.{FlashWs, Outcome, done, Ends, Ends-bind}
use ws_benchmark.Fws.Server.Assembly.{AreAllowed, views, run-Refines}
use ws_benchmark.Fws.Server.{
  Context, ConnectCtx, Frame, Env, Part, start, is_quiet, count_stats, on_new_connection,
  echo_message, on_data_part, on_control_part, on_read, run,
}

-- Each line stands for exactly 0x4000 messages received, and as many sent.
abbrev pub IsFull : List Report → Type 0
IsFull [] = Unit {0}
IsFull (r ∷ lines) = (r.recv_msg_cnt ≡ 0x4000) × (r.send_msg_cnt ≡ 0x4000) × IsFull lines

pub record Inv (g : Context) : Type 0 where
  pub below : g.last_interval_recv_msg_cnt < 0x4000
  pub matched : g.last_interval_send_msg_cnt ≡ g.last_interval_recv_msg_cnt
  pub full : IsFull g.printed

-- A callback that ends keeps the invariant.
abbrev pub Keeps : Outcome Frame → Type 0
Keeps = Ends (λ f. Inv f.ctx)

module _ (fws : FlashWs) (buf_size : ℕ) where
  echo_message-Keeps : (env : Env) (f : Frame) → Inv f.ctx → Keeps (echo_message fws buf_size env f)
  unfolding echo_message count_stats is_quiet
  echo_message-Keeps env f v = ground arith

  pub on_read-Keeps :
      (env : Env) (p : Part) (f : Frame) → Inv f.ctx → Keeps (on_read fws buf_size env p f)
  unfolding on_read on_data_part on_control_part
  on_read-Keeps env p f v = grind (arith, echo_message-Keeps)

  run-Keeps : (parts : List (Env × Part)) (f : Frame) → Inv f.ctx → Keeps (run fws buf_size parts f)
  unfolding run
  run-Keeps [] f v = v
  run-Keeps ((env, p) ∷ parts) f v =
      Ends-bind (λ f. Inv f.ctx) (λ f. Inv f.ctx) (on_read fws buf_size env p f)
        (run fws buf_size parts) (on_read-Keeps env p f v) (run-Keeps parts)

  -- Whatever comes over a connection of a new server, every printed line stands for exactly 0x4000
  -- messages received and as many sent, and fewer wait for the next line.
  run-start-Keeps :
      (fp : Bool) (con_ctx : ConnectCtx) (parts : List (Env × Part))
      → Keeps (run fws buf_size parts (record { ctx = start fp; con_ctx = con_ctx }))
  unfolding start
  run-start-Keeps fp con_ctx parts =
      run-Keeps parts (record { ctx = start fp; con_ctx = con_ctx })
        (record { below = omega arith; matched = refl; full = tt })

  -- On a new server that is sent messages of at most `max` bytes, which can be written, the
  -- callbacks all end; the messages are echoed; and every printed line stands for exactly 0x4000
  -- messages received and as many sent, with fewer waiting for the next line.
  pub run-IsFull :
      (max : ℕ) (fp : Bool) (parts : List (Env × Part))
      → buf_size ≡ max + fws.hdr_size
      → AreAllowed max parts (record { collected = []; echoed = [] })
      → (f : Frame) × (run fws buf_size parts
            (record { ctx = start fp; con_ctx = on_new_connection fws buf_size })
          ≡ done f)
        × (f.con_ctx.sent ≡ (views parts (record { collected = []; echoed = [] })).echoed)
        × IsFull f.ctx.printed
        × (f.ctx.last_interval_recv_msg_cnt < 0x4000)
  run-IsFull max fp parts e allowed =
      let refined = run-Refines fws max (start fp) parts allowed in
      let runs : run fws buf_size parts
            (record { ctx = start fp; con_ctx = on_new_connection fws buf_size })
          ≡ done refined.after =
        rw e refined.runs in
      let kept = subst Keeps runs (run-start-Keeps fp (on_new_connection fws buf_size) parts) in
      (refined.after, runs, refined.shown.sent, kept.full, kept.below)
