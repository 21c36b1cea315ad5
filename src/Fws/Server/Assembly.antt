-- ===== src/Fws/Server/Assembly.antt =====
-- What the flashws echo server sends, as the messages that the parts of a connection make up.
use ws_benchmark.Prelude.{
  ℕ, ◌+◌, ◌%◌, ◌≤◌, ◌≡◌, refl, true, false, List, [], ◌∷◌, ◌++◌, length, arith, Bool-cases, inl,
  inr, if◌then◌else◌, if_true, if_false, ◌∙◌, ap,
}
use ws_benchmark.Fws.{FlashWs, Outcome, done, append_bytes, ws_opcode_pong}
use ws_benchmark.Fws.Buffers.{Holds, Appends, append_bytes-Holds, new_buf-Holds}
use ws_benchmark.Fws.Server.{
  Frame, Env, Part, on_new_connection, echo_message, on_data_part, on_control_part, on_read, run,
  Context, not,
}

-- The bytes of the message that is under way, and the messages echoed, the last one first.
pub record View : Type 0 where
  pub collected : List ℕ
  pub echoed : List (ℕ × List ℕ)

-- A control message is passed over; a part is added to its message; with the last part the message
-- is echoed, under the opcode of that part.
unfoldable pub next : Part → View → View
next p v =
    if p.is_control_msg
    then v
    else if p.is_msg_end
    then record { collected = []; echoed = (p.opcode % 256, v.collected ++ p.payload) ∷ v.echoed }
    else record v { collected = v.collected ++ p.payload }

next_control : (p : Part) (v : View) → p.is_control_msg ≡ true → next p v ≡ v
unfolding next
next_control p v c = if_true _ _ c

next_end :
    (p : Part) (v : View)
    → p.is_control_msg ≡ false
    → p.is_msg_end ≡ true
    → next p v
      ≡ record { collected = []; echoed = (p.opcode % 256, v.collected ++ p.payload) ∷ v.echoed }
unfolding next
next_end p v c e = if_false _ _ c ∙ if_true _ _ e

next_more :
    (p : Part) (v : View)
    → p.is_control_msg ≡ false
    → p.is_msg_end ≡ false
    → next p v ≡ record { collected = v.collected ++ p.payload; echoed = v.echoed }
unfolding next
next_more p v c e = if_false _ _ c ∙ if_false _ _ e

pub views : List (Env × Part) → View → View
views [] v = v
views ((env, p) ∷ parts) v = views parts (next p v)

-- No message is longer than `max`, what is whole can be written, and a pong comes in one piece.
pub record IsAllowed (max : ℕ) (env : Env) (p : Part) (v : View) : Type 0 where
  pub fits : p.is_control_msg ≡ false → length v.collected + length p.payload ≤ max
  pub writes : p.is_control_msg ≡ false → p.is_msg_end ≡ true → env.write_ok ≡ true
  pub pong_whole :
      p.is_control_msg ≡ true
      → p.opcode ≡ ws_opcode_pong
      → (p.is_frame_end ≡ true) × (p.is_msg_end ≡ true)

abbrev pub AreAllowed : ℕ → List (Env × Part) → View → Type 0
AreAllowed max [] v = Unit {0}
AreAllowed max ((env, p) ∷ parts) v = IsAllowed max env p v × AreAllowed max parts (next p v)

-- A connection's state shows as a view.
pub record Shows (fws : FlashWs) (max : ℕ) (v : View) (f : Frame) : Type 0 where
  pub buffer : Holds fws.hdr_size max v.collected f.con_ctx.io_buf
  pub sent : f.con_ctx.sent ≡ v.echoed

pub record Refines (fws : FlashWs) (max : ℕ) (v : View) (r : Outcome Frame) : Type 0 where
  pub after : Frame
  pub runs : r ≡ done after
  pub shown : Shows fws max v after

module _ (fws : FlashWs) (max : ℕ) where
  abbrev size_of_buf : ℕ
  size_of_buf = max + fws.hdr_size

  on_control_part-Refines :
      (env : Env) (p : Part) (v : View) (f : Frame)
      → p.is_control_msg ≡ true
      → IsAllowed max env p v
      → Shows fws max v f
      → Refines fws max v (on_control_part fws size_of_buf p f)
  unfolding on_control_part
  on_control_part-Refines env p v f c a s = record {
    after = f;
    runs = ground (arith, a.pong_whole c);
    shown = s;
  }

  echo_message-Refines :
      (env : Env) (v : View) (f : Frame)
      → env.write_ok ≡ true
      → Shows fws max v f
      → Refines fws max
          (record { collected = []; echoed = (f.con_ctx.status.opcode, v.collected) ∷ v.echoed })
          (echo_message fws size_of_buf env f)
  unfolding echo_message
  echo_message-Refines env v f w s = rw w (record {
    after = _;
    runs = refl;
    shown = record {
      buffer = new_buf-Holds fws max;
      sent = ground (arith, s.buffer.holds, s.sent);
    };
  })

  on_data_part-Refines :
      (env : Env) (p : Part) (v : View) (f : Frame)
      → p.is_control_msg ≡ false
      → IsAllowed max env p v
      → Shows fws max v f
      → Refines fws max (next p v) (on_data_part fws size_of_buf env p f)
  unfolding on_data_part
  on_data_part-Refines env p v f c a s = rw grown.runs (elim (Bool-cases p.is_msg_end) [
    | inl e ↦
        rw (next_end p v c e, if_true _ _ e)
          (echo_message-Refines env
            (record { collected = v.collected ++ p.payload; echoed = v.echoed }) _ (a.writes c e)
            (record { buffer = grown.held; sent = s.sent }))
    | inr e ↦
        rw (next_more p v c e, if_false _ _ e)
          (record { after = _; runs = refl; shown = record { buffer = grown.held; sent = s.sent } })
  ])
    where
      grown :
          Appends fws.hdr_size max
            (v.collected ++ p.payload)
            (append_bytes f.con_ctx.io_buf p.payload)
      grown =
          append_bytes-Holds fws.hdr_size max v.collected p.payload f.con_ctx.io_buf s.buffer
            (a.fits c)

  pub on_read-Refines :
      (env : Env) (p : Part) (v : View) (f : Frame)
      → IsAllowed max env p v
      → Shows fws max v f
      → Refines fws max (next p v) (on_read fws size_of_buf env p f)
  unfolding on_read
  on_read-Refines env p v f a s = elim (Bool-cases p.is_control_msg) [
    | inl c ↦
        rw (next_control p v c, if_false _ _ (ap not c)) (on_control_part-Refines env p v f c a s)
    | inr c ↦ rw (if_true _ _ (ap not c)) (on_data_part-Refines env p v f c a s)
  ]

  run-Refines_from :
      (parts : List (Env × Part)) (v : View) (f : Frame)
      → AreAllowed max parts v
      → Shows fws max v f
      → Refines fws max (views parts v) (run fws size_of_buf parts f)
  unfolding run views
  run-Refines_from [] v f a s = record { after = f; runs = refl; shown = s }
  run-Refines_from ((env, p) ∷ parts) v f a s =
      let one = on_read-Refines env p v f a.0 s in
      let more = run-Refines_from parts (next p v) one.after a.1 one.shown in
      record { after = more.after; runs = rw one.runs more.runs; shown = more.shown }

  -- A new connection whose messages are no longer than `max` and can be written never makes the
  -- server stop or write out of a buffer, and the server echoes exactly the messages that its parts
  -- make up: each is the parts' bytes in order, under the opcode of its last part.
  pub run-Refines :
      (ctx : Context) (parts : List (Env × Part))
      → AreAllowed max parts (record { collected = []; echoed = [] })
      → Refines fws max (views parts (record { collected = []; echoed = [] })) (
          run fws size_of_buf parts
            (record { ctx = ctx; con_ctx = on_new_connection fws size_of_buf }))
  unfolding on_new_connection
  run-Refines ctx parts a =
      run-Refines_from parts (record { collected = []; echoed = [] }) _ a
        (record { buffer = new_buf-Holds fws max; sent = refl })
