-- ===== src/Usockets/Server/Echo.antt =====
-- The TCP echo server sends back what it receives, as long as a peer waits for its echo.
use ws_benchmark.Prelude.{
  ℕ, ◌≡◌, refl, sym, ◌∙◌, inl, inr, Option, some, List, [], ◌++◌, length, drop, read_at_lem,
  write_at_lem, splice, length-drop, append-nil, arith, Bool-cases, ◌==◌, add64,
}
use ws_benchmark.Usockets.Server.{
  EchoSocket, Env, Frame, max_data_len, flushed, write_frame, with_buffer, write_out, on_writable,
  whole_message, part_message, on_data,
}
use ws_benchmark.Usockets.Server.Owed.{
  pending, echoed, Inv, IsWriter, IsReady, Keeps, advance-Keeps, flushed-Keeps, collected-Keeps,
  sent-Keeps, stashed-Keeps, written-le,
}

-- What a handler call must do: not fault, and owe `bytes` more.
pub record Echoes (r : Option Frame) (s : EchoSocket) (bytes : List ℕ) : Type 0 where
  pub after : Frame
  pub runs : r ≡ some after
  pub owed : echoed after.socket ≡ echoed s ++ bytes
  pub inv : Inv after.socket

write_out-Echoes :
    (env : Env) (f : Frame) (from : ℕ)
    → IsWriter env
    → from ≡ f.socket.buf.start_pos
    → Inv f.socket
    → Echoes (write_out env from f) f.socket []
unfolding write_out
write_out-Echoes env f from w e v = record {
  after = flushed env.clock (write_frame env (pending f.socket) f);
  runs = rw (
    e,
    read_at_lem f.socket.buf.data_block f.socket.buf.start_pos f.socket.buf.size (omega (arith, v)),
  );
  owed = kept.owed;
  inv = kept.inv;
}
  where
    kept : Keeps f.socket (flushed env.clock (write_frame env (pending f.socket) f)).socket []
    kept =
        flushed-Keeps env (write_frame env (pending f.socket) f) f.socket []
          (advance-Keeps (env.write (pending f.socket)) f.socket v (written-le env f.socket w))

-- When a socket becomes writable, what was taken of the pending bytes is sent and the rest still
-- waits: no byte is lost, added or moved.
pub on_writable-Echoes :
    (env : Env) (f : Frame) → IsWriter env → Inv f.socket → Echoes (on_writable env f) f.socket []
unfolding on_writable
on_writable-Echoes env f w v = write_out-Echoes env f f.socket.buf.start_pos w refl v

Keeps-Echoes :
    (r : Option Frame) (s t : EchoSocket) (bytes : List ℕ)
    → Keeps s t bytes
    → Echoes r t []
    → Echoes r s bytes
Keeps-Echoes r s t bytes k e = record {
  after = e.after;
  runs = e.runs;
  owed = e.owed ∙ append-nil (echoed t) ∙ k.owed;
  inv = e.inv;
}

part_message-Echoes :
    (env : Env) (bytes : List ℕ) (f : Frame)
    → IsWriter env
    → Inv f.socket
    → IsReady f.socket (length bytes)
    → Echoes (part_message env bytes f) f.socket bytes
unfolding part_message
part_message-Echoes env bytes f w v r =
    rw (write_at_lem f.socket.buf.data_block f.socket.buf.size bytes (omega (arith, v, r)))
      (elim (Bool-cases (size == max_data_len)) [
        | inl e ↦ rw e (
            Keeps-Echoes _ f.socket f'.socket bytes kept
              (write_out-Echoes env f' 0 w (sym r.idle) kept.inv))
        | inr e ↦ rw e (record { after = f'; runs = refl; owed = kept.owed; inv = kept.inv })
      ])
  where
    size : ℕ
    size = add64 f.socket.buf.size (length bytes)

    f' : Frame
    f' = record f {
      socket = with_buffer (splice f.socket.buf.data_block f.socket.buf.size bytes) size f.socket;
    }

    kept : Keeps f.socket f'.socket bytes
    kept = collected-Keeps bytes f.socket v r

whole_message-Echoes :
    (env : Env) (bytes : List ℕ) (f : Frame)
    → IsWriter env
    → Inv f.socket
    → IsReady f.socket (length bytes)
    → length bytes ≡ max_data_len
    → Echoes (whole_message env bytes f) f.socket bytes
unfolding whole_message
whole_message-Echoes env bytes f w v r e = elim (Bool-cases (env.write bytes == length bytes)) [
  | inl all ↦
      let k = sent-Keeps bytes (env.write bytes) f.socket v (omega (arith, r, e)) (ground arith) in
      rw all (record { after = _; runs = refl; owed = k.owed; inv = k.inv })
  | inr left ↦
      let k = stashed-Keeps bytes (env.write bytes) f.socket v r (omega (arith, r, e)) (w bytes) in
      rw
        (
          left,
          write_at_lem f.socket.buf.data_block 0 (drop (env.write bytes) bytes)
              (omega (arith, length-drop (env.write bytes) bytes, v, e)),
        )
        (record { after = _; runs = refl; owed = k.owed; inv = k.inv })
]

-- The parts of a message are collected, and a whole message is sent: with nothing of the message
-- before still waiting, a handler call on bytes that fit never touches memory outside of the
-- buffer, and owes the peer exactly those bytes more, in order.
pub on_data-Echoes :
    (env : Env) (bytes : List ℕ) (f : Frame)
    → IsWriter env
    → Inv f.socket
    → IsReady f.socket (length bytes)
    → Echoes (on_data env bytes f) f.socket bytes
unfolding on_data
on_data-Echoes env bytes f w v r = elim (Bool-cases (length bytes == max_data_len)) [
  | inl whole ↦ rw whole (whole_message-Echoes env bytes _ w v r (ground arith))
  | inr part ↦ rw part (part_message-Echoes env bytes _ w v r)
]
