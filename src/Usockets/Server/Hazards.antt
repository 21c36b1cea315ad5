-- ===== src/Usockets/Server/Hazards.antt =====
-- What the TCP echo server does when a peer does not wait, or a part of a message is pending:
-- its handlers have no guard for it.
use ws_benchmark.Prelude.{
  ℕ, ◌+◌, ◌-◌, ◌≤◌, ◌<◌, ◌≡◌, refl, ap, sym, ◌∙◌, some, true, false, List, ◌++◌, length, take, drop,
  write_at_lem, splice, append-nil, arith, length-append, length-take, length-drop, ◌==◌, inc64,
  add64, length-splice, read_at_lem, drop-splice,
}
use ws_benchmark.Usockets.Server.{
  EchoSocket, Env, Frame, is_quiet, count_stats, max_data_len, flushed, advance, with_buffer,
  write_out, on_writable, whole_message, part_message, on_data,
}
use ws_benchmark.Usockets.Server.Owed.{pending, echoed, Inv, IsWriter, length-echoed, written-le}

-- A whole message that arrives while `k` bytes of a message wait, and is not taken at once, takes
-- their place in the buffer: they are never echoed.
pub on_data-drops :
    (env : Env) (bytes : List ℕ) (f : Frame)
    → IsWriter env
    → Inv f.socket
    → f.socket.buf.start_pos ≡ 0
    → length bytes ≡ max_data_len
    → env.write bytes < max_data_len
    → (g : Frame) × (on_data env bytes f ≡ some g)
      × (length (echoed g.socket) + f.socket.buf.size ≡ length (echoed f.socket) + length bytes)
unfolding on_data whole_message
on_data-drops env bytes f w v idle whole part =
    let full : (length bytes == max_data_len) ≡ true = ground arith in
    let short : (env.write bytes == length bytes) ≡ false = ground arith in
    rw (full, short, write_at_lem f.socket.buf.data_block 0 rest in_block) (_, refl, counted)
  where
    n : ℕ
    n = env.write bytes

    rest : List ℕ
    rest = drop n bytes

    in_block : 0 + length rest ≤ length f.socket.buf.data_block
    in_block = omega (arith, length-drop n bytes, v, whole)

    s : EchoSocket
    s =
        with_buffer (splice f.socket.buf.data_block 0 rest) (length bytes - n)
          (record (f.socket) { sent = f.socket.sent ++ take n bytes })

    counted : length (echoed s) + f.socket.buf.size ≡ length (echoed f.socket) + length bytes
    counted = omega (
      arith,
      length-echoed f.socket v,
      length-echoed s (record {
        block = length-splice f.socket.buf.data_block 0 rest in_block ∙ v.block;
        room = omega (arith, idle, whole);
      }),
      length-append f.socket.sent (take n bytes),
      length-take n bytes,
      part,
      whole,
    )

-- A socket that becomes writable with nothing to send is counted as one more message sent.
pub on_writable-counts :
    (env : Env) (f : Frame)
    → IsWriter env
    → Inv f.socket
    → f.socket.buf.size ≡ 0
    → is_quiet f.globals.last_interval_recv_msg_cnt ≡ true
    → (g : Frame) × (on_writable env f ≡ some g)
      × (g.socket.sent ≡ f.socket.sent)
      × (g.globals.last_interval_send_msg_cnt ≡ inc64 f.globals.last_interval_send_msg_cnt)
unfolding on_writable write_out flushed advance count_stats
on_writable-counts env f w v empty quiet =
    let nothing : env.write (pending f.socket) ≡ 0 = omega (arith, written-le env f.socket w) in
    rw
      (read_at_lem f.socket.buf.data_block f.socket.buf.start_pos f.socket.buf.size
        (omega (arith, v)))
      (
        _,
        refl,
        ground (arith, nothing, append-nil f.socket.sent),
        ground (arith, nothing, quiet, empty),
      )

misplaced :
    (env : Env) (bytes : List ℕ) (f : Frame)
    → Inv f.socket
    → 0 < f.socket.buf.size
    → f.socket.buf.size + length bytes ≤ f.socket.buf.start_pos
    → (g : Frame) × (on_data env bytes f ≡ some g)
      × (echoed g.socket
          ≡ f.socket.sent
            ++ take
                (f.socket.buf.size + length bytes)
                (drop f.socket.buf.start_pos f.socket.buf.data_block))
unfolding on_data part_message
misplaced env bytes f v more far =
    let size = f.socket.buf.size in
    let not_full : (length bytes == max_data_len) ≡ false = ground arith in
    let room : size + length bytes ≤ length f.socket.buf.data_block = omega arith in
    let exact : add64 size (length bytes) ≡ size + length bytes = omega (arith, v) in
    let not_whole : (add64 size (length bytes) == max_data_len) ≡ false = ground arith in
    rw (not_full, write_at_lem f.socket.buf.data_block size bytes room, not_whole)
      (
        _,
        refl,
        rw (
          exact,
          drop-splice f.socket.buf.data_block size bytes f.socket.buf.start_pos (omega arith) far,
        ),
      )

-- Bytes that arrive while the rest of an echo waits behind at least as many sent bytes are lost: two
-- messages that differ leave the same bytes to be sent.
pub on_data-misplaced :
    (env : Env) (bytes other : List ℕ) (f : Frame)
    → Inv f.socket
    → length other ≡ length bytes
    → 0 < f.socket.buf.size
    → f.socket.buf.size + length bytes ≤ f.socket.buf.start_pos
    → (g h : Frame) × (on_data env bytes f ≡ some g)
      × (on_data env other f ≡ some h)
      × (echoed g.socket ≡ echoed h.socket)
on_data-misplaced env bytes other f v same more far =
    let (g, runs, owed) = misplaced env bytes f v more far in
    let (h, runs', owed') = misplaced env other f v more (omega arith) in
    (
      g,
      h,
      runs,
      runs',
      owed
          ∙ ap
              (λ n.
                f.socket.sent
                ++ take (f.socket.buf.size + n)
                    (drop f.socket.buf.start_pos f.socket.buf.data_block))
              (sym same)
          ∙ sym owed',
    )
