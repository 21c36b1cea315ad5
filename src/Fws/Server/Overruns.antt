-- ===== src/Fws/Server/Overruns.antt =====
-- A message that is longer than the flashws server's buffer, src/flashws/echo_server.cpp.
use ws_benchmark.Prelude.{
  ℕ, ◌+◌, ◌<◌, ◌≤◌, ◌≡◌, refl, ap, false, not, List, [], ◌∷◌, length, arith, if_true, if_false,
  Bool-cases, inl, inr, leb, write_at_lem, splice, length-splice,
}
use ws_benchmark.Fws.{FlashWs, IoBuffer, done, faults, append_bytes}
use ws_benchmark.Fws.Buffers.{append_bytes-overrun}
use ws_benchmark.Fws.Server.{Env, Part, Frame, on_data_part, on_read, run}

-- Parts of one message, without its last one.
abbrev pub AreUnfinished : List (Env × Part) → Type 0
AreUnfinished [] = Unit {0}
AreUnfinished ((env, p) ∷ parts) =
    (p.is_control_msg ≡ false) × (p.is_msg_end ≡ false) × AreUnfinished parts

abbrev pub all_bytes : List (Env × Part) → ℕ
all_bytes [] = 0
all_bytes ((env, p) ∷ parts) = length p.payload + all_bytes parts

-- What the buffer has room for, behind the bytes that it holds.
abbrev pub IsOver : IoBuffer → ℕ → Type 0
IsOver b n = length b.data_block < b.start_pos + b.size + n

record Grows (b : IoBuffer) (bytes : List ℕ) : Type 0 where
  after : IoBuffer
  runs : append_bytes b bytes ≡ done after
  room : length after.data_block ≡ length b.data_block
  start : after.start_pos ≡ b.start_pos
  sized : after.size ≡ b.size + length bytes

append_bytes-Grows :
    (b : IoBuffer) (bytes : List ℕ)
    → b.start_pos + b.size + length bytes ≤ length b.data_block
    → Grows b bytes
unfolding append_bytes
append_bytes-Grows b bytes fits = record {
  after = record b {
    data_block = splice b.data_block (b.start_pos + b.size) bytes;
    size = b.size + length bytes;
  };
  runs = rw (write_at_lem b.data_block (b.start_pos + b.size) bytes fits);
  room = length-splice b.data_block (b.start_pos + b.size) bytes fits;
  start = refl;
  sized = refl;
}

module _ (fws : FlashWs) (buf_size : ℕ) where
  -- Nothing bounds a message: whatever parts it comes in, and whatever the buffer holds, if the parts
  -- before the last one do not fit in what is left of the buffer, the server writes past its end.
  pub run-overruns :
      (parts : List (Env × Part)) (f : Frame)
      → AreUnfinished parts
      → f.con_ctx.io_buf.start_pos + f.con_ctx.io_buf.size ≤ length f.con_ctx.io_buf.data_block
      → IsOver f.con_ctx.io_buf (all_bytes parts)
      → run fws buf_size parts f ≡ faults
  unfolding run on_read on_data_part
  run-overruns [] f unfinished within over = absurd (omega (arith, within, over))
  run-overruns ((env, p) ∷ parts) f unfinished within over =
      let b = f.con_ctx.io_buf in
      elim (Bool-cases (leb (b.start_pos + b.size + length p.payload) (length b.data_block))) [
        | inl fits ↦
            let fitting : b.start_pos + b.size + length p.payload ≤ length b.data_block =
              ground arith in
            let grown = append_bytes-Grows b p.payload fitting in
            rw (if_true _ _ (ap not unfinished.0), grown.runs, if_false _ _ unfinished.1)
              (run-overruns parts _ unfinished.2
                (omega (arith, fitting, grown.room, grown.start, grown.sized))
                (omega (arith, over, grown.room, grown.start, grown.sized)))
        | inr past ↦
            rw (if_true _ _ (ap not unfinished.0), append_bytes-overrun b p.payload (ground arith))
              refl
      ]
