-- ===== src/Fws/Buffers.antt =====
-- What appending to a flashws buffer does to its contents.
use ws_benchmark.Prelude.{
  ℕ, ◌+◌, ◌≤◌, ◌<◌, ◌≡◌, refl, ap, ◌∙◌, List, [], ◌++◌, length, take, drop, splice, length-splice,
  take-drop-splice, write_at_lem, write_at_overrun, arith, length-append,
}
use ws_benchmark.Fws.{IoBuffer, FlashWs, Outcome, done, faults, new_buf, append_bytes, contents}

-- A buffer that starts at `hdr`, has room for `max` bytes and holds `acc`.
pub record Holds (hdr max : ℕ) (acc : List ℕ) (b : IoBuffer) : Type 0 where
  pub at_start : b.start_pos ≡ hdr
  pub room : hdr + max ≤ length b.data_block
  pub holds : contents b ≡ acc
  pub sized : b.size ≡ length acc

pub new_buf-Holds :
    (fws : FlashWs) (max : ℕ) → Holds fws.hdr_size max [] (new_buf fws (max + fws.hdr_size))
new_buf-Holds fws max = record {
  at_start = refl;
  room = omega (arith, fws.request_buf_room (max + fws.hdr_size));
  holds =
      ap (λ n. take n (drop fws.hdr_size (fws.request_buf (max + fws.hdr_size)).data_block))
        (fws.request_buf_empty (max + fws.hdr_size));
  sized = fws.request_buf_empty (max + fws.hdr_size);
}

-- Bytes that fit are appended.
pub record Appends (hdr max : ℕ) (acc : List ℕ) (r : Outcome IoBuffer) : Type 0 where
  pub after : IoBuffer
  pub runs : r ≡ done after
  pub held : Holds hdr max acc after

pub append_bytes-Holds :
    (hdr max : ℕ) (acc bytes : List ℕ) (b : IoBuffer)
    → Holds hdr max acc b
    → length acc + length bytes ≤ max
    → Appends hdr max (acc ++ bytes) (append_bytes b bytes)
unfolding append_bytes
append_bytes-Holds hdr max acc bytes b h fits = record {
  after = record b {
    data_block = splice b.data_block (b.start_pos + b.size) bytes;
    size = b.size + length bytes;
  };
  runs = rw (write_at_lem b.data_block (b.start_pos + b.size) bytes fitting);
  held = record {
    at_start = h.at_start;
    room = omega (arith, h, length-splice b.data_block (b.start_pos + b.size) bytes fitting);
    holds =
        take-drop-splice b.data_block b.start_pos b.size bytes (omega (arith, fitting))
        ∙ ap (λ xs. xs ++ bytes) h.holds;
    sized = omega (arith, h, length-append acc bytes);
  };
}
  where
    fitting : b.start_pos + b.size + length bytes ≤ length b.data_block
    fitting = omega (arith, h, fits)

-- The copy has no bound of its own: bytes past the end of the block are written all the same.
pub append_bytes-overrun :
    (b : IoBuffer) (bytes : List ℕ)
    → length b.data_block < b.start_pos + b.size + length bytes
    → append_bytes b bytes ≡ faults
unfolding append_bytes
append_bytes-overrun b bytes over =
    rw (write_at_overrun b.data_block (b.start_pos + b.size) bytes over)
