-- ===== src/Usockets/Server/Owed.antt =====
-- The bytes that the TCP echo server owes a peer, and what each change of a buffer does to them.
use ws_benchmark.Prelude.{
  ℕ, ◌+◌, ◌-◌, ◌≤◌, ◌≡◌, ap, sym, ◌∙◌, inl, inr, true, List, [], ◌++◌, length, take, drop, splice,
  length-splice, take-splice, take-splice_zero, take-append-drop, drop-take, drop-drop, take-all,
  length-drop, append_assoc, append-nil, arith, Bool-cases, ◌==◌, add64, add64-eq, sub64-eq,
  length-take, length-append,
}
use ws_benchmark.Usockets.Server.{
  EchoSocket, Env, Frame, max_data_len, flushed, advance, with_buffer,
}

-- The bytes of a socket that wait to be sent, and all that it was given to send.
abbrev pub pending : EchoSocket → List ℕ
pending s = take s.buf.size (drop s.buf.start_pos s.buf.data_block)

abbrev pub echoed : EchoSocket → List ℕ
echoed s = s.sent ++ pending s

pub record Inv (s : EchoSocket) : Type 0 where
  pub block : length s.buf.data_block ≡ max_data_len
  pub room : s.buf.start_pos + s.buf.size ≤ max_data_len

-- A socket takes no more than it is given.
abbrev pub IsWriter : Env → Type 0
IsWriter env = (xs : List ℕ) → env.write xs ≤ length xs

-- The next `n` bytes may come: nothing of the last message waits, and they fit in this one.
pub record IsReady (s : EchoSocket) (n : ℕ) : Type 0 where
  pub idle : s.buf.start_pos ≡ 0
  pub fits : s.buf.size + n ≤ max_data_len

-- Sending `w` of `k` bytes from `s` leaves the rest from `s + w`.
take-advance :
    (w s k : ℕ) (block : List ℕ)
    → w ≤ k
    → take k (drop s block) ≡ take w (take k (drop s block)) ++ take (k - w) (drop (s + w) block)
take-advance w s k block h = sym (take-append-drop w (take k (drop s block))) ∙ ap (◌++◌ _) rest
  where
    split : k ≡ w + (k - w)
    split = omega arith

    rest : drop w (take k (drop s block)) ≡ take (k - w) (drop (s + w) block)
    rest =
        ap (λ n. drop w (take n (drop s block))) split
        ∙ drop-take w (k - w) (drop s block)
        ∙ ap (take (k - w)) (drop-drop s w block)

-- A socket that has kept all but what it sent.
pub record Keeps (s t : EchoSocket) (bytes : List ℕ) : Type 0 where
  pub owed : echoed t ≡ echoed s ++ bytes
  pub inv : Inv t

pub advance-Keeps :
    (w : ℕ) (s : EchoSocket) → Inv s → w ≤ s.buf.size → Keeps s (advance w (pending s) s) []
unfolding advance
advance-Keeps w s v h = record {
  owed = rw (
    add64-eq s.buf.start_pos w (omega (arith, v)),
    sub64-eq s.buf.size w h (omega (arith, v)),
    append_assoc,
    ← take-advance w s.buf.start_pos s.buf.size s.buf.data_block h,
    append-nil,
  );
  inv = record { block = v.block; room = omega (arith, v) };
}

pub flushed-Keeps :
    (env : Env) (f : Frame) (s : EchoSocket) (bytes : List ℕ)
    → Keeps s f.socket bytes
    → Keeps s (flushed env.clock f).socket bytes
unfolding flushed
flushed-Keeps env f s bytes k = elim (Bool-cases (f.socket.buf.size == 0)) [
  | inl e ↦ rw e (record {
    owed = rewound e ∙ k.owed;
    inv = record { block = k.inv.block; room = omega (arith, k.inv) };
  })
  | inr e ↦ rw e k
]
  where
    block : List ℕ
    block = f.socket.buf.data_block

    rewound :
        (f.socket.buf.size == 0) ≡ true
        → f.socket.sent ++ take f.socket.buf.size block ≡ echoed f.socket
    rewound e =
        let zero_left : f.socket.buf.size ≡ 0 = ground arith in
        ap (λ n. f.socket.sent ++ take n block) zero_left
        ∙ sym (ap (λ n. f.socket.sent ++ take n (drop f.socket.buf.start_pos block)) zero_left)

-- A message's next part goes behind the parts before it.
pub collected-Keeps :
    (bytes : List ℕ) (s : EchoSocket)
    → Inv s
    → IsReady s (length bytes)
    → Keeps s
        (with_buffer (splice s.buf.data_block s.buf.size bytes) (add64 s.buf.size (length bytes)) s)
        bytes
collected-Keeps bytes s v r = record {
  owed =
      rw (r.idle, add64-eq s.buf.size (length bytes) (omega (arith, r)))
        (ap (◌++◌ s.sent) (take-splice s.buf.data_block s.buf.size bytes (omega (arith, v)))
          ∙ sym (append_assoc s.sent (take s.buf.size s.buf.data_block) bytes));
  inv = record {
    block = length-splice s.buf.data_block s.buf.size bytes (omega (arith, v, r)) ∙ v.block;
    room = omega (arith, r);
  };
}

pub pending-nil : (s : EchoSocket) → s.buf.size ≡ 0 → pending s ≡ []
pending-nil s e = ap (λ n. take n (drop s.buf.start_pos s.buf.data_block)) e

pub sent-Keeps :
    (bytes : List ℕ) (n : ℕ) (s : EchoSocket)
    → Inv s
    → s.buf.size ≡ 0
    → n ≡ length bytes
    → Keeps s (record s { sent = s.sent ++ take n bytes }) bytes
sent-Keeps bytes n s v e all = record {
  owed =
      rw (take-all n bytes (omega arith), pending-nil s e)
        (append-nil (s.sent ++ bytes) ∙ sym (ap (λ xs. xs ++ bytes) (append-nil s.sent)));
  inv = record { block = v.block; room = v.room };
}

-- What the socket did not take of a whole message stands at the front of the buffer.
pub stashed-Keeps :
    (bytes : List ℕ) (n : ℕ) (s : EchoSocket)
    → Inv s
    → IsReady s (length bytes)
    → s.buf.size ≡ 0
    → n ≤ length bytes
    → Keeps s
        (with_buffer
          (splice s.buf.data_block 0 (drop n bytes))
          (length bytes - n)
          (record s { sent = s.sent ++ take n bytes }))
        bytes
stashed-Keeps bytes n s v r e h = record {
  owed =
      rw
        (
          pending-nil s e,
          r.idle,
          take-splice_zero (length bytes - n) s.buf.data_block (drop n bytes)
              (omega (arith, length-drop n bytes)),
          append_assoc,
          take-append-drop n bytes,
        )
        (ap (λ xs. xs ++ bytes) (sym (append-nil s.sent)));
  inv = record {
    block =
        length-splice s.buf.data_block 0 (drop n bytes) (omega (arith, length-drop n bytes, v, r))
        ∙ v.block;
    room = omega (arith, r);
  };
}

pub length-pending : (s : EchoSocket) → Inv s → length (pending s) ≡ s.buf.size
length-pending s v = omega (
  arith,
  v,
  length-take s.buf.size (drop s.buf.start_pos s.buf.data_block),
  length-drop s.buf.start_pos s.buf.data_block,
)

pub written-le : (env : Env) (s : EchoSocket) → IsWriter env → env.write (pending s) ≤ s.buf.size
written-le env s w =
    omega (arith, w (pending s), length-take s.buf.size (drop s.buf.start_pos s.buf.data_block))

pub length-echoed : (s : EchoSocket) → Inv s → length (echoed s) ≡ length s.sent + s.buf.size
length-echoed s v = omega (arith, length-append s.sent (pending s), length-pending s v)
