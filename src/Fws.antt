-- ===== src/Fws.antt =====
-- The flashws programs, src/flashws, and what they use of the flashws library, which is not part of
-- the repository: its buffers, as an interface with the documented behaviour that is relied on.
pub mod Buffers
pub mod Client
pub mod Exchange
pub mod Network
pub mod Server
pub mod Starts
use mathlib.Core.Path.{subst}
use ws_benchmark.Prelude.{
  true, false, ℕ, ◌≤◌, ◌≡◌, Option, none, some, List, length, take, Bool, write_at, drop, ◌+◌,
}

-- The fields of `fws::IOBuffer` that the programs use.
pub record IoBuffer : Type 0 where
  pub data_block : List ℕ
  pub start_pos : ℕ  -- ssize_t
  pub size : ℕ  -- ssize_t

-- `SUGGEST_RESERVE_WS_HDR_SIZE`, and `RequestBuf(n)`: an empty buffer of at least `n` bytes.
pub record FlashWs : Type 0 where
  pub hdr_size : ℕ
  pub request_buf : ℕ → IoBuffer
  pub request_buf_room : (n : ℕ) → n ≤ length (request_buf n).data_block
  pub request_buf_empty : (n : ℕ) → (request_buf n).size ≡ 0

-- A callback ends, stops the program by `std::abort` or `FWS_ASSERT`, or leaves memory undefined.
pub data Outcome {ℓ} (A : Type ℓ) : Type ℓ where
  done : A → Outcome A
  aborts faults : Outcome A

infixl 5 ◌>>=◌ ◌>>◌
abbrev pub ◌>>=◌ {ℓ κ} : {A : Type ℓ} {B : Type κ} → Outcome A → (A → Outcome B) → Outcome B
done a >>= f = f a
aborts >>= f = aborts
faults >>= f = faults

abbrev pub ◌>>◌ {ℓ} : {B : Type ℓ} → Outcome (Unit {0}) → Outcome B → Outcome B
m >> k = m >>= λ _. k

-- A condition on the result of a callback, if it ends.
abbrev pub Ends {ℓ κ} : {A : Type ℓ} → (A → Type κ) → Outcome A → Type κ
Ends P (done a) = P a
Ends P aborts = Unit
Ends P faults = Unit

pub Ends-bind {ℓ κ μ} :
    {A : Type ℓ} {B : Type κ} (P : A → Type μ) (Q : B → Type μ) (r : Outcome A) (k : A → Outcome B)
    → Ends P r
    → ((a : A) → P a → Ends Q (k a))
    → Ends Q (r >>= k)
Ends-bind P Q (done a) k h each = each a h
Ends-bind P Q aborts k h each = tt
Ends-bind P Q faults k h each = tt

pub Ends-map {ℓ κ μ} :
    {A : Type ℓ} (P : A → Type κ) (Q : A → Type μ) (r : Outcome A)
    → Ends P r
    → ((a : A) → P a → Q a)
    → Ends Q r
Ends-map P Q (done a) h each = each a h
Ends-map P Q aborts h each = tt
Ends-map P Q faults h each = tt

pub Ends-any {ℓ} : {A : Type ℓ} (r : Outcome A) → Ends (λ _. Unit {0}) r
Ends-any (done a) = tt
Ends-any aborts = tt
Ends-any faults = tt

-- What holds of one result holds of every result, since there is one at most.
pub after-done {ℓ κ} :
    {A : Type ℓ} (P : A → Type κ) (r : Outcome A) (a : A)
    → r ≡ done a
    → P a
    → (b : A) → r ≡ done b
    → P b
after-done P (done x) a e p b e' = let same : a ≡ b = cc in subst P same p
after-done P aborts a e p b e' = cc
after-done P faults a e p b e' = cc

-- `FWS_ASSERT`
abbrev pub assert : Bool → Outcome (Unit {0})
assert true = done tt
assert false = aborts

-- An access to memory, which is undefined out of the block.
abbrev pub access {ℓ} : {A : Type ℓ} → Option A → Outcome A
access none = faults
access (some a) = done a

-- `RequestBuf(n)` with the start position that both programs set.
abbrev pub new_buf : FlashWs → ℕ → IoBuffer
new_buf fws n = record (fws.request_buf n) { start_pos = fws.hdr_size }

-- `memcpy(data + start_pos + size, bytes, n); size += n;`
unfoldable pub append_bytes : IoBuffer → List ℕ → Outcome IoBuffer
append_bytes b bytes = do
  block ← access (write_at b.data_block (b.start_pos + b.size) bytes)
  done (record b { data_block = block; size = b.size + length bytes })

-- The bytes that a buffer holds, which `WriteFrame` sends.
abbrev pub contents : IoBuffer → List ℕ
contents b = take b.size (drop b.start_pos b.data_block)

-- `fws::WS_OPCODE_PONG`
abbrev pub ws_opcode_pong : ℕ
ws_opcode_pong = 10
