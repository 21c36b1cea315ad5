-- ===== src/Prelude/Lists.antt =====
-- Lists of bytes, measured and indexed by native numbers, and memory as bounded reads and writes.
use Prim.Native.Nat.{ℕ, zero, suc, ◌+◌, ◌-◌, ◌≤◌, ◌<◌, min}
use mathlib.Core.Path.{◌≡◌, refl, ap, sym, ◌∙◌}
use mathlib.Core.List.{List, [], ◌∷◌, ◌++◌, append_assoc}
use mathlib.Core.Option.{Option, none, some}
use native.Mathlib.Omega.{arith}
use native.Mathlib.Nat.{zero-add, suc-add}
use ws_benchmark.Prelude.Tests.{leb, if◌then◌else◌}

module _ {ℓ} {A : Type ℓ} where
  abbrev pub length : List A → ℕ
  length [] = 0
  length (x ∷ xs) = suc (length xs)

  abbrev pub take : ℕ → List A → List A
  take zero xs = []
  take (suc n) [] = []
  take (suc n) (x ∷ xs) = x ∷ take n xs

  abbrev pub drop : ℕ → List A → List A
  drop zero xs = xs
  drop (suc n) [] = []
  drop (suc n) (x ∷ xs) = drop n xs

  abbrev pub replicate : ℕ → A → List A
  replicate zero a = []
  replicate (suc n) a = a ∷ replicate n a

  pub length-append : (xs ys : List A) → length (xs ++ ys) ≡ length xs + length ys
  length-append [] ys = omega arith
  length-append (x ∷ xs) ys = omega (arith, length-append xs ys)

  pub length-take : (n : ℕ) (xs : List A) → length (take n xs) ≡ min n (length xs)
  length-take zero xs = omega arith
  length-take (suc n) [] = omega arith
  length-take (suc n) (x ∷ xs) = omega (arith, length-take n xs)

  pub length-drop : (n : ℕ) (xs : List A) → length (drop n xs) ≡ length xs - n
  length-drop zero xs = omega arith
  length-drop (suc n) [] = omega arith
  length-drop (suc n) (x ∷ xs) = omega (arith, length-drop n xs)

  pub length-replicate : (n : ℕ) (a : A) → length (replicate n a) ≡ n
  length-replicate zero a = refl
  length-replicate (suc n) a = ap suc (length-replicate n a)

  pub take-append-drop : (n : ℕ) (xs : List A) → take n xs ++ drop n xs ≡ xs
  take-append-drop zero xs = refl
  take-append-drop (suc n) [] = refl
  take-append-drop (suc n) (x ∷ xs) = rw (take-append-drop n xs)

  pub take-append-take : (m n : ℕ) (xs : List A) → take m xs ++ take n (drop m xs) ≡ take (m + n) xs
  take-append-take zero n xs = ap (λ k. take k xs) (sym (zero-add n))
  take-append-take (suc m) zero [] = rw (suc-add m 0) refl
  take-append-take (suc m) (suc n) [] = rw (suc-add m (suc n)) refl
  take-append-take (suc m) n (x ∷ xs) =
      rw (suc-add m n) (ap (λ ys. x ∷ ys) (take-append-take m n xs))

  pub take-all : (n : ℕ) (xs : List A) → length xs ≤ n → take n xs ≡ xs
  take-all zero [] h = refl
  take-all zero (x ∷ xs) h = absurd (omega arith)
  take-all (suc n) [] h = refl
  take-all (suc n) (x ∷ xs) h = rw (take-all n xs (omega arith))

  pub drop-all : (n : ℕ) (xs : List A) → length xs ≤ n → drop n xs ≡ []
  drop-all zero [] h = refl
  drop-all zero (x ∷ xs) h = absurd (omega arith)
  drop-all (suc n) [] h = refl
  drop-all (suc n) (x ∷ xs) h = drop-all n xs (omega arith)

  pub take-append : (xs ys : List A) → take (length xs) (xs ++ ys) ≡ xs
  take-append [] ys = refl
  take-append (x ∷ xs) ys = rw (take-append xs ys)

  pub drop-append : (xs ys : List A) → drop (length xs) (xs ++ ys) ≡ ys
  drop-append [] ys = refl
  drop-append (x ∷ xs) ys = drop-append xs ys

  take-nil : (n : ℕ) → take n [] ≡ []
  take-nil zero = refl
  take-nil (suc n) = refl

  drop-nil : (n : ℕ) → drop n [] ≡ []
  drop-nil zero = refl
  drop-nil (suc n) = refl

  pub drop-drop : (m n : ℕ) (xs : List A) → drop n (drop m xs) ≡ drop (m + n) xs
  drop-drop zero n xs = rw zero-add
  drop-drop (suc m) n [] = rw (drop-nil n, drop-nil (suc m + n))
  drop-drop (suc m) n (x ∷ xs) = rw suc-add (drop-drop m n xs)

  pub drop-take : (m n : ℕ) (xs : List A) → drop m (take (m + n) xs) ≡ take n (drop m xs)
  drop-take zero n xs = rw zero-add
  drop-take (suc m) n [] = rw (take-nil (suc m + n), take-nil n)
  drop-take (suc m) n (x ∷ xs) = rw suc-add (drop-take m n xs)

  pub take-append_of : (n : ℕ) (xs ys : List A) → length xs ≡ n → take n (xs ++ ys) ≡ xs
  take-append_of n xs ys e = rw (← e) (take-append xs ys)

  pub drop-append_le :
      (n : ℕ) (xs ys : List A) → n ≤ length xs → drop n (xs ++ ys) ≡ drop n xs ++ ys
  drop-append_le zero xs ys h = refl
  drop-append_le (suc n) [] ys h = absurd (omega arith)
  drop-append_le (suc n) (x ∷ xs) ys h = drop-append_le n xs ys (omega arith)

module _ {ℓ} {A : Type ℓ} where
  pub drop-append_ge :
      (xs ys : List A) (n m : ℕ) → m ≡ length xs + n → drop m (xs ++ ys) ≡ drop n ys
  drop-append_ge [] ys n m e = rw (e, zero-add)
  drop-append_ge (x ∷ xs) ys n zero e = absurd (omega arith)
  drop-append_ge (x ∷ xs) ys n (suc m) e = drop-append_ge xs ys n m (omega arith)

-- A read of `n` bytes at `off`, and a `memcpy` to `off`; `none` is an access out of the block.
pub read_at : List ℕ → ℕ → ℕ → Option (List ℕ)
read_at block off n = if leb (off + n) (length block) then some (take n (drop off block)) else none

unfoldable pub splice : List ℕ → ℕ → List ℕ → List ℕ
splice block off src = take off block ++ (src ++ drop (off + length src) block)

unfoldable pub write_at : List ℕ → ℕ → List ℕ → Option (List ℕ)
write_at block off src =
    if leb (off + length src) (length block) then some (splice block off src) else none

pub read_at_lem :
    (block : List ℕ) (off n : ℕ)
    → off + n ≤ length block
    → read_at block off n ≡ some (take n (drop off block))
unfolding read_at
read_at_lem block off n h = ground arith

pub write_at_lem :
    (block : List ℕ) (off : ℕ) (src : List ℕ)
    → off + length src ≤ length block
    → write_at block off src ≡ some (splice block off src)
unfolding write_at
write_at_lem block off src h = ground arith

pub write_at_overrun :
    (block : List ℕ) (off : ℕ) (src : List ℕ)
    → length block < off + length src
    → write_at block off src ≡ none
unfolding write_at
write_at_overrun block off src h = ground arith

pub length-splice :
    (block : List ℕ) (off : ℕ) (src : List ℕ)
    → off + length src ≤ length block
    → length (splice block off src) ≡ length block
unfolding splice
length-splice block off src h = omega (
  arith,
  length-append (take off block) (src ++ drop (off + length src) block),
  length-append src (drop (off + length src) block),
  length-take off block,
  length-drop (off + length src) block,
)

-- From `s` on, the `k` bytes before the copy stay, and the copied bytes follow them.
pub take-drop-splice :
    (block : List ℕ) (s k : ℕ) (src : List ℕ)
    → s + k ≤ length block
    → take (k + length src) (drop s (splice block (s + k) src)) ≡ take k (drop s block) ++ src
unfolding splice
take-drop-splice block s k src h =
    rw
      (
        drop-append_le s (take (s + k) block) (src ++ drop (s + k + length src) block)
            (omega (arith, length-take (s + k) block)),
        drop-take s k block,
        ← append_assoc,
      )
      (take-append_of (k + length src) (take k (drop s block) ++ src) _ (
        omega (
          arith,
          length-append (take k (drop s block)) src,
          length-take k (drop s block),
          length-drop s block,
        )))

pub take-splice :
    (block : List ℕ) (off : ℕ) (src : List ℕ)
    → off ≤ length block
    → take (off + length src) (splice block off src) ≡ take off block ++ src
take-splice block off src h =
    ap (λ n. take (off + length src) (splice block n src)) (sym (zero-add off))
    ∙ take-drop-splice block 0 off src (omega (arith, h))

pub take-splice_zero :
    (n : ℕ) (block src : List ℕ) → n ≡ length src → take n (splice block 0 src) ≡ src
unfolding splice
take-splice_zero n block src e = take-append_of n src _ (sym e)

-- A copy that ends at or before `s` is not seen from `s` on.
pub drop-splice :
    (block : List ℕ) (off : ℕ) (src : List ℕ) (s : ℕ)
    → off ≤ length block
    → off + length src ≤ s
    → drop s (splice block off src) ≡ drop s block
unfolding splice
drop-splice block off src s h far =
    drop-append_ge (take off block) _ (s - off) s (omega (arith, length-take off block))
    ∙ drop-append_ge src _ (s - off - length src) (s - off) (omega arith)
    ∙ drop-drop (off + length src) (s - off - length src) block
    ∙ ap (λ n. drop n block) (omega arith)
