-- ===== src/Args/Decimal.antt =====
-- A number that is printed by `std::to_string` is read back by `atoi`.
use ws_benchmark.Prelude.{
  ℕ, zero, suc, ◌+◌, ◌*◌, ◌/◌, ◌%◌, ◌<◌, ◌≡◌, ap, ◌∙◌, [], ◌∷◌, true, inl, inr, arith, ltb,
  Bool-cases,
}
use ws_benchmark.Prelude.Int.{pos}
use ws_benchmark.Args.{Text, is_digit, digits, atoi, decimal, to_string}

digits-digit :
    (acc d m : ℕ) (cs : Text)
    → d < 10
    → acc * 10 + d ≡ m
    → digits acc ((b'0' + d) ∷ cs) ≡ digits m cs
unfolding digits
digits-digit acc d m cs h e = rw (← e) (ground arith)

digits-decimal : (fuel n : ℕ) (acc : Text) → n < fuel → digits 0 (decimal fuel n acc) ≡ digits n acc
unfolding decimal
digits-decimal zero n acc h = absurd (omega arith)
digits-decimal (suc fuel) n acc h = elim (Bool-cases (ltb n 10)) [
  | inl small ↦ rw small (digits-digit 0 n n acc (ground arith) (omega arith))
  | inr large ↦ rw large (
      digits-decimal fuel (n / 10) ((b'0' + n % 10) ∷ acc) (ground arith)
      ∙ digits-digit (n / 10) (n % 10) n acc (omega arith) (omega arith))
]

decimal-head :
    (fuel n : ℕ) (acc : Text)
    → n < fuel
    → (c : ℕ) × (cs : Text) × (decimal fuel n acc ≡ c ∷ cs) × (is_digit c ≡ true)
unfolding decimal
decimal-head zero n acc h = absurd (omega arith)
decimal-head (suc fuel) n acc h = elim (Bool-cases (ltb n 10)) [
  | inl small ↦ (b'0' + n, acc, rw small, ground arith)
  | inr large ↦ rw large (decimal-head fuel (n / 10) ((b'0' + n % 10) ∷ acc) (ground arith))
]

atoi-digit : (c : ℕ) (cs : Text) → is_digit c ≡ true → atoi (c ∷ cs) ≡ pos (digits 0 (c ∷ cs))
unfolding atoi
atoi-digit c cs h = ground arith

-- `atoi` of the text that `to_string` prints is the number printed.
pub atoi-to_string : (n : ℕ) → atoi (to_string n) ≡ pos n
unfolding to_string digits
atoi-to_string n =
    let (c, cs, e, d) = decimal-head (suc n) n [] (omega arith) in
    rw e (atoi-digit c cs d) ∙ ap pos (rw e at (digits-decimal (suc n) n [] (omega arith)))
