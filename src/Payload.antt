-- ===== src/Payload.antt =====
-- The message that the clients send, src/flashws/echo_client.cpp and src/uwebsockets/echo_client.cpp.
use ws_benchmark.Prelude.{ℕ, zero, suc, ◌+◌, ◌%◌, ◌≡◌, refl, ap, List, [], ◌∷◌, length}

-- `rand() % 10 + '0'`, `n` times, the `i`-th value of `rand` first.
unfoldable pub random_digits : (ℕ → ℕ) → ℕ → ℕ → List ℕ
random_digits rand i zero = []
random_digits rand i (suc n) = (rand i % 10 + 48) ∷ random_digits rand (suc i) n

pub length-random_digits : (rand : ℕ → ℕ) (i n : ℕ) → length (random_digits rand i n) ≡ n
unfolding random_digits
length-random_digits rand i zero = refl
length-random_digits rand i (suc n) = ap suc (length-random_digits rand (suc i) n)
