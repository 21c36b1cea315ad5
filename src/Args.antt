-- ===== src/Args.antt =====
-- The command lines of the programs: `atoi`, `atoll` and `std::to_string` of the C and C++ standard
-- libraries, over texts as lists of their character codes, and the results of the argument checks.
-- The value of `atoi` and `atoll` is exact: out of the range of `int` or `long long`, where C leaves
-- it undefined, it is not cut.
pub mod Decimal
pub mod Server
use ws_benchmark.Prelude.{
  ℕ, zero, suc, ◌+◌, ◌-◌, ◌*◌, ◌/◌, ◌%◌, Bool, ◌&&◌, ◌||◌, List, [], ◌∷◌, leb, ltb, ◌==◌,
  if◌then◌else◌,
}
use ws_benchmark.Prelude.Int.{ℤ, pos, neg}

abbrev pub Text : Type 0
Text = List ℕ

abbrev pub is_digit : ℕ → Bool
is_digit c = leb b'0' c && leb c b'9'

-- `isspace` in the C locale.
abbrev is_space : ℕ → Bool
is_space c = c == 32 || leb 9 c && leb c 13

digits : ℕ → Text → ℕ
digits acc [] = acc
digits acc (c ∷ cs) =
    let rest = digits (acc * 10 + (c - b'0')) cs in if is_digit c then rest else acc

signed : Text → ℤ
signed [] = pos 0
signed (c ∷ cs) =
    if c == b'-'
    then neg (digits 0 cs)
    else if c == b'+'
    then pos (digits 0 cs)
    else pos (digits 0 (c ∷ cs))

unfoldable pub atoi : Text → ℤ
unfolding digits signed
atoi [] = pos 0
atoi (c ∷ cs) = let rest = atoi cs in if is_space c then rest else signed (c ∷ cs)

-- The digits of `n` in front of `acc`, with fuel.
decimal : ℕ → ℕ → Text → Text
decimal zero n acc = acc
decimal (suc fuel) n acc =
    let more = decimal fuel (n / 10) ((b'0' + n % 10) ∷ acc) in
    if ltb n 10 then (b'0' + n) ∷ acc else more

unfoldable pub to_string : ℕ → Text
unfolding decimal
to_string n = decimal (suc n) n []

-- `argv[i]`, where `argc` was checked.
abbrev pub arg : ℕ → List Text → Text
arg i [] = []
arg zero (a ∷ argv) = a
arg (suc i) (a ∷ argv) = arg i argv

-- The exits of the argument checks, named for what they print.
pub data ArgError : Type 0 where
  usage invalid_port invalid_max_msg_len invalid_msg_cnt_per_client : ArgError
  invalid_client_cnt invalid_client_reborn_cnt cannot_create_file : ArgError

pub data Result {ℓ} (A : Type ℓ) : Type ℓ where
  ok : A → Result A
  exits : ArgError → Result A

infixl 5 ◌>>=◌ ◌>>◌
abbrev pub ◌>>=◌ {ℓ κ} : {A : Type ℓ} {B : Type κ} → Result A → (A → Result B) → Result B
ok a >>= f = f a
exits e >>= f = exits e

abbrev pub ◌>>◌ {ℓ} : {B : Type ℓ} → Result (Unit {0}) → Result B → Result B
m >> k = m >>= λ _. k

abbrev pub check : Bool → ArgError → Result (Unit {0})
check Bool.true e = ok tt
check Bool.false e = exits e

-- `if (n <= 0) return -1;`
abbrev pub positive : ℤ → ArgError → Result ℕ
positive (ℤ.pos zero) e = exits e
positive (ℤ.pos (suc n)) e = ok (suc n)
positive (ℤ.negsuc n) e = exits e
