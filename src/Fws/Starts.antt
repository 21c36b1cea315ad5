-- ===== src/Fws/Starts.antt =====
-- How the flashws programs start, src/flashws: what makes `main` and `TestWsClient` stop before the
-- loop.
use ws_benchmark.Prelude.{◌≡◌, refl, Bool, true, false}
use ws_benchmark.Fws.{Outcome, done, aborts, faults}
use ws_benchmark.Args.{ArgError, Result, ok, exits}

pub data Failure : Type 0 where
  bad_argument : ArgError → Failure
  loop_init_failed cannot_create_file socket_init_failed : Failure
  start_listen_failed new_client_failed add_socket_failed : Failure

-- Such a program runs the loop, returns -1, stops by `std::abort` or leaves memory undefined.
pub data Start {ℓ} (A : Type ℓ) : Type ℓ where
  running : A → Start A
  returns : Failure → Start A
  aborted faulted : Start A

infixl 5 ◌>>=◌ ◌>>◌
abbrev pub ◌>>=◌ {ℓ κ} : {A : Type ℓ} {B : Type κ} → Start A → (A → Start B) → Start B
running a >>= f = f a
returns e >>= f = returns e
aborted >>= f = aborted
faulted >>= f = faulted

abbrev pub ◌>>◌ {ℓ} : {B : Type ℓ} → Start (Unit {0}) → Start B → Start B
m >> k = m >>= λ _. k

abbrev pub of_args {ℓ} : {A : Type ℓ} → Result A → Start A
of_args (ok a) = running a
of_args (exits e) = returns (bad_argument e)

abbrev pub or_return : Bool → Failure → Start (Unit {0})
or_return true e = running tt
or_return false e = returns e

abbrev pub or_abort : Bool → Start (Unit {0})
or_abort true = running tt
or_abort false = aborted

abbrev pub of_outcome {ℓ} : {A : Type ℓ} → Outcome A → Start A
of_outcome (done a) = running a
of_outcome aborts = aborted
of_outcome faults = faulted

pub or_return-true : (b : Bool) (e : Failure) → b ≡ true → or_return b e ≡ running tt
or_return-true true e h = refl
or_return-true false e h = cc

pub or_abort-true : (b : Bool) → b ≡ true → or_abort b ≡ running tt
or_abort-true true h = refl
or_abort-true false h = cc
