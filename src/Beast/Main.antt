-- ===== src/Beast/Main.antt =====
-- `main` of src/boost-beast/echo_server.cpp: the command line, the endpoint and the threads.
use Prim.Native.Nat.{max}
use ws_benchmark.Args.{to_string}
use ws_benchmark.Args.Decimal.{atoi-to_string}
use ws_benchmark.Prelude.{
  ◌^◌, ◌<◌, if◌then◌else◌, ap, ℕ, zero, suc, ◌+◌, ◌-◌, ◌%◌, ◌≡◌, Bool, true, not, List, [], ◌∷◌,
  length, ◌==◌, arith, if◌then◌else◌,
}
use ws_benchmark.Prelude.Int.{ℤ, pos, negsuc}
use ws_benchmark.Args.{Text, arg, atoi}
use ws_benchmark.Beast.Listener.{Acceptor, Listener, listener, start}

pub record Endpoint : Type 0 where
  pub address : Text
  pub port : ℕ  -- unsigned short

-- `static_cast<unsigned short>`
to_u16 : ℤ → ℕ
to_u16 (pos n) = n % 65536
to_u16 (negsuc n) = 65535 - n % 65536

-- `std::max<int>(1, n)`
at_least_one : ℤ → ℕ
at_least_one (pos zero) = 1
at_least_one (pos (suc n)) = suc n
at_least_one (negsuc n) = 1

-- The loop `for (auto i = threads - 1; i > 0; --i)`: the threads that it starts.
emplace : ℕ → ℕ → ℕ
emplace zero started = started
emplace (suc i) started = emplace i (suc started)

-- How `main` ends: it refuses the command line, `make_address` throws, or the service runs.
pub data Exit : Type 0 where
  exit_failure thrown : Exit
  runs : Endpoint → Listener → ℕ → Exit  -- the threads that call `ioc.run`

-- The service on so many threads, this one included.
serve : Acceptor → Endpoint → ℕ → Exit
serve acceptor endpoint threads =
    runs endpoint (start (listener acceptor)) (emplace (threads - 1) 0 + 1)

-- `make_address` says whether the address can be read.
pub main : (Text → Bool) → Acceptor → List Text → Exit
main make_address acceptor argv =
    if not (length argv == 4)
    then exit_failure
    else if make_address (arg 1 argv)
    then serve acceptor (record { address = arg 1 argv; port = to_u16 (atoi (arg 2 argv)) })
        (at_least_one (atoi (arg 3 argv)))
    else thrown

emplace-adds : (i started : ℕ) → emplace i started ≡ i + started
unfolding emplace
emplace-adds zero started = omega arith
emplace-adds (suc i) started = omega (arith, emplace-adds i (suc started))

at_least_one-max : (n : ℕ) → at_least_one (pos n) ≡ max 1 n
unfolding at_least_one
at_least_one-max zero = omega arith
at_least_one-max (suc n) = omega arith

-- With an address that can be read, and a port and a number of threads in decimal, both within `int`,
-- the server listens
-- at that port modulo 65536, on that many threads, and on one if zero are asked for; the listener
-- starts whether or not its set-up succeeded.
pub main-to_string :
    (make_address : Text → Bool) (acceptor : Acceptor) (program address : Text) (p n : ℕ)
    → p < 2 ^ 31
    → n < 2 ^ 31
    → make_address address ≡ true
    → main make_address acceptor (program ∷ address ∷ to_string p ∷ to_string n ∷ [])
      ≡ runs (record { address = address; port = p % 65536 }) (start (listener acceptor)) (max 1 n)
unfolding main serve to_u16
main-to_string make_address acceptor program address p n port_is_int threads_is_int h =
    rw (h, atoi-to_string p, atoi-to_string n, at_least_one-max n, emplace-adds (max 1 n - 1) 0)
      (ap (λ k. runs (record { address = address; port = p % 65536 }) (start (listener acceptor)) k)
        (omega arith))
