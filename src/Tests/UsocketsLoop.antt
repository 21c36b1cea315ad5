-- ===== src/Tests/UsocketsLoop.antt =====
-- `main` of the TCP echo server at a concrete history: two sockets, a message, and the end of one.
use Prim.Native.Nat.{min}
use ws_benchmark.Prelude.{
  find, ℕ, ◌≡◌, refl, true, false, Option, none, some, List, [], ◌∷◌, length, replicate, arith,
}
use mathlib.Core.Path.{subst}
use ws_benchmark.Prelude.Int.{pos}
use ws_benchmark.Usockets.Server.{EchoSocket, Env, start, on_open, on_close}
use ws_benchmark.Usockets.Server.Owed.{IsReady}
use ws_benchmark.Usockets.Server.Loop.{
  System, Event, open_event, data_event, writable_event, end_event, step,
}
use ws_benchmark.Usockets.Server.Loop.Connections.{IsCounted}
use ws_benchmark.Usockets.Server.Loop.Table.{AllAllowed, owed_at, entry_by}
use ws_benchmark.Usockets.Server.Main.{Library, main, ran, main-Serves}

abbrev by_ten : Env
by_ten = record {
  write = λ xs. min 10 (length xs);
  clock = record { start_ns = 5; now_ns = 7; printed_ns = 8 };
}

-- What the memory of a new socket holds.
abbrev fresh : EchoSocket
fresh = record {
  buf = record { data_block = replicate 64 7; start_pos = 9; size = 9 };
  active_conns_in_ctx = pos 0;
  sent = [];
  is_shut_down = false;
}

abbrev rest : List (Env × Event)
rest =
    (by_ten, data_event 3 (replicate 24 1))
    ∷ (by_ten, writable_event 3)
    ∷ (by_ten, end_event 4)
    ∷ []

abbrev library : Library
library = record {
  create_context = true;
  listens = λ at. true;
  close = on_close;
  events = (by_ten, open_event 3 fresh) ∷ (by_ten, open_event 4 fresh) ∷ rest;
}

abbrev result_of : System → Option System → System
result_of default none = default
result_of default (some y) = y

after-some :
    (P : System → Type 0) (r : Option System) (a : System)
    → r ≡ some a
    → P a
    → (b : System) → r ≡ some b
    → P b
after-some P none a e p b e' = cc
after-some P (some x) a e p b e' = let same : a ≡ b = cc in subst P same p

abbrev begin : System
begin = record { globals = start; sockets = [] }

abbrev one_open : System
one_open = result_of begin (step on_close by_ten (open_event 3 fresh) begin)

abbrev two_open : System
two_open = result_of one_open (step on_close by_ten (open_event 4 fresh) one_open)

ready : (s : EchoSocket) → find 3 two_open.sockets ≡ some s → IsReady s 24
unfolding find step on_open
ready s found = ground arith

allowed : AllAllowed on_close library.events begin
unfolding step find on_open
allowed = (
  (refl, refl, refl),
  after-some (λ y. AllAllowed on_close ((by_ten, open_event 4 fresh) ∷ rest) y)
      (step on_close by_ten (open_event 3 fresh) begin) one_open refl
      (
        (refl, refl, refl),
        after-some (λ y. AllAllowed on_close rest y)
            (step on_close by_ten (open_event 4 fresh) one_open) two_open refl
            ((λ xs. omega arith, ready), λ _ _. (λ xs. omega arith, λ _ _. (tt, λ _ _. tt))),
      ),
)

main-Serves_example :
    (z : System) × (main library ≡ ran z)
    × IsCounted z
    × ((id : ℕ) → owed_at id z.sockets ≡ entry_by id library.events none)
main-Serves_example = main-Serves library refl refl (λ f. refl) allowed
