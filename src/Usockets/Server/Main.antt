-- ===== src/Usockets/Server/Main.antt =====
-- `main` of src/usockets-tcp/echo_server.cpp with the constants of test_def.h.
use ws_benchmark.Prelude.{◌≡◌, refl, ℕ, Bool, true, false, Option, none, some, List, [], ◌∷◌}
use ws_benchmark.Usockets.Server.{start, on_close, Env, Frame}
use ws_benchmark.Usockets.Server.Loop.Connections.{IsCounted}
use ws_benchmark.Usockets.Server.Loop.Done.{run-Serves}
use ws_benchmark.Usockets.Server.Loop.Table.{AllAllowed, owed_at, entry_by}
use ws_benchmark.Usockets.Server.Loop.{System, Event, run}

-- `SERVER_IP` and `SERVER_PORT`.
pub record ListenOn : Type 0 where
  pub server_ip : List ℕ
  pub server_port : ℕ

abbrev pub listen_on : ListenOn
listen_on = record {
  server_ip = 49 ∷ 48 ∷ 46 ∷ 53 ∷ 46 ∷ 57 ∷ 54 ∷ 46 ∷ 55 ∷ [];
  server_port = 58600;
}

-- The library: whether the certificates load, whether the address can be listened at, what
-- `us_socket_close` does, and the events of the loop.
pub record Library : Type 0 where
  pub create_context : Bool
  pub listens : ListenOn → Bool
  pub close : Frame → Frame
  pub events : List (Env × Event)

-- The handlers are set on a context that may be null, or memory is left in a handler; the address is
-- taken; or the loop has run.
pub data Exit : Type 0 where
  faults failed_to_listen : Exit
  ran : System → Exit

abbrev pub exit_of : Option System → Exit
exit_of none = faults
exit_of (some y) = ran y

unfoldable pub main : Library → Exit
main lib = elim lib.create_context [
  | true ↦ elim (lib.listens listen_on) [
    | true ↦ exit_of (run lib.close lib.events (record { globals = start; sockets = [] }))
    | false ↦ failed_to_listen
  ]
  | false ↦ faults
]

-- A server whose certificates load and that can listen, where every peer waits for its echo before
-- it sends more, and `us_socket_close` makes the close callback once: over any interleaving of its
-- sockets' events `main` runs its loop and no handler touches memory out of a buffer;
-- `active_connections` is the number of open sockets; and each open socket has sent, or holds to be
-- sent, exactly the bytes that its own peer sent since it was opened, in order.
pub main-Serves :
    (lib : Library)
    → lib.create_context ≡ true
    → lib.listens listen_on ≡ true
    → ((f : Frame) → lib.close f ≡ on_close f)
    → AllAllowed lib.close lib.events (record { globals = start; sockets = [] })
    → (z : System) × (main lib ≡ ran z)
      × IsCounted z
      × ((id : ℕ) → owed_at id z.sockets ≡ entry_by id lib.events none)
unfolding main
main-Serves lib context listens closes allowed =
    let (z, runs, counted, owed) = run-Serves lib.close lib.events closes allowed in
    (z, rw (context, listens, runs) refl, counted, owed)
