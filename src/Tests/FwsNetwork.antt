-- ===== src/Tests/FwsNetwork.antt =====
-- The two flashws programs on a network at concrete inputs: the one client opens a connection, the
-- server reads its message, and the client its echo.
use mathlib.Core.Path.{subst}
use ws_benchmark.Prelude.{
  length, take, ◌++◌, replace, ℕ, ◌≡◌, refl, Option, some, true, false, List, [], ◌∷◌, arith, find,
  write_at, splice,
}
use ws_benchmark.Fws.{Outcome, done, aborts, faults, append_bytes, after-done}
use ws_benchmark.Fws.Client.{new_ws_client, Context}
use ws_benchmark.Fws.Client.Callbacks.{write_first_msg, write_message}
use ws_benchmark.Fws.Client.Callbacks.Echo.{IsFine, received_after}
use ws_benchmark.Fws.Client.Loop.Launch.{slots_of}
use ws_benchmark.Fws.Client
use ws_benchmark.Fws.Server
use ws_benchmark.Fws.Server.Assembly.{View}
use ws_benchmark.Fws.Server.Loop.{connects, reads, started}
use ws_benchmark.Fws.Server.Main.{buf_size}
use ws_benchmark.Fws.Exchange.{IsCarried, moved, nth_sent, payloads}
use ws_benchmark.Fws.Network.{
  client_heard, Network, start_position, Event, serves, opens, hears, step, run, peer_of, relink,
  link_of, all_heard, server_heard,
}
use ws_benchmark.Fws.Network.Works.{AllBrought}
use ws_benchmark.Fws.Network.Launch.{
  links_of, both_started, Serves, launch-Serves, launch-Completes,
}
use ws_benchmark.Fws.Network.Leads.{Completes}
use ws_benchmark.Tests.Fws.{server_env}
use ws_benchmark.Tests.Fws
use ws_benchmark.Tests.FwsClient.{up, boot, argv, args, lib, config, env, part}
use ws_benchmark.Tests.FwsLoop.{fleet}
use ws_benchmark.Tests.FwsLoop

abbrev one_step : Event → Network → Outcome Network
one_step e n = step lib config lib.fws 5 e n

abbrev after : Event → Network → Network
after e n = elim (one_step e n) [ done z ↦ z | aborts ↦ n | faults ↦ n ]

abbrev two_digits : List ℕ
two_digits = 48 ∷ 55 ∷ []

abbrev connecting : Event
connecting = serves server_env (connects 7)

abbrev opening : Event
opening = opens 0 7 env

abbrev reading : Event
reading = serves server_env (reads 7 (Fws.part 2 two_digits true))

abbrev hearing : Event
hearing = hears 0 env (part two_digits true)

abbrev accepted : Network
accepted = after connecting (both_started fleet true)

abbrev connected : Network
connected = after opening accepted

abbrev echoed : Network
echoed = after reading connected

abbrev events : List Event
events = connecting ∷ opening ∷ reading ∷ hearing ∷ []

abbrev Brought : List Event → Network → Type 0
Brought = AllBrought lib config two_digits lib.fws 3

fine : IsFine env
unfolding new_ws_client
fine = record { writes = refl; connects = refl; adds = refl }

one_entry : {o : Option View} {w v : View} → o ≡ some w → o ≡ some v → w ≡ v
one_entry e f = cc

hearing-Brought : Brought (hearing ∷ []) echoed
unfolding started step links_of slots_of relink link_of all_heard server_heard peer_of find
    Client.Loop.step Server.Loop.step Client.Loop.handle Client.Loop.settle Client.Loop.status_after
    write_first_msg write_message moved nth_sent payloads Server.on_read Server.on_data_part
    Server.echo_message Server.count_stats Server.is_quiet append_bytes write_at splice
    Server.on_new_connection replace
hearing-Brought = (
  (
    fine,
    λ v there.
        subst (λ w. IsCarried (payloads w.echoed) start_position false true two_digits)
          (one_entry {w = record { collected = []; echoed = (2, two_digits) ∷ [] }} refl there)
          (record {
            message = λ _. two_digits;
            was_sent = λ _. refl;
            next = λ _. refl;
            whole = λ _ _. refl;
          }),
    λ c. cc,
    refl,
  ),
  λ _ _. tt,
)

reading-Brought : Brought (reading ∷ hearing ∷ []) connected
unfolding started step links_of slots_of relink link_of all_heard server_heard peer_of find
    Client.Loop.step Server.Loop.step Client.Loop.handle Client.Loop.settle Client.Loop.status_after
    write_first_msg write_message moved nth_sent payloads Server.on_read Server.on_data_part
    Server.echo_message Server.count_stats Server.is_quiet append_bytes write_at splice
    Server.on_new_connection replace
reading-Brought = (
  (
    refl,
    record {
      message = λ _. two_digits;
      was_sent = λ _. refl;
      next = λ _. refl;
      whole = λ _ _. refl;
    },
    λ c. cc,
  ),
  after-done (Brought (hearing ∷ [])) (one_step reading connected) echoed refl hearing-Brought,
)

opening-Brought : Brought (opening ∷ reading ∷ hearing ∷ []) accepted
unfolding started step links_of slots_of relink link_of all_heard server_heard peer_of find
    Client.Loop.step Server.Loop.step Client.Loop.handle Client.Loop.settle Client.Loop.status_after
    write_first_msg write_message moved nth_sent payloads Server.on_read Server.on_data_part
    Server.echo_message Server.count_stats Server.is_quiet append_bytes write_at splice
    Server.on_new_connection replace
opening-Brought = (
  (refl, refl, refl, refl),
  after-done (Brought (reading ∷ hearing ∷ [])) (one_step opening accepted) connected refl
      reading-Brought,
)

events-Brought : Brought events (both_started fleet true)
unfolding started step links_of slots_of relink link_of all_heard server_heard peer_of find
    Client.Loop.step Server.Loop.step Client.Loop.handle Client.Loop.settle Client.Loop.status_after
    write_first_msg write_message moved nth_sent payloads Server.on_read Server.on_data_part
    Server.echo_message Server.count_stats Server.is_quiet append_bytes write_at splice
    Server.on_new_connection replace
events-Brought = (
  refl,
  after-done (Brought (opening ∷ reading ∷ hearing ∷ []))
      (one_step connecting (both_started fleet true)) accepted refl opening-Brought,
)

launch-Serves_example :
    Serves lib boot args lib.fws 3
      (run lib config lib.fws (buf_size 3 2) events (both_started fleet true))
launch-Serves_example =
    launch-Serves lib boot 0 argv args fleet lib.fws Fws.boot Fws.argv Fws.args events up
      FwsLoop.started (omega arith) (omega arith) Fws.started (omega arith) (omega arith)
      (omega arith) events-Brought

launch-Completes_example :
    Completes lib config lib.fws
      (buf_size 3 2)
      3
      (run lib config lib.fws (buf_size 3 2) events (both_started fleet true))
launch-Completes_example =
    launch-Completes lib boot 0 argv args fleet lib.fws Fws.boot Fws.argv Fws.args events up
      FwsLoop.started (omega arith) (omega arith) Fws.started (omega arith) (omega arith)
      (omega arith) events-Brought

-- The whole run: two messages of the client and two of the one that replaces it, on a connection of
-- its own. The row has four round trips, and the eight bytes of each direction.
abbrev reading_8 : Event
reading_8 = serves server_env (reads 8 (Fws.part 2 two_digits true))

abbrev all_events : List Event
all_events =
    connecting
    ∷ opening
    ∷ reading
    ∷ hearing
    ∷ reading
    ∷ hearing
    ∷ serves server_env (connects 8)
    ∷ opens 0 8 env
    ∷ reading_8
    ∷ hearing
    ∷ reading_8
    ∷ hearing
    ∷ []

abbrev rows_of : Outcome Network → List (ℕ × ℕ × ℕ)
rows_of (done z) = elim z.client.ctx.rows [
  | [] ↦ []
  | row ∷ rows ↦ (row.msg_size, row.bytes_sum, length row.round_trips) ∷ []
]
rows_of aborts = []
rows_of faults = []

whole_run :
    rows_of (run lib config lib.fws (buf_size 3 2) all_events (both_started fleet true))
    ≡ (2, 16, 4) ∷ []
unfolding started step run links_of slots_of relink link_of all_heard server_heard peer_of find
    client_heard Client.Loop.step Server.Loop.step Client.Loop.handle Client.Loop.settle
    Client.Loop.status_after write_first_msg write_message moved nth_sent payloads
    Client.Callbacks.on_read Client.Callbacks.on_data_part Client.Callbacks.on_echo
    Client.Callbacks.retire Client.Callbacks.after_close Client.Callbacks.check_hash Client.on_close
    Client.end_client Client.write_row new_ws_client received_after buf_size Server.on_read
    Server.on_data_part Server.echo_message Server.count_stats Server.is_quiet append_bytes write_at
    splice Server.on_new_connection replace
whole_run = refl

-- The events of the last echo, where `Close` does not count the socket that closes any more: the
-- client is told to end twice.
abbrev env_none : Client.Env
env_none = record env { socket_count = 0 }

whole_run-ends_twice :
    run lib config lib.fws
      (buf_size 3 2)
      (take 11 all_events ++ (hears 0 env_none (part two_digits true) ∷ []))
      (both_started fleet true)
    ≡ faults
unfolding started step run links_of slots_of relink link_of all_heard server_heard peer_of find
    client_heard Client.Loop.step Server.Loop.step Client.Loop.handle Client.Loop.settle
    Client.Loop.status_after write_first_msg write_message moved nth_sent payloads
    Client.Callbacks.on_read Client.Callbacks.on_data_part Client.Callbacks.on_echo
    Client.Callbacks.retire Client.Callbacks.after_close Client.Callbacks.check_hash Client.on_close
    Client.end_client Client.write_row new_ws_client received_after buf_size Server.on_read
    Server.on_data_part Server.echo_message Server.count_stats Server.is_quiet append_bytes write_at
    splice Server.on_new_connection replace
whole_run-ends_twice = refl
