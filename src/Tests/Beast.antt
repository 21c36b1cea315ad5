-- ===== src/Tests/Beast.antt =====
-- The Boost.Beast server at concrete inputs.
use ws_benchmark.Prelude.{◌≤◌, ◌+◌, ◌≡◌, refl, true, false, List, [], ◌∷◌, length, arith}
use ws_benchmark.Args.{to_string}
use ws_benchmark.Beast.{
  success, other, Message, Session, Step, Reaches, run, on_run, on_accept, on_read, on_write,
  receive, do_read, consume, ErrorCode,
}
use ws_benchmark.Beast.Echo.{Sound, Reaches-Sound}
use ws_benchmark.Beast.Listener.{
  Acceptor, Listener, do_accept, accepts, start, listener, count_success, accepts-listens,
}
use ws_benchmark.Beast.Listener
use ws_benchmark.Beast.Server.{Serves, tagged, AllSound, Serves-Sound}
use ws_benchmark.Beast.Main.{main, runs, main-to_string}

abbrev hello : Message
hello = record { got_text = true; payload = 104 ∷ 105 ∷ [] }

-- A message comes in and is written back, then the connection fails.
abbrev after_read : Session
after_read = on_read success true (receive hello.payload (on_accept success (on_run run)))

abbrev ended : Session
ended = on_read other false (receive [] (on_write success after_read))

ended_reached : Reaches (hello ∷ []) ended
unfolding on_run run on_accept on_write on_read receive do_read consume
ended_reached =
    Reaches.steps
      (Reaches.steps
        (Reaches.steps
          (Reaches.steps (Reaches.steps Reaches.started (Step.run_step run refl))
            (Step.accept_step success (on_run run) refl))
          (Step.read_step hello (on_accept success (on_run run)) refl))
        (Step.write_step success after_read refl))
      (Step.read_fails other [] false (on_write success after_read) refl (ground arith))

ended-Sound : Sound (hello ∷ []) ended
ended-Sound = Reaches-Sound ended_reached

-- The address is in use.
abbrev in_use : Acceptor
in_use = record { open_ec = success; set_option_ec = success; bind_ec = other; listen_ec = success }

abbrev completions : List ErrorCode
completions = success ∷ other ∷ success ∷ []

accepts-listens_example :
    ((accepts completions (start (listener in_use))).accepting ≡ true)
    × (length (accepts completions (start (listener in_use))).sessions ≡ count_success completions)
    × (length completions
        ≤ length (accepts completions (start (listener in_use))).sessions
          + length (accepts completions (start (listener in_use))).failures)
    × (length (accepts completions (start (listener in_use))).sessions
          + length (accepts completions (start (listener in_use))).failures
        ≤ length completions + 1)
accepts-listens_example = accepts-listens in_use completions

-- Two clients: the second one's message comes in while the first one's handshake is under way.
abbrev waiting : Session
waiting = on_accept success (on_run run)

abbrev state : List Session → Listener
state sessions = record (start (listener in_use)) { sessions = sessions }

two_serve : Serves in_use ((1, hello) ∷ []) (state (after_read ∷ on_run run ∷ []))
unfolding start listener do_accept Listener.on_accept on_run run on_accept do_read on_read receive
    tagged
two_serve =
    Serves.stepped [] (on_run run ∷ [])
      (Serves.stepped [] (on_run run ∷ [])
        (Serves.stepped [] (on_run run ∷ [])
          (Serves.stepped (run ∷ []) []
            (Serves.accepted success (Serves.accepted success Serves.started refl) refl) refl
            (Step.run_step run refl))
          refl (Step.run_step run refl))
        refl (Step.accept_step success (on_run run) refl))
      refl (Step.read_step hello waiting refl)

Serves-Sound_example :
    ((state (after_read ∷ on_run run ∷ [])).accepting ≡ true)
    × AllSound ((1, hello) ∷ []) (after_read ∷ on_run run ∷ [])
Serves-Sound_example = Serves-Sound two_serve

-- Port 65616 is port 80.
main-to_string_example :
    main (λ address. true) in_use ((115 ∷ []) ∷ (49 ∷ []) ∷ to_string 65616 ∷ to_string 0 ∷ [])
    ≡ runs (record { address = 49 ∷ []; port = 80 }) (start (listener in_use)) 1
main-to_string_example =
    main-to_string (λ address. true) in_use (115 ∷ []) (49 ∷ []) 65616 0 (omega arith) (omega arith)
      refl
