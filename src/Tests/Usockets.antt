-- ===== src/Tests/Usockets.antt =====
-- The TCP echo server at concrete inputs: a socket that takes ten bytes at a time.
use Prim.Native.Nat.{min}
use ws_benchmark.Prelude.{
  ℕ, ◌+◌, ◌≡◌, refl, some, List, [], ◌∷◌, length, replicate, inc64, arith, false,
}
use ws_benchmark.Prelude.Int.{pos}
use ws_benchmark.Stats.{Clock}
use ws_benchmark.Usockets.Server.{EchoSocket, Env, Frame, start, on_data, on_writable, is_quiet}
use ws_benchmark.Usockets.Server.Owed.{IsWriter, echoed}
use ws_benchmark.Usockets.Server.Echo.{Echoes}
use ws_benchmark.Usockets.Server.History.{
  Event, bytes_event, writable_event, received, run, run-Echoes, run-flushes, AreLive,
  writable_events,
}
use ws_benchmark.Usockets.Server.Hazards.{on_data-drops, on_data-misplaced, on_writable-counts}

abbrev clock : Clock
clock = record { start_ns = 5; now_ns = 7; printed_ns = 8 }

abbrev by_ten : Env
by_ten = record { write = λ xs. min 10 (length xs); clock = clock }

abbrev whole : List ℕ
whole = replicate 64 1

abbrev socket_with : ℕ → ℕ → EchoSocket
socket_with start_pos size = record {
  buf = record { data_block = replicate 64 0; start_pos = start_pos; size = size };
  active_conns_in_ctx = pos 1;
  sent = [];
  is_shut_down = false;
}

abbrev frame_with : ℕ → ℕ → Frame
frame_with start_pos size = record { globals = start; socket = socket_with start_pos size }

abbrev history : List (Env × Event)
history =
    (by_ten, bytes_event (replicate 24 1))
    ∷ (by_ten, writable_event)
    ∷ (by_ten, writable_event)
    ∷ (by_ten, writable_event)
    ∷ []

ten_taken : IsWriter by_ten
ten_taken xs = omega arith

run-Echoes_example : Echoes (run history (frame_with 0 40)) (socket_with 0 40) (received history)
run-Echoes_example =
    run-Echoes history (frame_with 0 40)
      (
        ten_taken,
        record { idle = refl; fits = omega arith },
        λ _ _. (ten_taken, tt, λ _ _. (ten_taken, tt, λ _ _. (ten_taken, tt, λ _ _. tt))),
      )
      (record { block = refl; room = omega arith })

abbrev turns : List Env
turns = replicate 4 by_ten

turns-AreLive : AreLive turns
turns-AreLive = omega arith

run-flushes_example :
    (g : Frame) × (run (writable_events turns) (frame_with 3 4) ≡ some g)
    × (g.socket.buf.size ≡ 0)
    × (g.socket.sent ≡ replicate 4 0)
run-flushes_example =
    run-flushes turns (frame_with 3 4) turns-AreLive (record { block = refl; room = omega arith })
      (omega arith)

on_data-drops_example :
    (g : Frame) × (on_data by_ten whole (frame_with 0 40) ≡ some g)
    × (length (echoed g.socket) + 40 ≡ length (echoed (socket_with 0 40)) + length whole)
on_data-drops_example =
    on_data-drops by_ten whole (frame_with 0 40) ten_taken
      (record { block = refl; room = omega arith }) refl refl (omega arith)

on_data-misplaced_example :
    (g h : Frame) × (on_data by_ten (replicate 5 1) (frame_with 50 4) ≡ some g)
    × (on_data by_ten (replicate 5 2) (frame_with 50 4) ≡ some h)
    × (echoed g.socket ≡ echoed h.socket)
on_data-misplaced_example =
    on_data-misplaced by_ten (replicate 5 1) (replicate 5 2) (frame_with 50 4)
      (record { block = refl; room = omega arith }) refl (omega arith) (omega arith)

on_writable-counts_example :
    (g : Frame) × (on_writable by_ten (frame_with 0 0) ≡ some g)
    × (g.socket.sent ≡ [])
    × (g.globals.last_interval_send_msg_cnt ≡ inc64 0)
unfolding start
on_writable-counts_example =
    on_writable-counts by_ten (frame_with 0 0) ten_taken
      (record { block = refl; room = omega arith }) refl (unfold is_quiet in refl)
