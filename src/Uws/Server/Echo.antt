-- ===== src/Uws/Server/Echo.antt =====
-- What the uWebSockets server sends back, and the connections that it counts.
use mathlib.Core.List.{reverse, reverse-cons}
use native.Mathlib.Nat.{add-zero, add_assoc, zero-add}
use ws_benchmark.Prelude.{
  ℕ, ◌+◌, ◌≡◌, refl, ap, ◌∙◌, true, List, [], ◌∷◌, ◌++◌, arith, append_assoc, append-nil,
}
use mathlib.Core.Path.{ap₂}
use ws_benchmark.Prelude.Int.{inc, dec, sub_ℕ, inc-sub_ℕ, dec-sub_ℕ}
use ws_benchmark.Stats.{Clock}
use ws_benchmark.Uws.Server.{
  Globals, Event, open_event, close_event, message_event, start, count_stats, on_open, on_close,
  on_message, step, run,
}

-- The messages of a history, each with its connection and its opcode.
abbrev pub messages : List Event → List (ℕ × ℕ × List ℕ)
messages [] = []
messages (open_event ∷ es) = messages es
messages (close_event ∷ es) = messages es
messages (message_event _ ws op m ∷ es) = (ws, op, m) ∷ messages es

abbrev pub opened : List Event → ℕ
opened [] = 0
opened (open_event ∷ es) = 1 + opened es
opened (close_event ∷ es) = opened es
opened (message_event _ _ _ _ ∷ es) = opened es

abbrev pub closed : List Event → ℕ
closed [] = 0
closed (open_event ∷ es) = closed es
closed (close_event ∷ es) = 1 + closed es
closed (message_event _ _ _ _ ∷ es) = closed es

module _ (clock : Clock) (ws op : ℕ) (m : List ℕ) (g : Globals) where
  sent-on_message : (on_message clock ws op m g).sent ≡ (ws, op, m) ∷ g.sent
  unfolding on_message count_stats
  sent-on_message = ground arith

  active-on_message : (on_message clock ws op m g).active_connections ≡ g.active_connections
  unfolding on_message count_stats
  active-on_message = ground arith

  rows-on_message :
      g.output_fp ≡ true
      → g.rows ≡ g.printed
      → ((on_message clock ws op m g).output_fp ≡ true)
        × ((on_message clock ws op m g).rows ≡ (on_message clock ws op m g).printed)
  unfolding on_message count_stats
  rows-on_message o r = ground arith

run-sent_from : (es : List Event) (g : Globals) → (run es g).sent ≡ reverse (messages es) ++ g.sent
unfolding run step on_open on_close
run-sent_from [] g = refl
run-sent_from (open_event ∷ es) g = run-sent_from es (on_open g)
run-sent_from (close_event ∷ es) g = run-sent_from es (on_close g)
run-sent_from (message_event clock ws op m ∷ es) g =
    run-sent_from es (on_message clock ws op m g)
    ∙ rw (sent-on_message clock ws op m g, reverse-cons (ws, op, m) (messages es), append_assoc)

run-active_from :
    (es : List Event) (g : Globals) (a b : ℕ)
    → g.active_connections ≡ sub_ℕ a b
    → (run es g).active_connections ≡ sub_ℕ (a + opened es) (b + closed es)
unfolding run step on_open on_close
run-active_from [] g a b e = rw (add-zero, add-zero) e
run-active_from (open_event ∷ es) g a b e =
    rw (← add_assoc a 1 (opened es))
      (run-active_from es (on_open g) (a + 1) b (ap inc e ∙ inc-sub_ℕ a b))
run-active_from (close_event ∷ es) g a b e =
    rw (← add_assoc b 1 (closed es))
      (run-active_from es (on_close g) a (b + 1) (ap dec e ∙ dec-sub_ℕ a b))
run-active_from (message_event clock ws op m ∷ es) g a b e =
    run-active_from es (on_message clock ws op m g) a b (active-on_message clock ws op m g ∙ e)

run-rows_from :
    (es : List Event) (g : Globals)
    → g.output_fp ≡ true
    → g.rows ≡ g.printed
    → (run es g).rows ≡ (run es g).printed
unfolding run step on_open on_close
run-rows_from [] g o r = r
run-rows_from (open_event ∷ es) g o r = run-rows_from es (on_open g) o r
run-rows_from (close_event ∷ es) g o r = run-rows_from es (on_close g) o r
run-rows_from (message_event clock ws op m ∷ es) g o r =
    let (o', r') = rows-on_message clock ws op m g o r in
    run-rows_from es (on_message clock ws op m g) o' r'

-- After any history the server has handed back every message it received, unchanged, to the
-- connection it came from, with its opcode and in order; it counts the connections opened less
-- those closed; and with an output file every printed line has its row there.
pub run-sends_back :
    (es : List Event)
    → ((run es (start true)).sent ≡ reverse (messages es))
      × ((run es (start true)).active_connections ≡ sub_ℕ (opened es) (closed es))
      × ((run es (start true)).rows ≡ (run es (start true)).printed)
unfolding start
run-sends_back es = (
  run-sent_from es (start true) ∙ append-nil (reverse (messages es)),
  run-active_from es (start true) 0 0 refl ∙ ap₂ sub_ℕ (zero-add _) (zero-add _),
  run-rows_from es (start true) refl refl,
)
