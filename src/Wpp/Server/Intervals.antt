-- ===== src/Wpp/Server/Intervals.antt =====
-- When the websocketpp server prints, and what its lines add up to.
use ws_benchmark.Prelude.{
  ℕ, ◌≡◌, refl, ◌∙◌, inl, inr, Bool, true, false, List, [], ◌∷◌, length, arith, Bool-cases,
}
use ws_benchmark.Stats.{Clock}
use ws_benchmark.Stats.Totals.{
  Traffic, Settles, quiet, printed, total, total-Settles, total-add, add, echo_traffic,
  recv_traffic, zero_traffic, running-echo, running-recv, running-AtMost, running, AtMost, Fits,
}
use ws_benchmark.Wpp.Server.{
  Globals, Event, open_event, close_event, message_event, start, is_quiet, count_stats, on_open,
  on_close, on_message, step, run,
}

-- The traffic of a history: a message whose `send` throws is received and not sent.
abbrev pub traffic : List Event → Traffic
traffic [] = zero_traffic
traffic (open_event ∷ es) = traffic es
traffic (close_event ∷ es) = traffic es
traffic (message_event _ true _ _ m ∷ es) = add (recv_traffic (length m)) (traffic es)
traffic (message_event _ false _ _ m ∷ es) = add (echo_traffic (length m)) (traffic es)

abbrev total_of : Globals → Traffic
total_of g = total g.counters g.printed

count_stats-Settles :
    (clock : Clock) (g : Globals)
    → Settles g.counters g.printed (count_stats clock g).counters (count_stats clock g).printed
unfolding count_stats
count_stats-Settles clock g = elim (Bool-cases (is_quiet g)) [
  | inl e ↦ rw e quiet
  | inr e ↦ rw e (printed clock g.last_msg_size g.active_connections)
]

module _ (clock : Clock) (ws op : ℕ) (m : List ℕ) (g : Globals) where
  part : AtMost (running g.counters) (total_of g)
  part = running-AtMost g.counters g.printed

  total-thrown :
      Fits (add (total_of g) (recv_traffic (length m)))
      → total_of (on_message clock true ws op m g) ≡ add (total_of g) (recv_traffic (length m))
  unfolding on_message
  total-thrown f =
      total-add g.counters _ (recv_traffic (length m)) g.printed
        (running-recv clock (length m) g.counters (omega (arith, part)) (omega (arith, part)))

  total-sent :
      Fits (add (total_of g) (echo_traffic (length m)))
      → total_of (on_message clock false ws op m g) ≡ add (total_of g) (echo_traffic (length m))
  unfolding on_message
  total-sent f =
      total-Settles (count_stats-Settles clock _)
      ∙ total-add g.counters _ (echo_traffic (length m)) g.printed (
          running-echo clock (length m) g.counters (omega (arith, part)) (omega (arith, part))
            (omega (arith, part)) (omega (arith, part)))

step-total :
    (e : Event) (es : List Event) (g : Globals)
    → Fits (add (total_of g) (traffic (e ∷ es)))
    → add (total_of (step e g)) (traffic es) ≡ add (total_of g) (traffic (e ∷ es))
unfolding step on_open on_close
step-total open_event es g f = refl
step-total close_event es g f = refl
step-total (message_event clock true ws op m) es g f =
    ground (arith, total-thrown clock ws op m g (omega (arith, f)))
step-total (message_event clock false ws op m) es g f =
    ground (arith, total-sent clock ws op m g (omega (arith, f)))

run-thrown_total_from :
    (es : List Event) (g : Globals)
    → Fits (add (total_of g) (traffic es))
    → total_of (run es g) ≡ add (total_of g) (traffic es)
unfolding run
run-thrown_total_from [] g f = ground arith
run-thrown_total_from (e ∷ es) g f =
    let one = step-total e es g f in run-thrown_total_from es (step e g) (rw one f) ∙ one

-- Over any history whose traffic fits the 64-bit counters, failed sends included, the printed lines
-- and the running interval together account for exactly the messages and bytes received, and for
-- exactly those that were sent.
pub run-thrown_total :
    (es : List Event) (max_data_len : ℕ) (fp : Bool)
    → Fits (traffic es)
    → total (run es (start max_data_len fp)).counters (run es (start max_data_len fp)).printed
      ≡ traffic es
unfolding start total
run-thrown_total es n fp f = run-thrown_total_from es (start n fp) (omega (arith, f)) ∙ ground arith
