-- ===== src/Uws/Server/Intervals.antt =====
-- What the printed lines of the uWebSockets server say.
use ws_benchmark.Prelude.{
  ℕ, inl, inr, Bool-cases, ◌+◌, ◌^◌, ◌<◌, ◌≡◌, refl, ap, ◌∙◌, Bool, List, [], ◌∷◌, length, arith,
}
use ws_benchmark.Stats.{Clock, Report}
use ws_benchmark.Stats.Totals.{
  Traffic, Settles, quiet, printed, total, total-Settles, total-add, add, echo_traffic,
  running-echo, zero_traffic, running-AtMost, running, AtMost,
}
use ws_benchmark.Uws.Server.{
  Globals, Event, open_event, close_event, message_event, start, is_quiet, count_stats, on_open,
  on_close, on_message, step, run,
}

-- Between two events less than an interval's worth of messages is counted, every one was sent back,
-- and each line of the output stands for exactly 0x10000 messages each way.
abbrev pub IsFull : List Report → Type 0
IsFull [] = Unit {0}
IsFull (r ∷ lines) =
    (r.recv_msg_cnt ≡ 0x10000)
    × (r.send_msg_cnt ≡ 0x10000)
    × (r.send_bytes ≡ r.recv_bytes)
    × IsFull lines

pub record Inv (g : Globals) : Type 0 where
  pub below : g.last_interval_recv_msg_cnt < 0x10000
  pub echoed : g.last_interval_send_msg_cnt ≡ g.last_interval_recv_msg_cnt
  pub echoed_bytes : g.last_interval_send_bytes ≡ g.last_interval_recv_bytes
  pub full : IsFull g.printed

start-Inv : (fp : Bool) → Inv (start fp)
unfolding start
start-Inv fp = record { below = omega arith; echoed = refl; echoed_bytes = refl; full = tt }

pub on_message-Inv :
    (clock : Clock) (ws op : ℕ) (m : List ℕ) (g : Globals)
    → Inv g
    → Inv (on_message clock ws op m g)
unfolding on_message count_stats is_quiet
on_message-Inv clock ws op m g v = ground arith

step-Inv : (e : Event) (g : Globals) → Inv g → Inv (step e g)
unfolding step on_open on_close
step-Inv open_event g v = ground arith
step-Inv close_event g v = ground arith
step-Inv (message_event clock ws op m) g v = on_message-Inv clock ws op m g v

pub run-Inv : (es : List Event) (g : Globals) → Inv g → Inv (run es g)
unfolding run
run-Inv [] g v = v
run-Inv (e ∷ es) g v = run-Inv es (step e g) (step-Inv e g v)

-- From the start of the server, every printed line reports exactly 0x10000 messages received and as
-- many sent, with equal byte counts, and fewer than 0x10000 messages wait for the next line.
pub run-start-IsFull :
    (es : List Event) (fp : Bool)
    → IsFull (run es (start fp)).printed
      × ((run es (start fp)).last_interval_recv_msg_cnt < 0x10000)
run-start-IsFull es fp = let v = run-Inv es (start fp) (start-Inv fp) in (v.full, v.below)

-- The traffic of the events.
abbrev pub traffic : List Event → Traffic
traffic [] = zero_traffic
traffic (open_event ∷ es) = traffic es
traffic (close_event ∷ es) = traffic es
traffic (message_event _ _ _ m ∷ es) = add (echo_traffic (length m)) (traffic es)

abbrev total_of : Globals → Traffic
total_of g = total g.counters g.printed

count_stats-Settles :
    (clock : Clock) (g : Globals)
    → Settles g.counters g.printed (count_stats clock g).counters (count_stats clock g).printed
unfolding count_stats
count_stats-Settles clock g = elim (Bool-cases (is_quiet g.last_interval_recv_msg_cnt)) [
  | inl e ↦ rw e quiet
  | inr e ↦ rw e (printed clock g.last_msg_size g.active_connections)
]

total-on_message :
    (clock : Clock) (ws op : ℕ) (m : List ℕ) (g : Globals)
    → Inv g
    → (total_of g).recv_bytes + length m < 2 ^ 64
    → total_of (on_message clock ws op m g) ≡ add (total_of g) (echo_traffic (length m))
unfolding on_message
total-on_message clock ws op m g v h =
    total-Settles (count_stats-Settles clock _)
    ∙ total-add g.counters _ (echo_traffic (length m)) g.printed (
        running-echo clock (length m) g.counters (omega (arith, part)) (omega (arith, part))
          (omega arith) (omega arith))
  where
    part : AtMost (running g.counters) (total_of g)
    part = running-AtMost g.counters g.printed

step-total :
    (e : Event) (es : List Event) (g : Globals)
    → Inv g
    → (total_of g).recv_bytes + (traffic (e ∷ es)).recv_bytes < 2 ^ 64
    → add (total_of (step e g)) (traffic es) ≡ add (total_of g) (traffic (e ∷ es))
unfolding step on_open on_close
step-total open_event es g v h = refl
step-total close_event es g v h = refl
step-total (message_event clock ws op m) es g v h =
    ground (arith, total-on_message clock ws op m g v (omega arith))

run-total_from :
    (es : List Event) (g : Globals)
    → Inv g
    → (total_of g).recv_bytes + (traffic es).recv_bytes < 2 ^ 64
    → total_of (run es g) ≡ add (total_of g) (traffic es)
unfolding run
run-total_from [] g v h = ground arith
run-total_from (e ∷ es) g v h =
    let one = step-total e es g v h in
    run-total_from es (step e g) (step-Inv e g v)
      (omega (arith, ap (λ (t : Traffic). t.recv_bytes) one))
    ∙ one

-- Over any history of less than 2^64 received bytes, the printed lines and the running interval
-- together account for exactly the messages and bytes received, and as many sent.
pub run-total :
    (es : List Event) (fp : Bool)
    → (traffic es).recv_bytes < 2 ^ 64
    → total (run es (start fp)).counters (run es (start fp)).printed ≡ traffic es
unfolding start total
run-total es fp h = run-total_from es (start fp) (start-Inv fp) (omega (arith, h)) ∙ ground arith
