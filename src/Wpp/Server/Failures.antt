-- ===== src/Wpp/Server/Failures.antt =====
-- What the websocketpp server sends back, and what a `send` that throws leaves behind.
use mathlib.Core.List.{reverse, reverse-cons}
use mathlib.Core.Path.{ap₂}
use native.Mathlib.Nat.{add-zero, add_assoc, zero-add}
use ws_benchmark.Prelude.{
  ℕ, ◌+◌, ◌*◌, ◌^◌, ◌≤◌, ◌<◌, ◌≡◌, refl, ap, sym, ◌∙◌, Bool, true, false, List, [], ◌∷◌, ◌++◌,
  length, arith, append_assoc, append-nil,
}
use ws_benchmark.Prelude.Int.{inc, dec, sub_ℕ, inc-sub_ℕ, dec-sub_ℕ}
use ws_benchmark.Stats.{Clock, Report}
use ws_benchmark.Wpp.Server.{
  Globals, Event, open_event, close_event, message_event, start, is_quiet, count_stats, on_open,
  on_close, on_message, step, run,
}

-- The messages that `send` took, and the number of those that it did not.
abbrev pub delivered : List Event → List (ℕ × ℕ × List ℕ)
delivered [] = []
delivered (open_event ∷ es) = delivered es
delivered (close_event ∷ es) = delivered es
delivered (message_event _ true ws op m ∷ es) = delivered es
delivered (message_event _ false ws op m ∷ es) = (ws, op, m) ∷ delivered es

abbrev pub thrown : List Event → ℕ
thrown [] = 0
thrown (open_event ∷ es) = thrown es
thrown (close_event ∷ es) = thrown es
thrown (message_event _ true _ _ _ ∷ es) = 1 + thrown es
thrown (message_event _ false _ _ _ ∷ es) = thrown es

abbrev pub opened : List Event → ℕ
opened [] = 0
opened (open_event ∷ es) = 1 + opened es
opened (close_event ∷ es) = opened es
opened (message_event _ _ _ _ _ ∷ es) = opened es

abbrev pub closed : List Event → ℕ
closed [] = 0
closed (open_event ∷ es) = closed es
closed (close_event ∷ es) = 1 + closed es
closed (message_event _ _ _ _ _ ∷ es) = closed es

module _ (clock : Clock) (ws op : ℕ) (m : List ℕ) (g : Globals) where
  sent_lem : (on_message clock false ws op m g).sent ≡ (ws, op, m) ∷ g.sent
  unfolding on_message count_stats
  sent_lem = ground arith

  kept_lem : (on_message clock true ws op m g).sent ≡ g.sent
  unfolding on_message
  kept_lem = refl

  failed_lem : (on_message clock false ws op m g).failed ≡ g.failed
  unfolding on_message count_stats
  failed_lem = ground arith

  active_lem :
      (throws : Bool)
      → (on_message clock throws ws op m g).active_connections ≡ g.active_connections
  unfolding on_message count_stats
  active_lem throws = ground arith

run-sent_from : (es : List Event) (g : Globals) → (run es g).sent ≡ reverse (delivered es) ++ g.sent
unfolding run step on_open on_close
run-sent_from [] g = refl
run-sent_from (open_event ∷ es) g = run-sent_from es (on_open g)
run-sent_from (close_event ∷ es) g = run-sent_from es (on_close g)
run-sent_from (message_event clock true ws op m ∷ es) g =
    run-sent_from es (on_message clock true ws op m g)
    ∙ ap (◌++◌ (reverse (delivered es))) (kept_lem clock ws op m g)
run-sent_from (message_event clock false ws op m ∷ es) g =
    run-sent_from es (on_message clock false ws op m g)
    ∙ rw (sent_lem clock ws op m g, reverse-cons (ws, op, m) (delivered es), append_assoc)

run-failed_from : (es : List Event) (g : Globals) → (run es g).failed ≡ g.failed + thrown es
unfolding run step on_open on_close
run-failed_from [] g = rw add-zero
run-failed_from (open_event ∷ es) g = run-failed_from es (on_open g)
run-failed_from (close_event ∷ es) g = run-failed_from es (on_close g)
run-failed_from (message_event clock true ws op m ∷ es) g =
    run-failed_from es (on_message clock true ws op m g)
    ∙ unfold on_message in add_assoc g.failed 1 (thrown es)
run-failed_from (message_event clock false ws op m ∷ es) g =
    run-failed_from es (on_message clock false ws op m g) ∙ rw (failed_lem clock ws op m g)

run-active_from :
    (es : List Event) (g : Globals) (a b : ℕ)
    → g.active_connections ≡ sub_ℕ a b
    → (run es g).active_connections ≡ sub_ℕ (a + opened es) (b + closed es)
unfolding run step on_open on_close
run-active_from [] g a b e = e ∙ ap₂ sub_ℕ (sym (add-zero a)) (sym (add-zero b))
run-active_from (open_event ∷ es) g a b e =
    rw (← add_assoc a 1 (opened es))
      (run-active_from es (on_open g) (a + 1) b (ap inc e ∙ inc-sub_ℕ a b))
run-active_from (close_event ∷ es) g a b e =
    rw (← add_assoc b 1 (closed es))
      (run-active_from es (on_close g) a (b + 1) (ap dec e ∙ dec-sub_ℕ a b))
run-active_from (message_event clock throws ws op m ∷ es) g a b e =
    run-active_from es (on_message clock throws ws op m g) a b
      (active_lem clock ws op m g throws ∙ e)

-- After any history the server has sent back exactly the messages whose `send` did not throw, in
-- order and unchanged, each to the connection it came from, has printed one failure for each of the
-- others, and counts the connections opened less those closed.
pub run-delivers :
    (es : List Event) (max_data_len : ℕ) (fp : Bool)
    → ((run es (start max_data_len fp)).sent ≡ reverse (delivered es))
      × ((run es (start max_data_len fp)).failed ≡ thrown es)
      × ((run es (start max_data_len fp)).active_connections ≡ sub_ℕ (opened es) (closed es))
unfolding start
run-delivers es n fp = (
  run-sent_from es (start n fp) ∙ append-nil (reverse (delivered es)),
  run-failed_from es (start n fp) ∙ zero-add _,
  run-active_from es (start n fp) 0 0 refl ∙ ap₂ sub_ℕ (zero-add _) (zero-add _),
)

-- No printed line stands for more than 0x100000 messages, or for more bytes than the limit
-- `max * 4096` and the one message that passed it.
abbrev Bounded : ℕ → List Report → Type 0
Bounded max [] = Unit {0}
Bounded max (r ∷ lines) =
    (r.recv_msg_cnt ≤ 0x100000) × (r.recv_bytes ≤ max * 4097) × Bounded max lines

pub record Inv (max : ℕ) (g : Globals) : Type 0 where
  pub limit : g.max_data_len ≡ max
  pub few : g.last_interval_recv_msg_cnt < 0x100000
  pub light : g.last_interval_recv_bytes ≤ max * 4096
  pub lines : Bounded max g.printed

-- Every message is within `max` bytes, and no `send` throws.
abbrev IsOrderly : ℕ → List Event → Type 0
IsOrderly max [] = Unit {0}
IsOrderly max (open_event ∷ es) = IsOrderly max es
IsOrderly max (close_event ∷ es) = IsOrderly max es
IsOrderly max (message_event _ throws _ _ m ∷ es) =
    (throws ≡ false) × (length m ≤ max) × IsOrderly max es

on_message-Inv :
    (max : ℕ) (clock : Clock) (ws op : ℕ) (m : List ℕ) (g : Globals)
    → max * 4097 < 2 ^ 64
    → length m ≤ max
    → Inv max g
    → Inv max (on_message clock false ws op m g)
unfolding on_message count_stats is_quiet
on_message-Inv max clock ws op m g small h v = ground arith

run-Inv :
    (max : ℕ) (es : List Event) (g : Globals)
    → max * 4097 < 2 ^ 64
    → IsOrderly max es
    → Inv max g
    → Inv max (run es g)
unfolding run step on_open on_close
run-Inv max [] g small o v = v
run-Inv max (open_event ∷ es) g small o v =
    run-Inv max es (on_open g) small o
      (record { limit = v.limit; few = v.few; light = v.light; lines = v.lines })
run-Inv max (close_event ∷ es) g small o v =
    run-Inv max es (on_close g) small o
      (record { limit = v.limit; few = v.few; light = v.light; lines = v.lines })
run-Inv max (message_event clock true ws op m ∷ es) g small o v = cc (o.0)
run-Inv max (message_event clock false ws op m ∷ es) g small o v =
    run-Inv max es (on_message clock false ws op m g) small o.2
      (on_message-Inv max clock ws op m g small o.1 v)

-- When no `send` throws and no message is longer than `max_data_len`, every printed line stands for
-- at most 0x100000 messages and at most 4097 times `max_data_len` bytes, and what waits for the next
-- line is within 4096 times `max_data_len` bytes and below 0x100000 messages.
pub run-Bounded :
    (max : ℕ) (fp : Bool) (es : List Event)
    → max * 4097 < 2 ^ 64
    → IsOrderly max es
    → Inv max (run es (start max fp))
unfolding start
run-Bounded max fp es small o =
    run-Inv max es (start max fp) small o
      (record { limit = refl; few = omega arith; light = omega arith; lines = tt })
