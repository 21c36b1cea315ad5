-- ===== src/Uws/Client/Rounds.antt =====
-- What the uWebSockets client sends and reports over a connection.
use mathlib.Core.Logic.{◌↔◌}
use native.Mathlib.Nat.{add-zero}
use ws_benchmark.Prelude.{
  if◌then◌else◌, ltb, ap, ◌∙◌, ℕ, zero, suc, ◌+◌, ◌≤◌, ◌<◌, ◌≡◌, refl, List, [], ◌∷◌, length, arith,
}
use ws_benchmark.Prelude.Int.{ℤ, pos, negsuc}
use ws_benchmark.Args.{Text, ok, arg, atoi}
use ws_benchmark.Uws.Client.{
  Event, message_event, drain_event, ping_event, pong_event, close_event, ClientArgs, client_args,
  first_msg, op_text, Client, Message, on_open, is_last, on_message, run, step, Event, on_drain,
  message_event, ping_event, on_ping, pong_event, on_pong, on_close,
}

-- The echoes of `ms`, the last one first, before what was sent earlier.
pub echoes : List Message → List (ℕ × List ℕ) → List (ℕ × List ℕ)
echoes [] sent = sent
echoes (m ∷ ms) sent = echoes ms ((m.op_code, m.payload) ∷ sent)

-- How many reports there are after `n` messages, if there may be one at `max`.
pub reports_at : ℤ → ℕ → ℕ
reports_at (pos zero) n = 0
reports_at (pos (suc m)) n = if ltb m n then 1 else 0
reports_at (negsuc m) n = 0

record Counts (a : ClientArgs) (c : Client) : Type 0 where
  pub reported : length c.reports ≡ reports_at a.max_msg_cnt c.user_data.msg_cnt

on_message-reports :
    (max : ℤ) (n : ℕ)
    → (if is_last (n + 1) max then 1 else 0) + reports_at max n ≡ reports_at max (n + 1)
unfolding reports_at is_last
on_message-reports (pos zero) n = ground arith
on_message-reports (pos (suc m)) n = ground arith
on_message-reports (negsuc m) n = ground arith

on_message-Counts :
    (a : ClientArgs) (m : Message) (c : Client) → Counts a c → Counts a (on_message a m c)
unfolding on_message
on_message-Counts a m c h = record {
  reported = ground (arith, h.reported, on_message-reports a.max_msg_cnt c.user_data.msg_cnt);
}

-- The messages among the events.
pub messages : List Event → List Message
messages [] = []
messages (message_event m ∷ es) = m ∷ messages es
messages (drain_event ∷ es) = messages es
messages (ping_event payload ∷ es) = messages es
messages (pong_event payload ∷ es) = messages es
messages (close_event ∷ es) = messages es

-- What a client holds after the messages `ms`.
abbrev HasEchoed : ClientArgs → List Message → Client → Client → Type 0
HasEchoed a ms c c' =
    (c'.sent ≡ echoes ms c.sent)
    × (c'.user_data.msg_cnt ≡ length ms + c.user_data.msg_cnt)
    × Counts a c'

on_message-HasEchoed :
    (a : ClientArgs) (m : Message) (ms : List Message) (c c' : Client)
    → HasEchoed a ms (on_message a m c) c'
    → HasEchoed a (m ∷ ms) c c'
unfolding on_message echoes
on_message-HasEchoed a m ms c c' h = (h.0, omega (arith, h.1), h.2)

run-from :
    (a : ClientArgs) (es : List Event) (c : Client)
    → Counts a c
    → HasEchoed a (messages es) c (run a es c)
unfolding run messages echoes step on_drain on_ping on_pong on_close
run-from a [] c h = (refl, omega arith, h)
run-from a (message_event m ∷ es) c h =
    on_message-HasEchoed a m (messages es) c (run a es (on_message a m c))
      (run-from a es (on_message a m c) (on_message-Counts a m c h))
run-from a (drain_event ∷ es) c h = run-from a es c h
run-from a (ping_event payload ∷ es) c h = run-from a es c h
run-from a (pong_event payload ∷ es) c h = run-from a es c h
run-from a (close_event ∷ es) c h = run-from a es c h

-- Over a connection the client sends its first message, then sends each message that comes back
-- again, also after the last one that was asked for; and it reports once when `max_msg_cnt` messages
-- have come, and never when that number is not positive, with which it runs all the same. Pings,
-- pongs and drains change nothing.
pub run-reports :
    (rand : ℕ → ℕ) (a : ClientArgs) (now_ns : ℕ) (es : List Event)
    → let c = run a es (on_open rand a now_ns) in
      (c.sent ≡ echoes (messages es) ((op_text, first_msg rand a) ∷ []))
      × (c.user_data.msg_cnt ≡ length (messages es))
      × (length c.reports ≡ reports_at a.max_msg_cnt (length (messages es)))
unfolding on_open reports_at
run-reports rand a now_ns es =
    let (sent, count, counts) =
      run-from a es (on_open rand a now_ns) (record { reported = none_yet a.max_msg_cnt }) in
    (
      sent,
      count ∙ add-zero (length (messages es)),
      counts.reported ∙ ap (reports_at a.max_msg_cnt) (count ∙ add-zero (length (messages es))),
    )
  where
    none_yet : (max : ℤ) → 0 ≡ reports_at max 0
    none_yet (pos zero) = refl
    none_yet (pos (suc m)) = ground arith
    none_yet (negsuc m) = refl

-- What a command line must be for the client to connect: no word of the number of messages.
pub record IsAccepted (argv : List Text) (a : ClientArgs) : Type 0 where
  pub enough : 4 ≤ length argv
  pub port : atoi (arg 1 argv) ≡ pos a.port
  pub port_positive : 0 < a.port
  pub max_len : atoi (arg 2 argv) ≡ pos a.max_msg_len
  pub max_len_positive : 0 < a.max_msg_len
  pub max_cnt : atoi (arg 3 argv) ≡ a.max_msg_cnt

pub client_args-ok_iff :
    (argv : List Text) (a : ClientArgs) → (client_args argv ≡ ok a) ↔ IsAccepted argv a
unfolding client_args
client_args-ok_iff argv a = (λ h. ground arith, λ h. ground arith)
