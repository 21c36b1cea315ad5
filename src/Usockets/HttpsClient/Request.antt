-- ===== src/Usockets/HttpsClient/Request.antt =====
-- What the HTTPS client sends: its request, once, in as many writes as it takes.
use ws_benchmark.Prelude.{
  ℕ, ◌+◌, ◌-◌, ◌%◌, ◌^◌, ◌≤◌, ◌≡◌, refl, List, [], ◌∷◌, ◌++◌, length, take, drop, arith, take-all,
  ◌∙◌, length-append, Bool-cases, ltb, inl, if_true, ap, take-append-take, inr, if_false,
}
use ws_benchmark.Usockets.HttpsClient.{
  request, Client, try_request, on_open, on_data, on_writable, Event, writable, data_event,
  close_event, end_event, timeout_event, long_timeout_event, connect_error_event, step, run,
  connect, on_close, on_end, on_timeout, on_long_timeout, on_connect_error,
}

-- What the library takes of a write is no more than it was given.
abbrev IsTaken : ℕ → Client → Type 0
IsTaken written c = written ≤ length request - c.client_context.has_written_bytes

abbrev pub Fits : Event → Client → Type 0
Fits (writable written) c = IsTaken written c
Fits (data_event bytes) c = Unit {0}
Fits close_event c = Unit {0}
Fits end_event c = Unit {0}
Fits timeout_event c = Unit {0}
Fits long_timeout_event c = Unit {0}
Fits connect_error_event c = Unit {0}

abbrev AllFit : List Event → Client → Type 0
AllFit [] c = Unit {0}
AllFit (e ∷ es) c = Fits e c × AllFit es (step e c)

-- The number of bytes is right, and they are the head of the request; what came is counted.
pub record Sent (c : Client) : Type 0 where
  pub bounded : c.client_context.has_written_bytes ≤ length request
  pub head : c.sent ≡ take c.client_context.has_written_bytes request
  pub counted : c.client_context.received_bytes ≡ length c.printed % 2 ^ 32

try_request-Sent :
    (written : ℕ) (c : Client) → IsTaken written c → Sent c → Sent (try_request written c)
unfolding try_request
try_request-Sent written c h s =
    elim (Bool-cases (ltb c.client_context.has_written_bytes (length request))) [
      | inl e ↦ rw (if_true _ _ e) (record {
        bounded = ground (arith, e, h, s.bounded);
        head =
            ap (λ bytes. bytes ++ take written (drop c.client_context.has_written_bytes request))
              s.head
            ∙ take-append-take c.client_context.has_written_bytes written request;
        counted = s.counted;
      })
      | inr e ↦ rw (if_false _ _ e) s
    ]

on_data-Sent : (bytes : List ℕ) (c : Client) → Sent c → Sent (on_data bytes c)
unfolding on_data
on_data-Sent bytes c s = record {
  bounded = s.bounded;
  head = s.head;
  counted = omega (arith, s.counted, length-append c.printed bytes);
}

step-Sent : (e : Event) (c : Client) → Fits e c → Sent c → Sent (step e c)
unfolding step on_writable on_close on_end on_timeout on_long_timeout on_connect_error
step-Sent (writable written) c h s = try_request-Sent written c h s
step-Sent (data_event bytes) c h s = on_data-Sent bytes c s
step-Sent close_event c h s = s
step-Sent end_event c h s = record { bounded = s.bounded; head = s.head; counted = s.counted }
step-Sent timeout_event c h s = record { bounded = s.bounded; head = s.head; counted = s.counted }
step-Sent long_timeout_event c h s = record {
  bounded = s.bounded;
  head = s.head;
  counted = s.counted;
}
step-Sent connect_error_event c h s = s

run-from : (es : List Event) (c : Client) → AllFit es c → Sent c → Sent (run es c)
unfolding run
run-from [] c h s = s
run-from (e ∷ es) c h s = run-from es (step e c) h.1 (step-Sent e c h.0 s)

connect-Sent : (written : ℕ) → written ≤ length request → Sent (on_open written connect)
unfolding on_open connect
connect-Sent written h =
    try_request-Sent written _ (omega (arith, h))
      (record { bounded = omega arith; head = refl; counted = omega arith })

-- Over any events after the connection opened, while the library takes no more of a write than it
-- is given, what was sent is the first `has_written_bytes` bytes of the request: nothing is sent
-- twice or left out, however the writes are cut; and `received_bytes` is the number of bytes
-- received.
pub run-Sent :
    (written : ℕ) (es : List Event)
    → written ≤ length request
    → AllFit es (on_open written connect)
    → Sent (run es (on_open written connect))
run-Sent written es h fits = run-from es (on_open written connect) fits (connect-Sent written h)

-- Writable events that each take `n` bytes.
pub writables : List ℕ → List Event
writables [] = []
writables (n ∷ ns) = writable n ∷ writables ns

-- Each takes a byte, or there is none left.
abbrev pub Progress : List ℕ → Client → Type 0
Progress [] c = Unit {0}
Progress (n ∷ ns) c =
    IsTaken n c
    × ((n ≡ 0) → length request ≤ c.client_context.has_written_bytes)
    × Progress ns (on_writable n c)

try_request-advances :
    (n : ℕ) (c : Client)
    → IsTaken n c
    → ((n ≡ 0) → length request ≤ c.client_context.has_written_bytes)
    → length request - (try_request n c).client_context.has_written_bytes
      ≤ length request - c.client_context.has_written_bytes - 1
unfolding try_request
try_request-advances n c h p = ground arith

run-left :
    (ns : List ℕ) (c : Client)
    → Progress ns c
    → length request - (run (writables ns) c).client_context.has_written_bytes
      ≤ length request - c.client_context.has_written_bytes - length ns
unfolding run writables step on_writable
run-left [] c p = omega arith
run-left (n ∷ ns) c p =
    omega (arith, run-left ns (try_request n c) p.2, try_request-advances n c p.0 p.1)

Progress-Sent : (ns : List ℕ) (c : Client) → Progress ns c → Sent c → Sent (run (writables ns) c)
unfolding run writables step on_writable
Progress-Sent [] c p s = s
Progress-Sent (n ∷ ns) c p s = Progress-Sent ns (try_request n c) p.2 (try_request-Sent n c p.0 s)

on_open-wrote : (written : ℕ) → (on_open written connect).client_context.has_written_bytes ≡ written
unfolding on_open connect try_request
on_open-wrote written = omega arith

-- If each write takes some byte while there is one to take, the whole request is sent after as many
-- writable events as the first write left bytes of it.
pub run-finishes :
    (written : ℕ) (ns : List ℕ)
    → written ≤ length request
    → length request ≤ written + length ns
    → Progress ns (on_open written connect)
    → (run (writables ns) (on_open written connect)).sent ≡ request
run-finishes written ns h enough p =
    let s = Progress-Sent ns (on_open written connect) p (connect-Sent written h) in
    s.head
    ∙ take-all _ request
        (omega (arith, run-left ns (on_open written connect) p, on_open-wrote written, enough))
