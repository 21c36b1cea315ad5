-- ===== src/Beast/Echo.antt =====
-- What a session of the Boost.Beast server writes: an invariant of the steps.
use ws_benchmark.Prelude.{◌≡◌, ◌≢◌, ◌≤◌, refl, List, [], ◌∷◌, ◌++◌, length, drop-all, arith}
use ws_benchmark.Beast.{
  success, closed, other, Message, dispatch, async_accept, async_read, async_write, nothing,
  Session, fail, run, on_run, do_read, on_accept, on_read, consume, on_write, receive, Step,
  Reaches,
}

-- The writes are the messages; the buffer is empty until a message is read, and is what was
-- written last until that is done; a failure ends the session.
pub record Sound (ms : List Message) (s : Session) : Type 0 where
  pub echoes : s.writes ≡ ms
  pub none_before : s.pending ≡ dispatch → (s.buffer ≡ []) × (ms ≡ [])
  pub none_accepted : s.pending ≡ async_accept → (s.buffer ≡ []) × (ms ≡ [])
  pub empty : s.pending ≡ async_read → s.buffer ≡ []
  pub in_flight :
      s.pending ≡ async_write
      → (m : Message) × (rest : List Message) × (ms ≡ m ∷ rest) × (m.payload ≡ s.buffer)
  pub alive : s.pending ≢ nothing → s.failures ≡ []
  pub one_failure : length s.failures ≤ 1

pub run-Sound : Sound [] run
unfolding run
run-Sound = ground arith

pub Step-Sound :
    {ms new : List Message} {s s' : Session} → Step new s s' → Sound ms s → Sound (new ++ ms) s'
unfolding on_run on_accept on_read consume on_write receive fail do_read
Step-Sound (Step.run_step s p) g = ground arith
Step-Sound (Step.accept_step success s p) g = ground arith
Step-Sound (Step.accept_step closed s p) g = ground arith
Step-Sound (Step.accept_step other s p) g = ground arith
Step-Sound (Step.read_step m s p) g = ground arith
Step-Sound (Step.read_fails success bytes text s p h) g = absurd (h refl)
Step-Sound (Step.read_fails closed bytes text s p h) g = ground arith
Step-Sound (Step.read_fails other bytes text s p h) g = ground arith
Step-Sound (Step.write_step success s p) g =
    ground (arith, drop-all (length s.buffer) s.buffer (omega arith))
Step-Sound (Step.write_step closed s p) g = ground arith
Step-Sound (Step.write_step other s p) g = ground arith

-- Whatever order its operations complete in and whichever of them fail: what a session has written
-- is the messages that came in, each as text or binary as it was, in their order; it reads into an
-- empty buffer; while it writes, the buffer is the message being echoed, whole; and it reports at
-- most one failure, after which it starts nothing more.
pub Reaches-Sound : {ms : List Message} {s : Session} → Reaches ms s → Sound ms s
Reaches-Sound Reaches.started = run-Sound
Reaches-Sound (Reaches.steps r step) = Step-Sound step (Reaches-Sound r)
