-- ===== src/Usockets/Server/History.antt =====
-- Histories of one connection of the TCP echo server: data and writability, in any order in which
-- the peer waits for the echo of a message before it sends the next.
use ws_benchmark.Prelude.{
  ℕ, zero, suc, ◌-◌, ◌≤◌, ◌<◌, ◌≡◌, refl, ap, sym, ◌∙◌, Option, some, List, [], ◌∷◌, ◌++◌, length,
  append_assoc, append-nil, arith, ◌>>=◌, sub64-eq, read_at_lem,
}
use ws_benchmark.Usockets.Server.{
  EchoSocket, Env, Frame, write_frame, flushed, advance, write_out, on_writable, on_data,
}
use ws_benchmark.Usockets.Server.Owed.{
  pending, echoed, Inv, IsWriter, IsReady, written-le, pending-nil, length-pending,
}
use ws_benchmark.Usockets.Server.Echo.{Echoes, on_writable-Echoes, on_data-Echoes}

pub data Event : Type 0 where
  bytes_event : List ℕ → Event
  writable_event : Event

pub step : Env → Event → Frame → Option Frame
step env (bytes_event bytes) f = on_data env bytes f
step env writable_event f = on_writable env f

pub run : List (Env × Event) → Frame → Option Frame
run [] f = some f
run ((env, e) ∷ es) f = step env e f >>= run es

abbrev pub received : List (Env × Event) → List ℕ
received [] = []
received ((env, bytes_event bytes) ∷ es) = bytes ++ received es
received ((env, writable_event) ∷ es) = received es

abbrev bytes_of : Event → List ℕ
bytes_of (bytes_event bytes) = bytes
bytes_of writable_event = []

-- The peer's part of the contract at each event: what it sends fits and finds no echo waiting.
abbrev pub IsAllowed : EchoSocket → Event → Type 0
IsAllowed s (bytes_event bytes) = IsReady s (length bytes)
IsAllowed s writable_event = Unit {0}

abbrev IsPaced : List (Env × Event) → Frame → Type 0
IsPaced [] f = Unit {0}
IsPaced ((env, e) ∷ es) f =
    IsWriter env × IsAllowed f.socket e × ((g : Frame) → step env e f ≡ some g → IsPaced es g)

step-Echoes :
    (env : Env) (e : Event) (f : Frame)
    → IsWriter env
    → IsAllowed f.socket e
    → Inv f.socket
    → Echoes (step env e f) f.socket (bytes_of e)
unfolding step
step-Echoes env (bytes_event bytes) f w a v = on_data-Echoes env bytes f w v a
step-Echoes env writable_event f w a v = on_writable-Echoes env f w v

received-cons :
    (env : Env) (e : Event) (es : List (Env × Event))
    → received ((env, e) ∷ es) ≡ bytes_of e ++ received es
received-cons env (bytes_event bytes) es = refl
received-cons env writable_event es = refl

-- Over any history in which the peer waits for its echoes, the server never touches memory outside
-- of the buffer, and what it has sent, followed by what its buffer holds, is what it had to send
-- before and then all the bytes received, in order.
pub run-Echoes :
    (es : List (Env × Event)) (f : Frame)
    → IsPaced es f
    → Inv f.socket
    → Echoes (run es f) f.socket (received es)
unfolding run
run-Echoes [] f p v = record {
  after = f;
  runs = refl;
  owed = sym (append-nil (echoed f.socket));
  inv = v;
}
run-Echoes ((env, e) ∷ es) f p v =
    let one = step-Echoes env e f p.0 p.1 v in
    let more = run-Echoes es one.after (p.2 one.after one.runs) one.inv in
    record {
      after = more.after;
      runs = rw one.runs more.runs;
      owed =
          more.owed
          ∙ ap (λ xs. xs ++ received es) one.owed
          ∙ append_assoc (echoed f.socket) (bytes_of e) (received es)
          ∙ ap (◌++◌ (echoed f.socket)) (sym (received-cons env e es));
      inv = more.inv;
    }

-- A socket that takes at least one byte whenever it is given some.
abbrev pub IsLive : Env → Type 0
IsLive env = (xs : List ℕ) → 0 < length xs → 0 < env.write xs

size-flushed : (env : Env) (f : Frame) → (flushed env.clock f).socket.buf.size ≡ f.socket.buf.size
unfolding flushed
size-flushed env f = ground arith

writes :
    (env : Env) (f : Frame)
    → IsWriter env
    → Inv f.socket
    → (g : Frame) × (on_writable env f ≡ some g)
      × (g.socket.buf.size ≡ f.socket.buf.size - env.write (pending f.socket))
unfolding on_writable write_out advance
writes env f w v = (
  flushed env.clock (write_frame env (pending f.socket) f),
  rw (
      read_at_lem f.socket.buf.data_block f.socket.buf.start_pos f.socket.buf.size
        (omega (arith, v))),
  size-flushed env (write_frame env (pending f.socket) f)
      ∙ sub64-eq f.socket.buf.size (env.write (pending f.socket)) (omega (arith, offered))
          (omega (arith, v)),
)
  where
    offered : env.write (pending f.socket) ≤ f.socket.buf.size
    offered = written-le env f.socket w

size-on_writable :
    (env : Env) (f g : Frame)
    → IsWriter env
    → Inv f.socket
    → on_writable env f ≡ some g
    → g.socket.buf.size ≡ f.socket.buf.size - env.write (pending f.socket)
size-on_writable env f g w v h =
    let (g', e, z) = writes env f w v in
    let same : g ≡ g' = cc e in ap (λ (k : Frame). k.socket.buf.size) same ∙ z

sub-live-le : (n w : ℕ) → (0 < n → 0 < w) → n - w ≤ n - 1
sub-live-le zero w h = omega arith
sub-live-le (suc n) w h = let one : 0 < w = h (omega arith) in omega arith

abbrev pub writable_events : List Env → List (Env × Event)
writable_events [] = []
writable_events (env ∷ envs) = (env, writable_event) ∷ writable_events envs

abbrev pub AreLive : List Env → Type 0
AreLive [] = Unit {0}
AreLive (env ∷ envs) = IsWriter env × IsLive env × AreLive envs

-- A socket that takes some byte at each turn has taken all that waits after as many turns as bytes
-- wait: then the peer has its whole echo, and the next message may come.
pub run-flushes :
    (envs : List Env) (f : Frame)
    → AreLive envs
    → Inv f.socket
    → f.socket.buf.size ≤ length envs
    → (g : Frame) × (run (writable_events envs) f ≡ some g)
      × (g.socket.buf.size ≡ 0)
      × (g.socket.sent ≡ echoed f.socket)
unfolding run step
run-flushes [] f live v h =
    let none_left : f.socket.buf.size ≡ 0 = omega arith in
    (
      f,
      refl,
      none_left,
      sym (ap (◌++◌ f.socket.sent) (pending-nil f.socket none_left) ∙ append-nil f.socket.sent),
    )
run-flushes (env ∷ envs) f live v h =
    let one = on_writable-Echoes env f live.0 v in
    let left = size-on_writable env f one.after live.0 v one.runs in
    let (g, runs, empty, all) =
      run-flushes envs one.after live.2 one.inv (omega (arith, left, shrinks, h)) in
    (g, rw one.runs runs, empty, all ∙ one.owed ∙ append-nil (echoed f.socket))
  where
    shrinks : f.socket.buf.size - env.write (pending f.socket) ≤ f.socket.buf.size - 1
    shrinks =
        sub-live-le f.socket.buf.size (env.write (pending f.socket))
          (λ more. live.1 (pending f.socket) (omega (arith, length-pending f.socket v)))
