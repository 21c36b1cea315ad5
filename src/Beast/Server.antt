-- ===== src/Beast/Server.antt =====
-- The Boost.Beast server as a whole: the listener and all of its sessions, whose operations complete
-- in any order. Each session has a strand of its own.
use mathlib.Core.Path.{subst}
use ws_benchmark.Prelude.{
  ℕ, suc, ◌<◌, ◌≤◌, ◌≡◌, ◌≢◌, refl, ap, sym, ◌∙◌, true, List, [], ◌∷◌, ◌++◌, length, length-append,
  arith, ◌==◌, ==_refl, if◌then◌else◌, if_true,
}
use ws_benchmark.Beast.{ErrorCode, success, closed, other, Message, Session, Step, run}
use ws_benchmark.Beast.Echo.{Sound, run-Sound, Step-Sound}
use ws_benchmark.Beast.Listener.{Acceptor, Listener, listener, start, do_accept, on_accept}

-- The messages that came in, each with the number of its session, the last one first.
abbrev pub History : Type 0
History = List (ℕ × Message)

unfoldable pub tagged : ℕ → List Message → History
tagged k [] = []
tagged k (m ∷ ms) = (k, m) ∷ tagged k ms

unfoldable pub heard : ℕ → History → List Message
heard k [] = []
heard k ((j, m) ∷ h) = if j == k then m ∷ heard k h else heard k h

-- The states of the server: an accept completes, which may launch a session, or some session makes a
-- step. The number of a session is that of the sessions launched before it, which come after it in
-- the list.
pub data Serves (a : Acceptor) : History → Listener → Type 0 where
  started : Serves a [] (start (listener a))
  accepted :
      {h : History} {l : Listener} (ec : ErrorCode)
      → Serves a h l
      → l.accepting ≡ true
      → Serves a h (on_accept ec l)
  stepped :
      {h : History} {l : Listener} {new : List Message} {s s' : Session}
      (before after : List Session)
      → Serves a h l
      → l.sessions ≡ before ++ (s ∷ after)
      → Step new s s'
      → Serves a (tagged (length after) new ++ h) (record l { sessions = before ++ (s' ∷ after) })

abbrev pub AllSound : History → List Session → Type 0
AllSound h [] = Unit {0}
AllSound h (s ∷ sessions) = Sound (heard (length sessions) h) s × AllSound h sessions

-- Messages come in only for sessions that there are.
abbrev AllBelow : ℕ → History → Type 0
AllBelow n [] = Unit {0}
AllBelow n ((j, m) ∷ h) = (j < n) × AllBelow n h

AllBelow-tagged :
    (n k : ℕ) (new : List Message) (h : History)
    → k < n
    → AllBelow n h
    → AllBelow n (tagged k new ++ h)
unfolding tagged
AllBelow-tagged n k [] h lt below = below
AllBelow-tagged n k (m ∷ new) h lt below = (lt, AllBelow-tagged n k new h lt below)

AllBelow-le : (n m : ℕ) (h : History) → n ≤ m → AllBelow n h → AllBelow m h
AllBelow-le n m [] le below = tt
AllBelow-le n m ((j, x) ∷ h) le below = (omega (arith, below.0), AllBelow-le n m h le below.1)

heard_none : (n : ℕ) (h : History) → AllBelow n h → heard n h ≡ []
unfolding heard
heard_none n [] below = refl
heard_none n ((j, m) ∷ h) below = ground (arith, heard_none n h below.1)

heard_same :
    (k : ℕ) (new : List Message) (h : History) → heard k (tagged k new ++ h) ≡ new ++ heard k h
unfolding heard tagged
heard_same k [] h = refl
heard_same k (m ∷ new) h = if_true _ _ (==_refl k) ∙ ap (λ ms. m ∷ ms) (heard_same k new h)

heard_other :
    (j k : ℕ) (new : List Message) (h : History) → j ≢ k → heard j (tagged k new ++ h) ≡ heard j h
unfolding heard tagged
heard_other j k [] h apart = refl
heard_other j k (m ∷ new) h apart = ground (arith, heard_other j k new h apart)

AllSound-older :
    (k : ℕ) (new : List Message) (h : History) (sessions : List Session)
    → length sessions ≤ k
    → AllSound h sessions
    → AllSound (tagged k new ++ h) sessions
AllSound-older k new h [] le all = tt
AllSound-older k new h (s ∷ sessions) le all = (
  subst (λ ms. Sound ms s) (sym (heard_other (length sessions) k new h (λ e. omega arith))) all.0,
  AllSound-older k new h sessions (omega arith) all.1,
)

length-replaced :
    (before after : List Session) (s s' : Session)
    → length (before ++ (s ∷ after)) ≡ length (before ++ (s' ∷ after))
length-replaced [] after s s' = refl
length-replaced (b ∷ before) after s s' = ap suc (length-replaced before after s s')

AllSound-stepped :
    {new : List Message} {s s' : Session} (h : History) (before after : List Session)
    → Step new s s'
    → AllSound h (before ++ (s ∷ after))
    → AllSound (tagged (length after) new ++ h) (before ++ (s' ∷ after))
AllSound-stepped {new} {s} {s'} h [] after step all = (
  subst (λ ms. Sound ms s') (sym (heard_same (length after) new h)) (Step-Sound step all.0),
  AllSound-older (length after) new h after (omega arith) all.1,
)
AllSound-stepped {new} {s} {s'} h (b ∷ before) after step all = (
  subst (λ ms. Sound ms b)
      (ap (λ n. heard n h) (length-replaced before after s s')
        ∙ sym (
            heard_other (length (before ++ (s' ∷ after))) (length after) new h
              (λ e. omega (arith, e, length-append before (s' ∷ after)))))
      all.0,
  AllSound-stepped h before after step all.1,
)

record Holds (h : History) (l : Listener) : Type 0 where
  accepting : l.accepting ≡ true
  below : AllBelow (length l.sessions) h
  sound : AllSound h l.sessions

Serves-Holds : {a : Acceptor} {h : History} {l : Listener} → Serves a h l → Holds h l
unfolding start listener do_accept on_accept
Serves-Holds Serves.started = record { accepting = refl; below = tt; sound = tt }
Serves-Holds (Serves.accepted {h} {l} success serves accepting) =
    let held = Serves-Holds serves in
    record {
      accepting = refl;
      below = AllBelow-le (length l.sessions) (suc (length l.sessions)) h (omega arith) held.below;
      sound = (
        subst (λ ms. Sound ms run) (sym (heard_none (length l.sessions) h held.below)) run-Sound,
        held.sound,
      );
    }
Serves-Holds (Serves.accepted closed serves accepting) =
    let held = Serves-Holds serves in
    record { accepting = refl; below = held.below; sound = held.sound }
Serves-Holds (Serves.accepted other serves accepting) =
    let held = Serves-Holds serves in
    record { accepting = refl; below = held.below; sound = held.sound }
Serves-Holds (Serves.stepped {h} {l} {new} {s} {s'} before after serves e step) =
    let held = Serves-Holds serves in
    record {
      accepting = held.accepting;
      below =
          AllBelow-tagged (length (before ++ (s' ∷ after))) (length after) new h
            (omega (arith, length-append before (s' ∷ after)))
            (subst (λ n. AllBelow n h) (ap length e ∙ length-replaced before after s s')
              held.below);
      sound = AllSound-stepped h before after step (subst (AllSound h) e held.sound);
    }

-- Whatever accepts and operations of sessions complete, in any order and with any errors: the
-- listener is accepting, and each session has written exactly the messages that came in for it, in
-- their order, each as text or binary as it was, and none of another session's; it reads into an
-- empty buffer and reports at most one failure.
pub Serves-Sound :
    {a : Acceptor} {h : History} {l : Listener}
    → Serves a h l
    → (l.accepting ≡ true) × AllSound h l.sessions
Serves-Sound serves = let held = Serves-Holds serves in (held.accepting, held.sound)
