-- ===== src/Beast/Listener.antt =====
-- The listener of the Boost.Beast server and the sessions that it launches.
use ws_benchmark.Prelude.{
  ℕ, ◌+◌, ◌≤◌, ◌≡◌, refl, Bool, true, false, List, [], ◌∷◌, length, arith, if◌then◌else◌,
}
use ws_benchmark.Beast.{
  What, in_accept, in_open, in_set_option, in_bind, in_listen, ErrorCode, success, closed, other,
  Session, run,
}

-- What each call on the acceptor reports.
pub record Acceptor : Type 0 where
  pub open_ec : ErrorCode
  pub set_option_ec : ErrorCode
  pub bind_ec : ErrorCode
  pub listen_ec : ErrorCode

-- `listener`: whether an accept is under way, the sessions that were launched, the last one first,
-- and what `fail` reported.
pub record Listener : Type 0 where
  pub accepting : Bool
  pub sessions : List Session
  pub failures : List What

abbrev is_success : ErrorCode → Bool
is_success success = true
is_success closed = false
is_success other = false

-- The constructor: the first call that fails is reported, and those after it are not made.
unfoldable pub listener : Acceptor → Listener
listener a = record {
  accepting = false;
  sessions = [];
  failures = failed a.open_ec in_open (
      failed a.set_option_ec in_set_option
        (failed a.bind_ec in_bind (failed a.listen_ec in_listen [])));
}
  where
    failed : ErrorCode → What → List What → List What
    failed ec what rest = if is_success ec then rest else what ∷ []

unfoldable pub do_accept : Listener → Listener
do_accept l = record l { accepting = true }

unfoldable pub start : Listener → Listener
start l = do_accept l

unfoldable pub on_accept : ErrorCode → Listener → Listener
on_accept ec l = do_accept (
    if is_success ec
    then record l { accepting = false; sessions = run ∷ l.sessions }
    else record l { accepting = false; failures = in_accept ∷ l.failures })

-- Accepts that complete, one after the other.
pub accepts : List ErrorCode → Listener → Listener
accepts [] l = l
accepts (ec ∷ ecs) l = accepts ecs (on_accept ec l)

pub count_success : List ErrorCode → ℕ
count_success [] = 0
count_success (ec ∷ ecs) = (if is_success ec then 1 else 0) + count_success ecs

accepts-counts :
    (ecs : List ErrorCode) (l : Listener)
    → l.accepting ≡ true
    → ((accepts ecs l).accepting ≡ true)
      × (length (accepts ecs l).sessions ≡ count_success ecs + length l.sessions)
      × (length (accepts ecs l).sessions + length (accepts ecs l).failures
          ≡ length ecs + length l.sessions + length l.failures)
unfolding accepts count_success on_accept do_accept
accepts-counts [] l h = ground arith
accepts-counts (ec ∷ ecs) l h = ground (arith, accepts-counts ecs (on_accept ec l) refl)

-- However the acceptor was set up, also where opening, binding or listening failed, and whichever
-- accepts fail: an accept is always under way, each successful one has launched one session, and each
-- other one is reported, after at most one report of the set-up.
pub accepts-listens :
    (a : Acceptor) (ecs : List ErrorCode)
    → let l = accepts ecs (start (listener a)) in
      (l.accepting ≡ true)
      × (length l.sessions ≡ count_success ecs)
      × (length ecs ≤ length l.sessions + length l.failures)
      × (length l.sessions + length l.failures ≤ length ecs + 1)
unfolding start do_accept listener
accepts-listens a ecs = ground (arith, accepts-counts ecs (start (listener a)) refl)
