-- ===== src/Fws/Exchange/Counted.antt =====
-- How many messages a side has read of those that the other flashws program wrote.
use ws_benchmark.Prelude.{
  ℕ, suc, ◌+◌, ◌≤◌, ◌<◌, ◌≡◌, refl, ap, Bool, true, false, some, List, [], ◌∷◌, length, ◌==◌,
  if_true, if_false, Bool-cases, inl, inr, arith, length-take, length-drop, take-all, drop, ==_refl,
  sym, ◌∙◌,
}
use ws_benchmark.Fws.Client.Callbacks.Echo.{AllAre}
use ws_benchmark.Fws.Client.Callbacks.Frames.{ends}
use ws_benchmark.Fws.Server
use ws_benchmark.Fws.Server.Assembly.{View, next}
use ws_benchmark.Fws.Exchange.{Position, moved, nth_sent, payloads, IsCarried}
use ws_benchmark.Fws.Exchange.Carried.{IsCarried-CarriesOn}

pub frame_no-moved :
    (c e : Bool) (n : ℕ) (at : Position) → (moved c e n at).frame_no ≡ at.frame_no + ends c e
unfolding moved ends
frame_no-moved c e n at = ground arith

pub length-payloads : (sent : List (ℕ × List ℕ)) → length (payloads sent) ≡ length sent
unfolding payloads
length-payloads [] = refl
length-payloads ((op, x) ∷ sent) = ap suc (length-payloads sent)

pub length-next :
    (p : Server.Part) (v : View)
    → length (next p v).echoed ≡ length v.echoed + ends p.is_control_msg p.is_msg_end
unfolding next ends
length-next p v = ground arith

nth_sent-below :
    (k : ℕ) (sent : List (List ℕ)) (x : List ℕ) → nth_sent k sent ≡ some x → k < length sent
unfolding nth_sent
nth_sent-below k [] x e = cc
nth_sent-below k (y ∷ ys) x e = elim (Bool-cases (length ys == k)) [
  | inl b ↦ ground arith
  | inr b ↦ omega (arith, nth_sent-below k ys x (sym (if_false _ _ b) ∙ e))
]

pub carried-below :
    (sent : List (List ℕ)) (at : Position) (c e : Bool) (bytes : List ℕ)
    → IsCarried sent at c e bytes
    → at.frame_no ≤ length sent
    → at.frame_no + ends c e ≤ length sent
unfolding ends
carried-below sent at c e bytes carried h = elim (Bool-cases c) [
  | inl k ↦ ground arith
  | inr k ↦
      let below = nth_sent-below at.frame_no sent (carried.message k) (carried.was_sent k) in
      ground arith
]

pub carried-within :
    (payload : List ℕ) (sent : List (List ℕ)) (at : Position) (c e : Bool) (bytes : List ℕ)
    → AllAre payload sent
    → IsCarried sent at c e bytes
    → at.offset ≤ length payload
    → (moved c e (length bytes) at).offset ≤ length payload
unfolding moved
carried-within payload sent at c e bytes all carried h = elim (Bool-cases c) [
  | inl k ↦ ground arith
  | inr k ↦
      let fits = (IsCarried-CarriesOn payload sent at c e bytes all carried k).fits in
      let taken = length-take at.offset payload in ground arith
]

pub nth_sent-newest :
    (payload : List ℕ) (sent : List (List ℕ)) (k : ℕ)
    → length sent ≡ k + 1
    → AllAre payload sent
    → nth_sent k sent ≡ some payload
unfolding nth_sent
nth_sent-newest payload [] k e all = absurd (omega arith)
nth_sent-newest payload (x ∷ xs) k e all =
    if_true (some x) (nth_sent k xs) (rw (the_last) (==_refl k)) ∙ ap some all.0
  where
    the_last : length xs ≡ k
    the_last = omega (arith, e)

-- The rest of the newest message, which the other side has not read yet.
pub rest-IsCarried :
    (payload : List ℕ) (sent : List (List ℕ)) (at : Position)
    → AllAre payload sent
    → length sent ≡ at.frame_no + 1
    → at.offset ≤ length payload
    → IsCarried sent at false true (drop at.offset payload)
rest-IsCarried payload sent at all newest within = record {
  message = λ _. payload;
  was_sent = λ _. nth_sent-newest payload sent at.frame_no newest all;
  next =
      λ _. sym (take-all (length (drop at.offset payload)) (drop at.offset payload) (omega arith));
  whole = λ _ _. omega (arith, length-drop at.offset payload);
}
