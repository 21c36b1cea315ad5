-- ===== src/Fws/Exchange/Carried.antt =====
-- What the parts that carry a message leave of it on the side that reads them.
use ws_benchmark.Prelude.{
  ℕ, ◌+◌, ◌≤◌, ◌≡◌, ap, sym, ◌∙◌, Bool, true, false, some, List, [], ◌∷◌, ◌++◌, length, take, drop,
  ◌==◌, if_false, Bool-cases, inl, inr, arith, take-append-take, take-all, length-take, length-drop,
}
use ws_benchmark.Fws.Client.{
  Config, ClientCtx, Context, Action, ClientLib, goes_on, reborn, closed, ended,
}
use ws_benchmark.Fws.Client
use ws_benchmark.Fws.Client.Callbacks.Echo.{AllAre, IsEcho, received_after}
use ws_benchmark.Fws.Server
use ws_benchmark.Fws.Server.Assembly.{View, IsAllowed, next}
use ws_benchmark.Fws.Exchange.{Position, moved, nth_sent, payloads, IsCarried, PongIsWhole}

nth_sent-AllAre :
    (payload : List ℕ) (k : ℕ) (sent : List (List ℕ)) (x : List ℕ)
    → AllAre payload sent
    → nth_sent k sent ≡ some x
    → x ≡ payload
unfolding nth_sent
nth_sent-AllAre payload k [] x all e = cc
nth_sent-AllAre payload k (y ∷ ys) x all e = elim (Bool-cases (length ys == k)) [
  | inl b ↦ ground arith
  | inr b ↦ nth_sent-AllAre payload k ys x all.1 (sym (if_false _ _ b) ∙ e)
]

-- Bytes that carry on a message, of which `received` came before.
pub record CarriesOn (payload received bytes rest : List ℕ) (is_msg_end : Bool) : Type 0 where
  pub fits : length received + length bytes ≤ length payload
  pub joined : received ++ bytes ≡ rest
  pub whole : is_msg_end ≡ true → received ++ bytes ≡ payload

pub IsCarried-CarriesOn :
    (payload : List ℕ) (sent : List (List ℕ)) (at : Position) (c e : Bool) (bytes : List ℕ)
    → AllAre payload sent
    → IsCarried sent at c e bytes
    → c ≡ false
    → CarriesOn payload (take at.offset payload) bytes (take (at.offset + length bytes) payload) e
IsCarried-CarriesOn payload sent at c e bytes all carried f = record {
  fits = omega (
    arith,
    ap length cut,
    length-take at.offset payload,
    length-take (length bytes) (drop at.offset payload),
    length-drop at.offset payload,
  );
  joined = joined;
  whole = λ end.
      joined
      ∙ take-all (at.offset + length bytes) payload
          (omega (arith, carried.whole f end, ap length same));
}
  where
    same : carried.message f ≡ payload
    same = nth_sent-AllAre payload at.frame_no sent (carried.message f) all (carried.was_sent f)

    cut : bytes ≡ take (length bytes) (drop at.offset payload)
    cut = carried.next f ∙ ap (λ m. take (length bytes) (drop at.offset m)) same

    joined : take at.offset payload ++ bytes ≡ take (at.offset + length bytes) payload
    joined =
        ap (λ b. take at.offset payload ++ b) cut
        ∙ take-append-take at.offset (length bytes) payload

module _ (payload : List ℕ) where
  pub next-carried :
      (p : Server.Part) (at : Position) (sent : List (List ℕ)) (v : View)
      → AllAre payload sent
      → IsCarried sent at p.is_control_msg p.is_msg_end p.payload
      → v.collected ≡ take at.offset payload
      → AllAre payload (payloads v.echoed)
      → ((next p v).collected
          ≡ take (moved p.is_control_msg p.is_msg_end (length p.payload) at).offset payload)
        × AllAre payload (payloads (next p v).echoed)
  unfolding next moved payloads
  next-carried p at sent v all carried c echoed = elim (Bool-cases p.is_control_msg) [
    | inl k ↦ ground arith
    | inr k ↦ elim (Bool-cases p.is_msg_end) [
      | inl e ↦
          ground (arith, (IsCarried-CarriesOn payload sent at _ _ p.payload all carried k).whole e)
      | inr e ↦
          ground (arith, (IsCarried-CarriesOn payload sent at _ _ p.payload all carried k).joined)
    ]
  ]

  pub received-carried :
      (p : Client.Part) (at : Position) (sent : List (List ℕ))
      → AllAre payload sent
      → IsCarried sent at p.is_control_msg p.is_msg_end p.payload
      → received_after p (take at.offset payload)
        ≡ take (moved p.is_control_msg p.is_msg_end (length p.payload) at).offset payload
  unfolding received_after moved
  received-carried p at sent all carried = elim (Bool-cases p.is_control_msg) [
    | inl k ↦ ground arith
    | inr k ↦ elim (Bool-cases p.is_msg_end) [
      | inl e ↦ ground arith
      | inr e ↦
          ground (arith, (IsCarried-CarriesOn payload sent at _ _ p.payload all carried k).joined)
    ]
  ]

  pub IsCarried-IsEcho :
      (p : Client.Part) (at : Position) (sent : List (List ℕ))
      → AllAre payload sent
      → IsCarried sent at p.is_control_msg p.is_msg_end p.payload
      → PongIsWhole p.is_control_msg p.opcode p.is_frame_end p.is_msg_end
      → IsEcho payload (take at.offset payload) p
  IsCarried-IsEcho p at sent all carried pong = record {
    fits = λ k. (on k).fits;
    whole = λ k. (on k).whole;
    pong_whole = pong;
  }
    where
      on :
          (k : p.is_control_msg ≡ false)
          → CarriesOn payload
              (take at.offset payload)
              p.payload
              (take (at.offset + length p.payload) payload)
              p.is_msg_end
      on k =
          IsCarried-CarriesOn payload sent at p.is_control_msg p.is_msg_end p.payload all carried k

  pub IsCarried-IsAllowed :
      (max : ℕ) (env : Server.Env) (p : Server.Part) (at : Position) (sent : List (List ℕ))
      (v : View)
      → length payload ≤ max
      → env.write_ok ≡ true
      → AllAre payload sent
      → IsCarried sent at p.is_control_msg p.is_msg_end p.payload
      → PongIsWhole p.is_control_msg p.opcode p.is_frame_end p.is_msg_end
      → v.collected ≡ take at.offset payload
      → IsAllowed max env p v
  IsCarried-IsAllowed max env p at sent v small w all carried pong held = record {
    fits = λ k. omega (
      arith,
      ap length held,
      (IsCarried-CarriesOn payload sent at p.is_control_msg p.is_msg_end p.payload all carried
          k).fits,
    );
    writes = λ _ _. w;
    pong_whole = pong;
  }
