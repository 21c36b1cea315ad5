-- ===== src/Fws/Exchange.antt =====
-- A connection between the two flashws programs, src/flashws/echo_client.cpp and echo_server.cpp: what
-- one of them writes is what the other one reads.
pub mod Carried
pub mod Counted
use ws_benchmark.Prelude.{
  ℕ, suc, ◌+◌, ◌≡◌, Bool, true, false, Option, none, some, List, [], ◌∷◌, length, take, drop, ◌==◌,
  if◌then◌else◌,
}
use ws_benchmark.Fws.{FlashWs, Outcome, done, aborts, faults, ◌>>=◌, ws_opcode_pong}
use ws_benchmark.Fws.Client.{Config, Context, Action, goes_on, reborn, closed, ended, ClientLib}
use ws_benchmark.Fws.Client
use ws_benchmark.Fws.Client.Callbacks
use ws_benchmark.Fws.Server

-- How far a side has read: the whole messages, and the bytes of the next one.
pub record Position : Type 0 where
  pub frame_no : ℕ
  pub offset : ℕ

unfoldable pub moved : Bool → Bool → ℕ → Position → Position
moved is_control_msg is_msg_end n at =
    if is_control_msg
    then at
    else if is_msg_end
    then record { frame_no = at.frame_no + 1; offset = 0 }
    else record at { offset = at.offset + n }

-- What was sent as number `k`, where the last one comes first.
unfoldable pub nth_sent : ℕ → List (List ℕ) → Option (List ℕ)
nth_sent k [] = none
nth_sent k (x ∷ xs) = if length xs == k then some x else nth_sent k xs

unfoldable pub payloads : List (ℕ × List ℕ) → List (List ℕ)
payloads [] = []
payloads ((opcode, bytes) ∷ sent) = bytes ∷ payloads sent

-- A part carries the next bytes of a message that the other side wrote, is marked as the last one
-- only with the last byte, and a pong comes in one piece.
pub record IsCarried (sent : List (List ℕ)) (at : Position) (is_control_msg is_msg_end : Bool)
    (bytes : List ℕ) : Type 0 where
  pub message : is_control_msg ≡ false → List ℕ
  pub was_sent : (c : is_control_msg ≡ false) → nth_sent at.frame_no sent ≡ some (message c)
  pub next : (c : is_control_msg ≡ false) → bytes ≡ take (length bytes) (drop at.offset (message c))
  pub whole :
      (c : is_control_msg ≡ false)
      → is_msg_end ≡ true
      → at.offset + length bytes ≡ length (message c)

abbrev pub PongIsWhole : Bool → ℕ → Bool → Bool → Type 0
PongIsWhole is_control_msg opcode is_frame_end is_msg_end =
    is_control_msg ≡ true → opcode ≡ ws_opcode_pong → (is_frame_end ≡ true) × (is_msg_end ≡ true)
