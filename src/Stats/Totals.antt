-- ===== src/Stats/Totals.antt =====
-- What `CountStats` promises, whatever its test: it leaves the statistics alone, or moves them
-- into a new line of output. So the printed lines and the running interval account for all traffic.
use ws_benchmark.Prelude.{ℕ, ◌+◌, ◌^◌, ◌≤◌, ◌<◌, ◌≡◌, refl, List, [], ◌∷◌, arith}
use ws_benchmark.Prelude.Int.{ℤ}
use ws_benchmark.Stats.{
  Counters, Clock, Report, reset, report, start_interval, count_recv, count_send,
}

pub data Settles (c : Counters) (lines : List Report) : Counters → List Report → Type 0 where
  quiet : Settles c lines c lines
  printed :
      (clock : Clock) (msg_size : ℕ) (connections : ℤ)
      → Settles c lines (reset clock c) (report clock c msg_size connections ∷ lines)

-- Bytes and messages, received and sent, in the printed lines.
pub record Traffic : Type 0 where
  pub recv_bytes : ℕ
  pub send_bytes : ℕ
  pub recv_msg_cnt : ℕ
  pub send_msg_cnt : ℕ

abbrev add_report : Report → Traffic → Traffic
add_report r t = record {
  recv_bytes = r.recv_bytes + t.recv_bytes;
  send_bytes = r.send_bytes + t.send_bytes;
  recv_msg_cnt = r.recv_msg_cnt + t.recv_msg_cnt;
  send_msg_cnt = r.send_msg_cnt + t.send_msg_cnt;
}

abbrev pub running : Counters → Traffic
running c = record {
  recv_bytes = c.last_interval_recv_bytes;
  send_bytes = c.last_interval_send_bytes;
  recv_msg_cnt = c.last_interval_recv_msg_cnt;
  send_msg_cnt = c.last_interval_send_msg_cnt;
}

-- All the traffic since the program started.
unfoldable pub total : Counters → List Report → Traffic
total c [] = running c
total c (r ∷ lines) = add_report r (total c lines)

total-reset :
    (clock : Clock) (c : Counters) (n : ℕ) (k : ℤ) (lines : List Report)
    → total (reset clock c) (report clock c n k ∷ lines) ≡ total c lines
unfolding total
total-reset clock c n k [] = ground arith
total-reset clock c n k (r ∷ lines) = ground (arith, total-reset clock c n k lines)

pub total-Settles :
    {c c' : Counters} {lines lines' : List Report}
    → Settles c lines c' lines'
    → total c' lines' ≡ total c lines
total-Settles quiet = refl
total-Settles {c = c} {lines = lines} (printed clock n k) = total-reset clock c n k lines

abbrev pub add : Traffic → Traffic → Traffic
add s t = record {
  recv_bytes = s.recv_bytes + t.recv_bytes;
  send_bytes = s.send_bytes + t.send_bytes;
  recv_msg_cnt = s.recv_msg_cnt + t.recv_msg_cnt;
  send_msg_cnt = s.send_msg_cnt + t.send_msg_cnt;
}

-- What is added to the running interval is added to the total.
pub total-add :
    (c c' : Counters) (d : Traffic) (lines : List Report)
    → running c' ≡ add (running c) d
    → total c' lines ≡ add (total c lines) d
unfolding total
total-add c c' d [] e = e
total-add c c' d (r ∷ lines) e = ground (arith, total-add c c' d lines e)

-- One message in and the same one out, while no counter wraps.
abbrev pub echo_traffic : ℕ → Traffic
echo_traffic n = record { recv_bytes = n; send_bytes = n; recv_msg_cnt = 1; send_msg_cnt = 1 }

pub running-echo :
    (clock : Clock) (n : ℕ) (c : Counters)
    → c.last_interval_recv_bytes + n < 2 ^ 64
    → c.last_interval_send_bytes + n < 2 ^ 64
    → c.last_interval_recv_msg_cnt + 1 < 2 ^ 64
    → c.last_interval_send_msg_cnt + 1 < 2 ^ 64
    → running (count_send n (count_recv n (start_interval clock c)))
      ≡ add (running c) (echo_traffic n)
running-echo clock n c h₁ h₂ h₃ h₄ = ground arith

-- The running interval is a part of the total.
pub record AtMost (s t : Traffic) : Type 0 where
  pub recv_bytes_le : s.recv_bytes ≤ t.recv_bytes
  pub send_bytes_le : s.send_bytes ≤ t.send_bytes
  pub recv_msg_cnt_le : s.recv_msg_cnt ≤ t.recv_msg_cnt
  pub send_msg_cnt_le : s.send_msg_cnt ≤ t.send_msg_cnt

pub running-AtMost : (c : Counters) (lines : List Report) → AtMost (running c) (total c lines)
unfolding total
running-AtMost c [] = omega arith
running-AtMost c (r ∷ lines) = omega (arith, running-AtMost c lines)

abbrev pub zero_traffic : Traffic
zero_traffic = record { recv_bytes = 0; send_bytes = 0; recv_msg_cnt = 0; send_msg_cnt = 0 }

abbrev pub recv_traffic : ℕ → Traffic
recv_traffic n = record zero_traffic { recv_bytes = n; recv_msg_cnt = 1 }

pub running-recv :
    (clock : Clock) (n : ℕ) (c : Counters)
    → c.last_interval_recv_bytes + n < 2 ^ 64
    → c.last_interval_recv_msg_cnt + 1 < 2 ^ 64
    → running (count_recv n (start_interval clock c)) ≡ add (running c) (recv_traffic n)
running-recv clock n c h₁ h₂ = ground arith

-- No 64-bit counter wraps.
pub record Fits (t : Traffic) : Type 0 where
  pub recv_bytes_fits : t.recv_bytes < 2 ^ 64
  pub send_bytes_fits : t.send_bytes < 2 ^ 64
  pub recv_msg_cnt_fits : t.recv_msg_cnt < 2 ^ 64
  pub send_msg_cnt_fits : t.send_msg_cnt < 2 ^ 64
