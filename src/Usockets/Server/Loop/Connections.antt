-- ===== src/Usockets/Server/Loop/Connections.antt =====
-- The connections that the TCP echo server counts.
use ws_benchmark.Prelude.{
  find, replace, remove, ℕ, suc, ◌≡◌, refl, ap, sym, ◌∙◌, Bool, Option, none, some, List, [], ◌∷◌,
  length, arith, ◌>>=◌, true,
}
use ws_benchmark.Prelude.Int.{pos, inc, dec}
use ws_benchmark.Usockets.Server.{
  EchoSocket, Env, Frame, start, flushed, advance, count_stats, write_out, on_writable,
  whole_message, part_message, on_data, on_open, on_close, on_end, on_timeout, received,
}
use ws_benchmark.Usockets.Server.Loop.{
  System, Event, open_event, data_event, writable_event, close_event, end_event, timeout_event,
  kept, gone, with_socket, step, run,
}

-- The server counts its sockets, and each socket's own count is one.
abbrev AllOne : List (ℕ × EchoSocket) → Type 0
AllOne [] = Unit {0}
AllOne ((j, s) ∷ rest) = (s.active_conns_in_ctx ≡ pos 1) × AllOne rest

pub record IsCounted (y : System) : Type 0 where
  pub connections : y.globals.active_connections ≡ pos (length y.sockets)
  pub ones : AllOne y.sockets

-- The callbacks on data leave both counts alone.
record Uncounted (f g : Frame) : Type 0 where
  same_active : g.globals.active_connections ≡ f.globals.active_connections
  same_conns : g.socket.active_conns_in_ctx ≡ f.socket.active_conns_in_ctx

write_out-Uncounted :
    (env : Env) (from : ℕ) (f g : Frame) → write_out env from f ≡ some g → Uncounted f g
unfolding write_out flushed advance count_stats
write_out-Uncounted env from f g h = ground arith

whole_message-Uncounted :
    (env : Env) (bytes : List ℕ) (f g : Frame) → whole_message env bytes f ≡ some g → Uncounted f g
unfolding whole_message count_stats
whole_message-Uncounted env bytes f g h = ground arith

part_message-Uncounted :
    (env : Env) (bytes : List ℕ) (f g : Frame) → part_message env bytes f ≡ some g → Uncounted f g
unfolding part_message
part_message-Uncounted env bytes f g h = grind (arith, write_out-Uncounted)

on_data-Uncounted :
    (env : Env) (bytes : List ℕ) (f g : Frame) → on_data env bytes f ≡ some g → Uncounted f g
unfolding on_data
on_data-Uncounted env bytes f g h =
    let f' : Frame = record f { globals = received (length bytes) f.globals } in
    ground (arith, whole_message-Uncounted env bytes f' g, part_message-Uncounted env bytes f' g)

on_writable-Uncounted : (env : Env) (f g : Frame) → on_writable env f ≡ some g → Uncounted f g
unfolding on_writable
on_writable-Uncounted env f g h = write_out-Uncounted env f.socket.buf.start_pos f g h

find-one :
    (id : ℕ) (l : List (ℕ × EchoSocket)) (s : EchoSocket)
    → AllOne l
    → find id l ≡ some s
    → s.active_conns_in_ctx ≡ pos 1
unfolding find
find-one id [] s a h = cc
find-one id ((j, t) ∷ rest) s a h = ground (arith, find-one id rest s a.1)

length-replace :
    (id : ℕ) (t : EchoSocket) (l : List (ℕ × EchoSocket)) → length (replace id t l) ≡ length l
unfolding replace
length-replace id t [] = refl
length-replace id t ((j, s) ∷ rest) = ground (arith, length-replace id t rest)

AllOne-replace :
    (id : ℕ) (t : EchoSocket) (l : List (ℕ × EchoSocket))
    → t.active_conns_in_ctx ≡ pos 1
    → AllOne l
    → AllOne (replace id t l)
unfolding replace
AllOne-replace id t [] e a = tt
AllOne-replace id t ((j, s) ∷ rest) e a = ground (arith, AllOne-replace id t rest e a.1)

length-remove :
    (id : ℕ) (l : List (ℕ × EchoSocket)) (s : EchoSocket)
    → find id l ≡ some s
    → length l ≡ suc (length (remove id l))
unfolding find remove
length-remove id [] s h = cc
length-remove id ((j, t) ∷ rest) s h = ground (arith, length-remove id rest s)

AllOne-remove : (id : ℕ) (l : List (ℕ × EchoSocket)) → AllOne l → AllOne (remove id l)
unfolding remove
AllOne-remove id [] a = tt
AllOne-remove id ((j, s) ∷ rest) a = ground (arith, AllOne-remove id rest a.1)

-- A fault, or a counted system.
abbrev pub Counts : Option System → Type 0
Counts none = Unit {0}
Counts (some y) = IsCounted y

module _ (id : ℕ) (y : System) (s : EchoSocket) (c : IsCounted y)
    (found : find id y.sockets ≡ some s) where
  abbrev frame : Frame
  frame = record { globals = y.globals; socket = s }

  kept-IsCounted : (g : Frame) → Uncounted frame g → IsCounted (kept id y g)
  kept-IsCounted g u = record {
    connections =
        u.same_active ∙ c.connections ∙ ap pos (sym (length-replace id g.socket y.sockets));
    ones =
        AllOne-replace id g.socket y.sockets (u.same_conns ∙ find-one id y.sockets s c.ones found)
          c.ones;
  }

  closed-IsCounted :
      (b : Bool)
      → IsCounted (gone id y (on_close (record frame { socket = record s { is_shut_down = b } })))
  unfolding on_close
  closed-IsCounted b = record {
    connections = ap dec (c.connections ∙ ap pos (length-remove id y.sockets s found));
    ones = AllOne-remove id y.sockets c.ones;
  }

  kept_after :
      (r : Option Frame)
      → ((g : Frame) → r ≡ some g → Uncounted frame g)
      → Counts (r >>= λ g. some (kept id y g))
  kept_after none u = tt
  kept_after (some g) u = kept-IsCounted g (u g refl)

with_socket-Counts :
    (id : ℕ) (y : System) (k : Frame → Option System)
    → IsCounted y
    → ((s : EchoSocket)
        → find id y.sockets ≡ some s
        → Counts (k (record { globals = y.globals; socket = s })))
    → Counts (with_socket id y k)
with_socket-Counts id y k c each = go (find id y.sockets) refl
  where
    go :
        (o : Option EchoSocket)
        → find id y.sockets ≡ o
        → Counts
            (elim o [ none ↦ some y | some s ↦ k (record { globals = y.globals; socket = s }) ])
    go none e = c
    go (some s) e = each s e

-- When `us_socket_close` makes the close callback once, every event that does not fault keeps
-- `active_connections` at the number of open sockets, and each socket's own count at one.
step-Counts :
    (close : Frame → Frame) (env : Env) (e : Event) (y : System)
    → ((f : Frame) → close f ≡ on_close f)
    → IsCounted y
    → Counts (step close env e y)
unfolding step on_end on_timeout
step-Counts close env (open_event id s) y closes c =
    unfold on_open in (record { connections = ap inc c.connections; ones = (refl, c.ones) })
step-Counts close env (data_event id bytes) y closes c =
    with_socket-Counts id y (λ f. on_data env bytes f >>= λ g. some (kept id y g)) c
      λ s found.
        kept_after id y s c found (on_data env bytes (frame id y s c found))
          (on_data-Uncounted env bytes (frame id y s c found))
step-Counts close env (writable_event id) y closes c =
    with_socket-Counts id y (λ f. on_writable env f >>= λ g. some (kept id y g)) c
      λ s found.
        kept_after id y s c found (on_writable env (frame id y s c found))
          (on_writable-Uncounted env (frame id y s c found))
step-Counts close env (close_event id) y closes c =
    with_socket-Counts id y (λ f. some (gone id y (on_close f))) c
      λ s found. closed-IsCounted id y s c found s.is_shut_down
step-Counts close env (end_event id) y closes c =
    with_socket-Counts id y (λ f. some (gone id y (on_end close f))) c
      λ s found. rw closes (closed-IsCounted id y s c found true)
step-Counts close env (timeout_event id) y closes c =
    with_socket-Counts id y (λ f. some (gone id y (on_timeout close f))) c
      λ s found. rw closes (closed-IsCounted id y s c found s.is_shut_down)

then_run :
    (r : Option System) (k : System → Option System)
    → Counts r
    → ((y : System) → IsCounted y → Counts (k y))
    → Counts (r >>= k)
then_run none k c each = tt
then_run (some y) k c each = each y c

pub run-Counts_from :
    (close : Frame → Frame) (es : List (Env × Event)) (y : System)
    → ((f : Frame) → close f ≡ on_close f)
    → IsCounted y
    → Counts (run close es y)
unfolding run
run-Counts_from close [] y closes c = c
run-Counts_from close ((env, e) ∷ es) y closes c =
    then_run (step close env e y) (run close es) (step-Counts close env e y closes c)
      (λ z cz. run-Counts_from close es z closes cz)

-- So it does over any run of the server.
pub run-Counts :
    (close : Frame → Frame) (es : List (Env × Event))
    → ((f : Frame) → close f ≡ on_close f)
    → Counts (run close es (record { globals = start; sockets = [] }))
unfolding start
run-Counts close es closes =
    run-Counts_from close es (record { globals = start; sockets = [] }) closes
      (record { connections = refl; ones = tt })
