-- ===== src/Usockets/Server/Loop/Serves.antt =====
-- One event of the TCP echo server: each peer gets back its own bytes.
use ws_benchmark.Prelude.{
  ℕ, ◌≡◌, refl, ap, sym, ◌∙◌, Bool, true, false, Option, none, some, List, [], ◌∷◌, length, arith,
  ◌==◌, ◌>>=◌, if◌then◌else◌, append-nil, find, replace, remove, find-entry, find-cons_self,
  find-cons_other, find-replace_self, find-replace_other, find-remove_self, find-remove_other,
  Distinct-replace, Distinct-remove, find-AllValues, AllValues-replace, AllValues-remove,
}
use ws_benchmark.Usockets.Server.{
  EchoSocket, Env, Frame, max_data_len, on_writable, on_data, on_open, on_close, on_end, on_timeout,
}
use ws_benchmark.Usockets.Server.Owed.{Inv, echoed}
use ws_benchmark.Usockets.Server.Echo.{Echoes, on_writable-Echoes, on_data-Echoes}
use ws_benchmark.Usockets.Server.Loop.{
  System, Event, open_event, data_event, writable_event, close_event, end_event, timeout_event,
  kept, gone, step, with_socket,
}
use ws_benchmark.Usockets.Server.Loop.Table.{
  owed_at, owe_more, entry_after, Allowed, IsSound, Serves,
}

-- A handler that leaves its socket open.
kept-Serves :
    (j : ℕ) (y : System) (t : EchoSocket) (bytes : List ℕ) (r : Option Frame)
    → find j y.sockets ≡ some t
    → IsSound y
    → Echoes r t bytes
    → Serves y (λ id o. if j == id then owe_more bytes o else o) (r >>= λ g. some (kept j y g))
kept-Serves j y t bytes r found sound e = record {
  after = kept j y e.after;
  runs = rw e.runs refl;
  sound = record {
    inv = AllValues-replace Inv j e.after.socket y.sockets e.inv sound.inv;
    distinct = Distinct-replace j e.after.socket y.sockets sound.distinct;
  };
  owed =
      find-entry echoed j (owe_more bytes) y.sockets (replace j e.after.socket y.sockets)
        (rw (find-replace_self j e.after.socket y.sockets t found, found) (ap some e.owed))
        (λ id. find-replace_other id j e.after.socket y.sockets);
}

-- A socket that is not there: the library raises no event.
none-Serves :
    (j : ℕ) (y : System) (change : Option (List ℕ) → Option (List ℕ))
    → find j y.sockets ≡ none
    → change none ≡ none
    → IsSound y
    → Serves y (λ id o. if j == id then change o else o) (some y)
none-Serves j y change missing stays sound = record {
  after = y;
  runs = refl;
  sound = sound;
  owed = find-entry echoed j change y.sockets y.sockets (rw missing (sym stays)) (λ id _. refl);
}

-- A socket that is gone after the handler.
gone-Serves :
    (j : ℕ) (y : System) (f : Frame)
    → IsSound y
    → Serves y (λ id o. if j == id then none else o) (some (gone j y f))
gone-Serves j y f sound = record {
  after = gone j y f;
  runs = refl;
  sound = record {
    inv = AllValues-remove Inv j y.sockets sound.inv;
    distinct = Distinct-remove j y.sockets sound.distinct;
  };
  owed =
      find-entry echoed j (λ o. none) y.sockets (remove j y.sockets)
        (rw (find-remove_self j y.sockets sound.distinct) refl)
        (λ id. find-remove_other id j y.sockets);
}

opened-Serves :
    (j : ℕ) (y : System) (s : EchoSocket)
    → find j y.sockets ≡ none
    → length s.buf.data_block ≡ max_data_len
    → s.sent ≡ []
    → IsSound y
    → let f = on_open (record { globals = y.globals; socket = s }) in
      Serves y
        (λ id o. if j == id then some [] else o)
        (some (record { globals = f.globals; sockets = (j, f.socket) ∷ y.sockets }))
unfolding on_open
opened-Serves j y s new block nothing sound =
    let t = (on_open (record { globals = y.globals; socket = s })).socket in
    record {
      after = _;
      runs = refl;
      sound = record {
        inv = (record { block = block; room = omega arith }, sound.inv);
        distinct = (new, sound.distinct);
      };
      owed =
          find-entry echoed j (λ o. some []) y.sockets ((j, t) ∷ y.sockets)
            (rw (find-cons_self j t y.sockets) (ap some (append-nil s.sent ∙ nothing)))
            (λ id. find-cons_other id j t y.sockets);
    }

-- Nothing comes in: the table stays.
same_entry : (b : Bool) (o : Option (List ℕ)) → (if b then owe_more [] o else o) ≡ o
same_entry true none = refl
same_entry true (some xs) = ap some (append-nil xs)
same_entry false o = refl

quiet-Serves :
    (j : ℕ) (y : System) (r : Option System)
    → Serves y (λ id o. if j == id then owe_more [] o else o) r
    → Serves y (λ id o. o) r
quiet-Serves j y r v = record {
  after = v.after;
  runs = v.runs;
  sound = v.sound;
  owed = λ id. v.owed id ∙ same_entry (j == id) (owed_at id y.sockets);
}

with_socket-Serves :
    (entry : ℕ → Option (List ℕ) → Option (List ℕ)) (j : ℕ) (y : System) (k : Frame → Option System)
    → (find j y.sockets ≡ none → Serves y entry (some y))
    → ((t : EchoSocket)
        → find j y.sockets ≡ some t
        → Serves y entry (k (record { globals = y.globals; socket = t })))
    → Serves y entry (with_socket j y k)
with_socket-Serves entry j y k missing found = go (find j y.sockets) refl
  where
    go :
        (o : Option EchoSocket)
        → find j y.sockets ≡ o
        → Serves y entry
            (elim o [ none ↦ some y | some t ↦ k (record { globals = y.globals; socket = t }) ])
    go none e = missing e
    go (some t) e = found t e

gone_by-Serves :
    (j : ℕ) (y : System) (h : Frame → Frame)
    → IsSound y
    → Serves y (λ id o. if j == id then none else o) (with_socket j y (λ f. some (gone j y (h f))))
gone_by-Serves j y h sound =
    with_socket-Serves (λ id o. if j == id then none else o) j y (λ f. some (gone j y (h f)))
      (λ missing. none-Serves j y (λ o. none) missing refl sound)
      (λ t found. gone-Serves j y (h (record { globals = y.globals; socket = t })) sound)

pub step-Serves :
    (close : Frame → Frame) (env : Env) (e : Event) (y : System)
    → Allowed env e y
    → IsSound y
    → Serves y (λ id. entry_after id e) (step close env e y)
unfolding step entry_after
step-Serves close env (open_event j s) y a sound = opened-Serves j y s a.0 a.1 a.2 sound
step-Serves close env (data_event j bytes) y a sound =
    with_socket-Serves (λ id o. if j == id then owe_more bytes o else o) j y
      (λ f. on_data env bytes f >>= λ g. some (kept j y g))
      (λ missing. none-Serves j y (owe_more bytes) missing refl sound)
      (λ t found.
        kept-Serves j y t bytes (on_data env bytes (record { globals = y.globals; socket = t }))
          found sound
          (on_data-Echoes env bytes (record { globals = y.globals; socket = t }) a.0
            (find-AllValues Inv j y.sockets t sound.inv found) (a.1 t found)))
step-Serves close env (writable_event j) y a sound =
    with_socket-Serves (λ id o. o) j y (λ f. on_writable env f >>= λ g. some (kept j y g))
      (λ missing. quiet-Serves j y (some y) (none-Serves j y (owe_more []) missing refl sound))
      (λ t found. quiet-Serves j y _ (
        kept-Serves j y t [] (on_writable env (record { globals = y.globals; socket = t })) found
          sound
          (on_writable-Echoes env (record { globals = y.globals; socket = t }) a
            (find-AllValues Inv j y.sockets t sound.inv found))))
step-Serves close env (close_event j) y a sound = gone_by-Serves j y on_close sound
step-Serves close env (end_event j) y a sound = gone_by-Serves j y (on_end close) sound
step-Serves close env (timeout_event j) y a sound = gone_by-Serves j y (on_timeout close) sound
