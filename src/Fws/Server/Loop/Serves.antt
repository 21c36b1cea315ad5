-- ===== src/Fws/Server/Loop/Serves.antt =====
-- The flashws echo server over all connections, and the table of what each connection shows.
use mathlib.Core.Path.{subst, ap₂}
use ws_benchmark.Prelude.{
  find-entry, ℕ, ◌≡◌, refl, ap, sym, ◌∙◌, Option, none, some, List, [], ◌∷◌, ◌==◌, if◌then◌else◌,
  find, replace, remove, find-cons_other, find-cons_self, find-remove_self, Distinct-replace,
  Distinct-remove, find-replace_self, find-replace_other, find-remove_other, find-AllValues,
  AllValues-replace, AllValues-remove,
}
use ws_benchmark.Fws.{FlashWs, Outcome, done, Ends, ◌>>=◌}
use ws_benchmark.Fws.Buffers.{Holds, new_buf-Holds}
use ws_benchmark.Fws.Server.{ConnectCtx, Frame, Env, Part, on_new_connection, on_read, on_close}
use ws_benchmark.Fws.Server.Assembly.{View, next, IsAllowed, on_read-Refines}
use ws_benchmark.Fws.Server.Intervals.{Inv, on_read-Keeps}
use ws_benchmark.Fws.Server.Loop.{System, Event, connects, reads, closes, updated, ended, step, run}
use ws_benchmark.Fws.Server.Loop.Table.{
  view_of, shown_by, with_part, entry_after, entry_by, size_of_buf, IsHeld, Allowed, AllAllowed,
  IsSound, Serves,
}

module _ (fws : FlashWs) (max : ℕ) where
  -- A part that is read.
  read-Serves :
      (env : Env) (j : ℕ) (p : Part) (y : System) (c : ConnectCtx)
      → find j y.connections ≡ some c
      → IsAllowed max env p (view_of c)
      → IsSound fws max y
      → Serves fws max y
          (λ id o. if j == id then with_part p o else o)
          (on_read fws (size_of_buf fws max) env p (record { ctx = y.ctx; con_ctx = c }) >>= λ f.
            done (updated j y f))
  read-Serves env j p y c found allowed sound =
      let f : Frame = record { ctx = y.ctx; con_ctx = c } in
      let one = on_read-Refines fws max env p (view_of c) f allowed (record {
        buffer = find-AllValues (IsHeld fws max) j y.connections c sound.held found;
        sent = refl;
      }) in
      let here : view_of one.after.con_ctx ≡ next p (view_of c) =
        ap₂ (λ xs ms. record { collected = xs; echoed = ms }) one.shown.buffer.holds
          one.shown.sent in
      record {
        after = updated j y one.after;
        runs = rw one.runs refl;
        sound = record {
          held =
              AllValues-replace (IsHeld fws max) j one.after.con_ctx y.connections
                (subst (λ acc. Holds fws.hdr_size max acc one.after.con_ctx.io_buf)
                  (sym one.shown.buffer.holds) one.shown.buffer)
                sound.held;
          distinct = Distinct-replace j one.after.con_ctx y.connections sound.distinct;
          inv =
              subst (Ends (λ g. Inv g.ctx)) one.runs
                (on_read-Keeps fws (size_of_buf fws max) env p f sound.inv);
        };
        shown =
            find-entry view_of j (with_part p) y.connections
              (replace j one.after.con_ctx y.connections)
              (rw (find-replace_self j one.after.con_ctx y.connections c found, found)
                (ap some here))
              (λ id. find-replace_other id j one.after.con_ctx y.connections);
      }

  missing-Serves :
      (j : ℕ) (y : System) (change : Option View → Option View)
      → find j y.connections ≡ none
      → change none ≡ none
      → IsSound fws max y
      → Serves fws max y (λ id o. if j == id then change o else o) (done y)
  missing-Serves j y change missing stays sound = record {
    after = y;
    runs = refl;
    sound = sound;
    shown =
        find-entry view_of j change y.connections y.connections (rw missing (sym stays))
          (λ id _. refl);
  }

  ended-Serves :
      (j : ℕ) (y : System) (line : Option (ℕ × List ℕ))
      → IsSound fws max y
      → Serves fws max y (λ id o. if j == id then none else o) (done (ended j y line))
  ended-Serves j y line sound = record {
    after = ended j y line;
    runs = refl;
    sound = record {
      held = AllValues-remove (IsHeld fws max) j y.connections sound.held;
      distinct = Distinct-remove j y.connections sound.distinct;
      inv = sound.inv;
    };
    shown =
        find-entry view_of j (λ o. none) y.connections (remove j y.connections)
          (ap shown_by (find-remove_self j y.connections sound.distinct))
          (λ id. find-remove_other id j y.connections);
  }

  new-Serves :
      (j : ℕ) (y : System)
      → find j y.connections ≡ none
      → IsSound fws max y
      → Serves fws max y
          (λ id o. if j == id then some (record { collected = []; echoed = [] }) else o)
          (done (record y {
            connections = (j, on_new_connection fws (size_of_buf fws max)) ∷ y.connections;
          }))
  unfolding on_new_connection
  new-Serves j y new sound = record {
    after = record y {
      connections = (j, on_new_connection fws (size_of_buf fws max)) ∷ y.connections;
    };
    runs = refl;
    sound = record {
      held = (
        subst
            (λ acc. Holds fws.hdr_size max acc (on_new_connection fws (size_of_buf fws max)).io_buf)
            (sym (new_buf-Holds fws max).holds) (new_buf-Holds fws max),
        sound.held,
      );
      distinct = (new, sound.distinct);
      inv = sound.inv;
    };
    shown =
        find-entry view_of j (λ o. some (record { collected = []; echoed = [] })) y.connections
          ((j, on_new_connection fws (size_of_buf fws max)) ∷ y.connections)
          (ap shown_by
              (find-cons_self j (on_new_connection fws (size_of_buf fws max)) y.connections)
            ∙ ap (λ xs. some (record { collected = xs; echoed = [] }))
                (new_buf-Holds fws max).holds)
          (λ id. find-cons_other id j (on_new_connection fws (size_of_buf fws max)) y.connections);
  }

  with_connection-Serves :
      (entry : ℕ → Option View → Option View) (j : ℕ) (y : System) (k : ConnectCtx → Outcome System)
      → (find j y.connections ≡ none → Serves fws max y entry (done y))
      → ((c : ConnectCtx) → find j y.connections ≡ some c → Serves fws max y entry (k c))
      → Serves fws max y entry (elim (find j y.connections) [ none ↦ done y | some c ↦ k c ])
  with_connection-Serves entry j y k missing found = go (find j y.connections) refl
    where
      go :
          (o : Option ConnectCtx)
          → find j y.connections ≡ o
          → Serves fws max y entry (elim o [ none ↦ done y | some c ↦ k c ])
      go none e = missing e
      go (some c) e = found c e

  pub step-Serves :
      (env : Env) (e : Event) (y : System)
      → Allowed fws max env e y
      → IsSound fws max y
      → Serves fws max y (λ id. entry_after id e) (step fws (size_of_buf fws max) env e y)
  unfolding step entry_after
  step-Serves env (connects j) y a sound = new-Serves j y a sound
  step-Serves env (reads j p) y a sound =
      with_connection-Serves (λ id o. if j == id then with_part p o else o) j y _
        (λ missing. missing-Serves j y (with_part p) missing refl sound)
        (λ c found. read-Serves env j p y c found (a c found) sound)
  step-Serves env (closes j status_code reason) y a sound =
      with_connection-Serves (λ id o. if j == id then none else o) j y _
        (λ missing. missing-Serves j y (λ o. none) missing refl sound)
        (λ c found. ended-Serves j y (on_close status_code reason c) sound)

  pub run-Serves_from :
      (es : List (Env × Event)) (y : System)
      → AllAllowed fws max es y
      → IsSound fws max y
      → Serves fws max y (λ id. entry_by id es) (run fws (size_of_buf fws max) es y)
  unfolding run entry_by
  run-Serves_from [] y a sound = record {
    after = y;
    runs = refl;
    sound = sound;
    shown = λ id. refl;
  }
  run-Serves_from ((env, e) ∷ es) y a sound =
      let one = step-Serves env e y a.0 sound in
      let more = run-Serves_from es one.after (a.1 one.after one.runs) one.sound in
      record {
        after = more.after;
        runs = rw one.runs more.runs;
        sound = more.sound;
        shown = λ id. more.shown id ∙ ap (entry_by id es) (one.shown id);
      }
