-- ===== src/Fws/Network/Hears.antt =====
-- What the flashws clients read of the server is the next part of their echo.
use mathlib.Core.Path.{subst}
use ws_benchmark.Prelude.{
  arith, length, ◌+◌, ℕ, zero, suc, ◌≡◌, refl, true, some, List, [], ◌∷◌, ap,
}
use ws_benchmark.Fws.Client.{
  Config, ClientCtx, Context, ClientLib, Action, goes_on, reborn, closed, ended,
}
use ws_benchmark.Fws.{Outcome, Ends-map, Ends-bind}
use ws_benchmark.Fws.Client.Callbacks.{on_read, write_first_msg}
use ws_benchmark.Fws.Client.Callbacks.Frames.{
  ends, HasWritten, on_read-HasWritten, write_first_msg-frames,
}
use ws_benchmark.Fws.Client
use ws_benchmark.Fws.Client.Loop.{Slot, Status, fresh, receiving, status_after, handle}
use ws_benchmark.Fws.Client.Loop.Steps.{AllowedAt}
use ws_benchmark.Fws.Server.Loop.{System}
use ws_benchmark.Fws.Exchange.{Position, payloads, IsCarried}
use ws_benchmark.Fws.Exchange.Counted.{
  frame_no-moved, length-payloads, carried-below, carried-within,
}
use ws_benchmark.Fws.Exchange.Carried.{received-carried, IsCarried-IsEcho}
use ws_benchmark.Fws.Network.{Link, offline, online, client_heard, At, IsHeard, start_position}
use ws_benchmark.Fws.Network.Apart.{opened}
use ws_benchmark.Fws.Network.Joined.{table_of, IsOnline, IsJoined, AllJoined, Continues, Changes}

module _ (payload : List ℕ) (y : System) where
  pub hears-AllowedAt :
      (i : ℕ) (env : Client.Env) (p : Client.Part) (count : ℕ) (links : List Link)
      (slots : List Slot)
      → At (IsHeard env p count y) i links
      → AllJoined payload (table_of y) links slots
      → AllowedAt payload (suc count) i (Client.Loop.reads env p) slots
  hears-AllowedAt i env p count [] [] heard all = tt
  hears-AllowedAt i env p count [] (s ∷ slots) heard all = absurd all
  hears-AllowedAt i env p count (l ∷ links) [] heard all = tt
  hears-AllowedAt zero env p count (offline ∷ links) (s ∷ slots) heard all = absurd heard
  hears-AllowedAt zero env p count (online id a b ∷ links) (s ∷ slots) heard all = rw all.0.status (
    heard.0,
    IsCarried-IsEcho payload p b (payloads all.0.met.view.echoed) all.0.met.echoes
        (heard.1 all.0.met.view all.0.met.there) heard.2,
    omega (arith, heard.3),
  )
  hears-AllowedAt (suc i) env p count (l ∷ links) (s ∷ slots) heard all =
      hears-AllowedAt i env p count links slots heard all.1

  pub opens-AllowedAt :
      (i : ℕ) (env : Client.Env) (count : ℕ) (links : List Link) (slots : List Slot)
      → At (λ l. l ≡ offline) i links
      → env.write_ok ≡ true
      → AllJoined payload (table_of y) links slots
      → AllowedAt payload count i (Client.Loop.opens env) slots
  opens-AllowedAt i env count [] [] off w all = tt
  opens-AllowedAt i env count [] (s ∷ slots) off w all = absurd all
  opens-AllowedAt i env count (l ∷ links) [] off w all = tt
  opens-AllowedAt zero env count (l ∷ links) (s ∷ slots) off w all =
      rw ((subst (λ m. IsJoined payload (table_of y) m s) off all.0).0) w
  opens-AllowedAt (suc i) env count (l ∷ links) (s ∷ slots) off w all =
      opens-AllowedAt i env count links slots off w all.1

  HasWritten-Continues :
      (id : ℕ) (a b : Position) (env : Client.Env) (p : Client.Part) (s : Slot) (action : Action)
      → (j : IsOnline payload (table_of y id) a b s)
      → IsCarried (payloads j.met.view.echoed) b p.is_control_msg p.is_msg_end p.payload
      → HasWritten (length s.client_ctx.written + ends p.is_control_msg p.is_msg_end) action
      → Continues payload
          (table_of y)
          (client_heard p (online id a b))
          (status_after (Client.Loop.reads env p) s.status)
          action
  unfolding client_heard status_after
  HasWritten-Continues id a b env p s (goes_on f) j carried w = record {
    status = rw j.status (
        ap receiving
          (received-carried payload p b (payloads j.met.view.echoed) j.met.echoes carried));
    met = j.met;
    unread =
        omega
          (arith, w, j.unread, frame_no-moved p.is_control_msg p.is_msg_end (length p.payload) b);
    within =
        carried-within payload (payloads j.met.view.echoed) b p.is_control_msg p.is_msg_end
          p.payload j.met.echoes carried j.within;
    behind = omega (
      arith,
      frame_no-moved p.is_control_msg p.is_msg_end (length p.payload) b,
      length-payloads j.met.view.echoed,
      j.met.answered,
      carried-below (payloads j.met.view.echoed) b p.is_control_msg p.is_msg_end p.payload carried
          (omega (arith, j.behind, length-payloads j.met.view.echoed, j.met.answered)),
    );
    ahead =
        omega (arith, j.ahead, frame_no-moved p.is_control_msg p.is_msg_end (length p.payload) b);
  }
  HasWritten-Continues id a b env p s (reborn ctx c) j carried w = w
  HasWritten-Continues id a b env p s (closed ctx) j carried w = tt
  HasWritten-Continues id a b env p s (ended ctx) j carried w = tt

  module _ (lib : ClientLib) (config : Config) (close : Client.Env → Context → Outcome Context)
      (ctx : Context) where
    pub hears-Changes :
        (i : ℕ) (env : Client.Env) (p : Client.Part) (count : ℕ) (links : List Link)
        (slots : List Slot)
        → At (IsHeard env p count y) i links
        → AllJoined payload (table_of y) links slots
        → Changes payload
            (table_of y)
            lib
            config
            close
            (client_heard p)
            (Client.Loop.reads env p)
            ctx
            i
            links
            slots
    unfolding handle
    hears-Changes i env p count [] slots heard all = tt
    hears-Changes i env p count (l ∷ links) [] heard all = tt
    hears-Changes zero env p count (offline ∷ links) (s ∷ slots) heard all = absurd heard
    hears-Changes zero env p count (online id a b ∷ links) (s ∷ slots) heard all =
        Ends-map _ _
          (on_read lib config (close env) env p (record { ctx = ctx; client_ctx = s.client_ctx }))
          (on_read-HasWritten lib config (close env) env p
            (record { ctx = ctx; client_ctx = s.client_ctx }))
          (λ action w.
            HasWritten-Continues id a b env p s action all.0
              (heard.1 all.0.met.view all.0.met.there) w)
    hears-Changes (suc i) env p count (l ∷ links) (s ∷ slots) heard all =
        hears-Changes i env p count links slots heard all.1

    opened-IsOnline :
        (id : ℕ) (c : ClientCtx)
        → table_of y id ≡ some (record { collected = []; echoed = [] })
        → length c.written ≡ 1
        → IsOnline payload
            (table_of y id)
            start_position
            start_position
            (record { client_ctx = c; status = receiving [] })
    unfolding payloads
    opened-IsOnline id c new one = record {
      status = refl;
      met = record {
        view = _;
        there = new;
        collected = refl;
        echoes = tt;
        answered = refl;
        within = omega arith;
      };
      unread = one;
      within = omega arith;
      behind = omega arith;
      ahead = omega arith;
    }

    pub opens-Changes :
        (id i : ℕ) (env : Client.Env) (links : List Link) (slots : List Slot)
        → At (λ l. l ≡ offline) i links
        → table_of y id ≡ some (record { collected = []; echoed = [] })
        → AllJoined payload (table_of y) links slots
        → Changes payload
            (table_of y)
            lib
            config
            close
            (opened id)
            (Client.Loop.opens env)
            ctx
            i
            links
            slots
    unfolding status_after handle
    opens-Changes id i env [] slots off new all = tt
    opens-Changes id i env (l ∷ links) [] off new all = tt
    opens-Changes id zero env (l ∷ links) (s ∷ slots) off new all =
        let unwritten = (subst (λ m. IsJoined payload (table_of y) m s) off all.0).1 in
        Ends-bind _ _
          (write_first_msg lib config env (record { ctx = ctx; client_ctx = s.client_ctx })) _
          (write_first_msg-frames lib config env (record { ctx = ctx; client_ctx = s.client_ctx }))
          (λ f one. opened-IsOnline id f.client_ctx new (omega (arith, one, unwritten)))
    opens-Changes id (suc i) env (l ∷ links) (s ∷ slots) off new all =
        opens-Changes id i env links slots off new all.1
