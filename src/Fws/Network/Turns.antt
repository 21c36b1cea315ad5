-- ===== src/Fws/Network/Turns.antt =====
-- The next turn of a flashws client: the server reads its message whole, or it hears the echo whole.
use mathlib.Core.Path.{subst}
use ws_benchmark.Prelude.{
  ℕ, suc, zero, ◌+◌, ◌≤◌, ◌<◌, ◌^◌, ◌≡◌, refl, true, false, some, List, ◌∷◌, length, drop, arith,
  ap, sym, ◌∙◌, ==_refl, if_true, inc64,
}
use ws_benchmark.Fws.{FlashWs, done, Ends, Ends-bind, after-done}
use ws_benchmark.Fws.Client.{
  Config, Context, ClientLib, connects, Action, goes_on, reborn, closed, ended, new_ws_client,
}
use ws_benchmark.Fws.Client
use ws_benchmark.Fws.Client.Callbacks.{on_read}
use ws_benchmark.Fws.Client.Callbacks.Echo.{IsFine}
use ws_benchmark.Fws.Client.Callbacks.Balance.{on_close-keeps}
use ws_benchmark.Fws.Client.Callbacks.Counter.{ctx_of, on_read-Counts}
use ws_benchmark.Fws.Client.Loop.{Slot, Status, settle, handle, status_after}
use ws_benchmark.Fws.Server
use ws_benchmark.Fws.Server.Loop.{System, reads}
use ws_benchmark.Fws.Server.Loop.Serves.{step-Serves}
use ws_benchmark.Fws.Server.Assembly.{View}
use ws_benchmark.Fws.Exchange.{Position, moved, payloads, IsCarried}
use ws_benchmark.Fws.Exchange.Counted.{rest-IsCarried, length-payloads}
use ws_benchmark.Fws.Network.{
  Network, Event, Link, online, serves, hears, IsBrought, IsDelivered, step, peer_of, all_heard,
  server_heard,
}
use ws_benchmark.Fws.Network.Heard.{Good-frames}
use ws_benchmark.Fws.Network.Joined.{table_of}
use ws_benchmark.Fws.Network.Leads.{Leads, stays, goes}
use ws_benchmark.Fws.Network.Works.{Sound, step-Works, brought-Allowed}

abbrev pub net : Context → Slot → List Slot → System → Link → List Link → Network
net ctx s slots y l links = record {
  client = record { ctx = ctx; slots = s ∷ slots };
  server = y;
  links = l ∷ links;
}

-- Calls that succeed.
abbrev pub server_env : Server.Env
server_env = record {
  clock = record { start_ns = 0; now_ns = 0; printed_ns = 0 };
  socket_count = 0;
  write_ok = true;
}

abbrev pub client_env : ℕ → Client.Env
client_env socket_count = record {
  now_ns = 0;
  stop_tick = 0;
  start_tick = 0;
  write_ok = true;
  new_client = record { init_ok = true; connect = connects };
  add_socket_ok = true;
  socket_count = socket_count;
}

-- The message in one part, as each side reads it.
abbrev pub server_part : List ℕ → Server.Part
server_part payload = record {
  opcode = 2;
  payload = payload;
  is_frame_end = true;
  is_msg_end = true;
  is_control_msg = false;
}

abbrev pub client_part : List ℕ → Client.Part
client_part payload = record {
  opcode = 2;
  payload = payload;
  is_frame_end = true;
  is_msg_end = true;
  is_control_msg = false;
}

client_env-IsFine : (n : ℕ) → IsFine (client_env n)
unfolding new_ws_client
client_env-IsFine n = record { writes = refl; connects = refl; adds = refl }

module _ (lib : ClientLib) (config : Config) (payload : List ℕ) (fws : FlashWs) (max : ℕ)
    (full : length payload ≡ config.max_data_len) (total : config.total_msg_cnt < 2 ^ 64)
    (limit : config.msg_limit_per_client < 2 ^ 64) (fits : length payload ≤ max) where
  -- The server has read the message and echoed it.
  pub record Answered (n : Network) (ctx : Context) (s : Slot) (slots : List Slot) (id : ℕ)
      (b : Position) : Type 0 where
    pub server : System
    pub to_server : Position
    pub links : List Link
    pub leads :
        Leads lib config fws
          (max + fws.hdr_size)
          max
          n
          (net ctx s slots server (online id to_server b) links)
    pub sound :
        Sound lib config payload fws max (net ctx s slots server (online id to_server b) links)
    pub read : to_server.frame_no ≡ b.frame_no + 1

  module _ (ctx : Context) (s : Slot) (slots : List Slot) (y : System) (id : ℕ) (a b : Position)
      (links : List Link)
      (sound : Sound lib config payload fws max (net ctx s slots y (online id a b) links)) where
    abbrev now : Network
    now = net ctx s slots y (online id a b) links

    abbrev server_event : Event
    server_event = serves server_env (reads id (server_part (drop a.offset payload)))

    server_event-IsBrought : a.frame_no ≡ b.frame_no → IsBrought max server_event now
    unfolding peer_of
    server_event-IsBrought same =
        subst (IsDelivered max server_env (server_part (drop a.offset payload)) id y)
          (sym (if_true _ _ (==_refl id)))
          (
            refl,
            rest-IsCarried payload s.client_ctx.written a
                (Good-frames lib config payload (table_of y) ctx s.client_ctx s.status
                  sound.clients.good.0)
                (omega (arith, sound.joined.0.unread, same)) sound.joined.0.met.within,
            λ c _. cc,
          )

    pub server_turn : a.frame_no ≡ b.frame_no → Answered now ctx s slots id b
    unfolding step all_heard server_heard moved
    server_turn same =
        let brought = server_event-IsBrought same in
        let works =
          step-Works lib config payload fws max full total limit server_event now fits brought
            sound in
        let one =
          step-Serves fws max server_env (reads id (server_part (drop a.offset payload))) y
            (brought-Allowed lib config payload fws max server_env
              (reads id (server_part (drop a.offset payload))) now fits brought sound)
            sound.server in
        let runs : step lib config fws (max + fws.hdr_size) server_event now
            ≡ done (
                net ctx s slots one.after
                  (online id (record { frame_no = a.frame_no + 1; offset = 0 }) b)
                  (all_heard (reads id (server_part (drop a.offset payload))) links)) =
          rw (one.runs, ==_refl id) refl in
        record {
          server = one.after;
          to_server = record { frame_no = a.frame_no + 1; offset = 0 };
          links = all_heard (reads id (server_part (drop a.offset payload))) links;
          leads = goes server_event brought runs stays;
          sound =
              after-done (Sound lib config payload fws max) _ works.after works.runs works.sound _
                runs;
          read = ap (λ n. n + 1) same;
        }

  -- One more echo counts.
  pub record Echoed (n : Network) (loop_cnt : ℕ) : Type 0 where
    pub after : Network
    pub leads : Leads lib config fws (max + fws.hdr_size) max n after
    pub sound : Sound lib config payload fws max after
    pub counted : after.client.ctx.loop_cnt ≡ loop_cnt

  settle-loop_cnt :
      (st : Status) (slots : List Slot) (action : Action)
      → (settle st slots action).ctx.loop_cnt ≡ (ctx_of action).loop_cnt
  unfolding settle
  settle-loop_cnt st slots (goes_on f) = refl
  settle-loop_cnt st slots (reborn ctx c) = refl
  settle-loop_cnt st slots (closed ctx) = refl
  settle-loop_cnt st slots (ended ctx) = refl

  first_reads-counts :
      (env : Client.Env) (p : Client.Part) (ctx : Context) (s : Slot) (slots : List Slot)
      → p.is_control_msg ≡ false
      → p.is_msg_end ≡ true
      → Ends
          (λ l. l.ctx.loop_cnt ≡ inc64 ctx.loop_cnt)
          (Client.Loop.step lib config
            (Client.on_close config)
            zero
            (Client.Loop.reads env p)
            ctx
            (s ∷ slots))
  unfolding Client.Loop.step handle
  first_reads-counts env p ctx s slots c e =
      Ends-bind _ _
        (on_read lib config (Client.on_close config env) env p
          (record { ctx = ctx; client_ctx = s.client_ctx }))
        _
        (on_read-Counts lib config (Client.on_close config env) (on_close-keeps lib config env) env
          p (record { ctx = ctx; client_ctx = s.client_ctx }) c e)
        (λ action counts.
          settle-loop_cnt (status_after (Client.Loop.reads env p) s.status) slots action ∙ counts)

  module _ (ctx : Context) (s : Slot) (slots : List Slot) (y : System) (id : ℕ) (a b : Position)
      (links : List Link)
      (sound : Sound lib config payload fws max (net ctx s slots y (online id a b) links)) where
    abbrev client_event : Event
    client_event = hears 0 (client_env (suc (length slots))) (client_part (drop b.offset payload))

    rest-of_echo :
        a.frame_no ≡ b.frame_no + 1
        → (v : View) → table_of y id ≡ some v
        → IsCarried (payloads v.echoed) b false true (drop b.offset payload)
    rest-of_echo ahead v there =
        let met = sound.joined.0.met in
        let same : met.view ≡ v = let e = sym met.there ∙ there in cc in
        subst (λ w. IsCarried (payloads w.echoed) b false true (drop b.offset payload)) same
          (rest-IsCarried payload (payloads met.view.echoed) b met.echoes
            (length-payloads met.view.echoed ∙ met.answered ∙ ahead) sound.joined.0.within)

    pub client_turn :
        a.frame_no ≡ b.frame_no + 1
        → Echoed (net ctx s slots y (online id a b) links) (inc64 ctx.loop_cnt)
    unfolding step
    client_turn ahead =
        let n = net ctx s slots y (online id a b) links in
        let brought : IsBrought max client_event n =
          (client_env-IsFine (suc (length slots)), rest-of_echo ahead, λ c _. cc, omega arith) in
        let works =
          step-Works lib config payload fws max full total limit client_event n fits brought
            sound in
        record {
          after = works.after;
          leads = goes client_event brought works.runs stays;
          sound = works.sound;
          counted = subst (Ends (λ z. z.client.ctx.loop_cnt ≡ inc64 ctx.loop_cnt)) works.runs (
              Ends-bind _ _
                (Client.Loop.step lib config (Client.on_close config) zero
                  (Client.Loop.reads (client_env (suc (length slots)))
                    (client_part (drop b.offset payload)))
                  ctx (s ∷ slots))
                _
                (first_reads-counts (client_env (suc (length slots)))
                  (client_part (drop b.offset payload)) ctx s slots refl refl)
                (λ l counts. counts));
        }
