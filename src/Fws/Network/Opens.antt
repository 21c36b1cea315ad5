-- ===== src/Fws/Network/Opens.antt =====
-- A flashws client that is not connected can connect: the server accepts it under an unused name.
use mathlib.Core.Path.{subst}
use ws_benchmark.Prelude.{
  ℕ, ◌+◌, ◌≤◌, ◌<◌, ◌^◌, ◌≡◌, refl, some, List, [], length, ap, ◌∙◌, ==_refl, if_true, find-unused,
  unused,
}
use ws_benchmark.Fws.{FlashWs, done, Ends, after-done}
use ws_benchmark.Fws.Client.{Config, ClientCtx, Context, ClientLib}
use ws_benchmark.Fws.Client
use ws_benchmark.Fws.Client.Callbacks.Balance.{Kept, write_first_msg-Kept}
use ws_benchmark.Fws.Client.Callbacks.Echo.{Takes}
use ws_benchmark.Fws.Client.Callbacks.Runs.{write_first_msg-Sends}
use ws_benchmark.Fws.Client.Loop.{Slot, fresh, receiving, settle, handle, status_after}
use ws_benchmark.Fws.Client.Loop.Slots.{Good}
use ws_benchmark.Fws.Server.Loop.{System, connects}
use ws_benchmark.Fws.Server.Loop.Serves.{step-Serves}
use ws_benchmark.Fws.Server.Loop.Table.{shown_by, entry_after}
use ws_benchmark.Fws.Network.{
  Network, Link, offline, online, serves, opens, IsBrought, step, peer_of, all_heard, server_heard,
  relink, link_of, start_position,
}
use ws_benchmark.Fws.Network.Apart.{all_heard-IsFree}
use ws_benchmark.Fws.Network.Heard.{peer_of-free}
use ws_benchmark.Fws.Network.Joined.{table_of, IsFree, missing-IsFree, same_length}
use ws_benchmark.Fws.Network.Leads.{Leads, stays, goes, Leads-trans}
use ws_benchmark.Fws.Network.Turns.{net, server_env, client_env}
use ws_benchmark.Fws.Network.Works.{Sound, step-Works}

module _ (lib : ClientLib) (config : Config) (payload : List ℕ) (fws : FlashWs) (max : ℕ)
    (full : length payload ≡ config.max_data_len) (total : config.total_msg_cnt < 2 ^ 64)
    (limit : config.msg_limit_per_client < 2 ^ 64) (fits : length payload ≤ max) where
  -- The server has a connection for the first client, which is not linked yet.
  record Accepted (n : Network) (ctx : Context) (s : Slot) (slots : List Slot) : Type 0 where
    id : ℕ
    server : System
    links : List Link
    leads : Leads lib config fws (max + fws.hdr_size) max n (net ctx s slots server offline links)
    sound : Sound lib config payload fws max (net ctx s slots server offline links)
    free : IsFree id links
    new : table_of server id ≡ some (record { collected = []; echoed = [] })

  server_accepts :
      (ctx : Context) (s : Slot) (slots : List Slot) (y : System) (links : List Link)
      → Sound lib config payload fws max (net ctx s slots y offline links)
      → Accepted (net ctx s slots y offline links) ctx s slots
  unfolding step all_heard server_heard entry_after
  server_accepts ctx s slots y links sound =
      let n = net ctx s slots y offline links in
      let id = unused y.connections in
      let unknown = find-unused y.connections in
      let works =
        step-Works lib config payload fws max full total limit (serves server_env (connects id)) n
          fits unknown sound in
      let one = step-Serves fws max server_env (connects id) y unknown sound.server in
      let runs : step lib config fws (max + fws.hdr_size) (serves server_env (connects id)) n
          ≡ done (net ctx s slots one.after offline (all_heard (connects id) links)) =
        rw one.runs refl in
      record {
        id = id;
        server = one.after;
        links = all_heard (connects id) links;
        leads = goes (serves server_env (connects id)) unknown runs stays;
        sound =
            after-done (Sound lib config payload fws max) _ works.after works.runs works.sound _
              runs;
        free = all_heard-IsFree (connects id) id links (
            missing-IsFree payload (table_of y) id links slots (ap shown_by unknown)
              sound.joined.1);
        new = one.shown id ∙ if_true _ _ (==_refl id);
      }

  -- The first client has opened its connection and sent its message.
  pub record Opened (n : Network) (slots : List Slot) (loop_cnt : ℕ) : Type 0 where
    pub ctx : Context
    pub s : Slot
    pub id : ℕ
    pub server : System
    pub links : List Link
    pub leads :
        Leads lib config fws
          (max + fws.hdr_size)
          max
          n
          (net ctx s slots server (online id start_position start_position) links)
    pub sound :
        Sound lib config payload fws max
          (net ctx s slots server (online id start_position start_position) links)
    pub counted : ctx.loop_cnt ≡ loop_cnt

  Accepted-Opened :
      (n : Network) (ctx : Context) (s : Slot) (slots : List Slot)
      → Accepted n ctx s slots
      → Opened n slots ctx.loop_cnt
  unfolding step Client.Loop.step handle status_after settle relink link_of peer_of
  Accepted-Opened n ctx s slots acc =
      let m = net ctx s slots acc.server offline acc.links in
      let env = client_env 0 in
      let takes : Takes lib config payload ctx s.client_ctx =
        subst (Good lib config payload ctx s.client_ctx) acc.sound.joined.0.0
          acc.sound.clients.good.0 in
      let sent =
        write_first_msg-Sends lib config payload (λ c. done c) (λ c. (c, refl, refl, refl)) full env
          ctx s.client_ctx refl takes in
      let kept : Kept lib config (record { ctx = ctx; client_ctx = s.client_ctx }) sent.after =
        subst (Ends (Kept lib config (record { ctx = ctx; client_ctx = s.client_ctx }))) sent.runs
          (write_first_msg-Kept lib config env (record { ctx = ctx; client_ctx = s.client_ctx })) in
      let brought : IsBrought max (opens 0 acc.id env) m =
        (refl, refl, peer_of-free acc.id acc.links slots acc.free, acc.new) in
      let works =
        step-Works lib config payload fws max full total limit (opens 0 acc.id env) m fits brought
          acc.sound in
      let after : Network =
        net sent.after.ctx (record { client_ctx = sent.after.client_ctx; status = receiving [] })
          slots acc.server (online acc.id start_position start_position) acc.links in
      let runs : step lib config fws (max + fws.hdr_size) (opens 0 acc.id env) m ≡ done after =
        rw
          (
            sent.runs,
            if_true _ _
                (same_length payload (table_of acc.server) acc.links slots acc.sound.joined.1),
          )
          refl in
      record {
        ctx = sent.after.ctx;
        s = record { client_ctx = sent.after.client_ctx; status = receiving [] };
        id = acc.id;
        server = acc.server;
        links = acc.links;
        leads =
            Leads-trans lib config fws (max + fws.hdr_size) max acc.leads
              (goes (opens 0 acc.id env) brought runs stays);
        sound =
            after-done (Sound lib config payload fws max) _ works.after works.runs works.sound _
              runs;
        counted = kept.loop_kept;
      }

  pub opens-Opened :
      (ctx : Context) (s : Slot) (slots : List Slot) (y : System) (links : List Link)
      → Sound lib config payload fws max (net ctx s slots y offline links)
      → Opened (net ctx s slots y offline links) slots ctx.loop_cnt
  opens-Opened ctx s slots y links sound =
      Accepted-Opened (net ctx s slots y offline links) ctx s slots
        (server_accepts ctx s slots y links sound)
