-- ===== src/Fws/Network/Works.antt =====
-- The flashws clients and the flashws server together, over any interleaving of their events.
use mathlib.Core.Path.{subst}
use ws_benchmark.Prelude.{
  ℕ, suc, ◌+◌, ◌≤◌, ◌<◌, ◌^◌, ◌≡◌, refl, Option, none, some, List, [], ◌∷◌, length, find, ap, sym,
  ◌∙◌,
}
use ws_benchmark.Fws.{FlashWs, Outcome, done, Ends, ◌>>=◌}
use ws_benchmark.Fws.Client.{Config, Context, ClientLib}
use ws_benchmark.Fws.Client
use ws_benchmark.Fws.Client.Loop.Steps.{AllowedAt}
use ws_benchmark.Fws.Client.Loop.Done.{Balanced, step-Balanced}
use ws_benchmark.Fws.Server
use ws_benchmark.Fws.Server.Assembly.{IsAllowed}
use ws_benchmark.Fws.Server.Loop.{System, connects, reads, closes}
use ws_benchmark.Fws.Server.Loop.Serves.{step-Serves}
use ws_benchmark.Fws.Server.Loop.Table.{view_of, shown_by, Allowed, IsSound, entry_after}
use ws_benchmark.Fws.Exchange.Carried.{IsCarried-IsAllowed}
use ws_benchmark.Fws.Network.{
  Network, Event, serves, opens, hears, Peer, peer_of, IsDelivered, IsBrought, step, run,
  client_heard, Link, all_heard, Slot, relink,
}
use ws_benchmark.Fws.Network.Apart.{opened, heard-AreApart, opened-AreApart, all_heard-AreApart}
use ws_benchmark.Fws.Network.Joined.{
  table_of, AreApart, AllJoined, missing-IsFree, peer_of-IsFree, step-AllJoined, Changes,
}
use ws_benchmark.Fws.Network.Heard.{peer_of-Met, free-AllJoined, reads-AllJoined, Carries}
use ws_benchmark.Fws.Network.Hears.{hears-AllowedAt, hears-Changes, opens-AllowedAt, opens-Changes}

module _ (lib : ClientLib) (config : Config) (payload : List ℕ) (fws : FlashWs) (max : ℕ) where
  abbrev pub AllBrought : List Event → Network → Type 0
  AllBrought [] n = Unit {0}
  AllBrought (e ∷ es) n =
      IsBrought max e n
      × ((z : Network) → step lib config fws (max + fws.hdr_size) e n ≡ done z → AllBrought es z)

  -- The clients hold what they should and all echoes are accounted for, the server's buffers have
  -- room and its statistics are right, and each client that is connected has a connection of its own
  -- on which both sides have the message.
  pub record Sound (n : Network) : Type 0 where
    pub clients : Balanced lib config payload n.client
    pub server : IsSound fws max n.server
    pub joined : AllJoined payload (table_of n.server) n.links n.client.slots
    pub apart : AreApart n.links

  pub record Works (r : Outcome Network) : Type 0 where
    pub after : Network
    pub runs : r ≡ done after
    pub sound : Sound after

  delivered-IsAllowed :
      (env : Server.Env) (p : Server.Part) (id : ℕ) (n : Network) (o : Option Peer)
      → length payload ≤ max
      → peer_of id n.links n.client.slots ≡ o
      → IsDelivered max env p id n.server o
      → Sound n
      → (c : Server.ConnectCtx) → find id n.server.connections ≡ some c
      → IsAllowed max env p (view_of c)
  delivered-IsAllowed env p id n none fits found b sound c here = b c here
  delivered-IsAllowed env p id n (some peer) fits found b sound c here =
      let (frames, met) =
        peer_of-Met lib config payload (table_of n.server) n.client.ctx id n.links n.client.slots
          peer sound.joined sound.clients.good found in
      let shows : some (view_of c) ≡ some met.view = ap shown_by (sym here) ∙ met.there in
      let it_is : view_of c ≡ met.view = cc in
      subst (IsAllowed max env p) (sym it_is) (
        IsCarried-IsAllowed payload max env p peer.at peer.written met.view fits b.0 frames b.1 b.2
          met.collected)

  pub brought-Allowed :
      (env : Server.Env) (e : Server.Loop.Event) (n : Network)
      → length payload ≤ max
      → IsBrought max (serves env e) n
      → Sound n
      → Allowed fws max env e n.server
  brought-Allowed env (connects id) n fits b sound = b
  brought-Allowed env (closes id status_code reason) n fits b sound = tt
  brought-Allowed env (reads id p) n fits b sound =
      delivered-IsAllowed env p id n (peer_of id n.links n.client.slots) fits refl b sound

  delivered-Carries :
      (env : Server.Env) (p : Server.Part) (id : ℕ) (n : Network) (o : Option Peer)
      → peer_of id n.links n.client.slots ≡ o
      → IsDelivered max env p id n.server o
      → Sound n
      → (peer : Peer) → o ≡ some peer
      → Carries payload p peer
  delivered-Carries env p id n none found b sound peer e = cc
  delivered-Carries env p id n (some mate) found b sound peer e =
      let met =
        peer_of-Met lib config payload (table_of n.server) n.client.ctx id n.links n.client.slots
          mate sound.joined sound.clients.good found in
      let same : mate ≡ peer = cc in subst (Carries payload p) same (met.0, b.1)

  -- The server's event keeps each client joined to its connection.
  serves-AllJoined :
      (env : Server.Env) (e : Server.Loop.Event) (n : Network) (y : System)
      → IsBrought max (serves env e) n
      → Sound n
      → ((id : ℕ) → table_of y id ≡ entry_after id e (table_of n.server id))
      → AllJoined payload (table_of y) (all_heard e n.links) n.client.slots
  serves-AllJoined env (connects id) n y b sound after =
      free-AllJoined payload (table_of n.server) (table_of y) (connects id) n.links n.client.slots
        after
        (missing-IsFree payload (table_of n.server) id n.links n.client.slots (ap shown_by b)
          sound.joined)
        sound.joined
  serves-AllJoined env (closes id status_code reason) n y b sound after =
      free-AllJoined payload (table_of n.server) (table_of y) (closes id status_code reason) n.links
        n.client.slots after
        (peer_of-IsFree payload (table_of n.server) id n.links n.client.slots b sound.joined)
        sound.joined
  serves-AllJoined env (reads id p) n y b sound after =
      reads-AllJoined payload (table_of n.server) (table_of y) id p n.links n.client.slots after
        (delivered-Carries env p id n (peer_of id n.links n.client.slots) refl b sound) sound.apart
        sound.joined

  serves-Works :
      (env : Server.Env) (e : Server.Loop.Event) (n : Network)
      → length payload ≤ max
      → IsBrought max (serves env e) n
      → Sound n
      → Works (step lib config fws (max + fws.hdr_size) (serves env e) n)
  unfolding step
  serves-Works env e n fits b sound =
      let one =
        step-Serves fws max env e n.server (brought-Allowed env e n fits b sound) sound.server in
      rw one.runs (record {
        after = _;
        runs = refl;
        sound = record {
          clients = sound.clients;
          server = one.sound;
          joined = serves-AllJoined env e n one.after b sound one.shown;
          apart = all_heard-AreApart e n.links sound.apart;
        };
      })

  module _ (full : length payload ≡ config.max_data_len) (total : config.total_msg_cnt < 2 ^ 64)
      (limit : config.msg_limit_per_client < 2 ^ 64) where
    -- An event of the `i`-th client, which makes `change` of its link.
    client-Works :
        (i : ℕ) (change : Link → Link) (e : Client.Loop.Event) (n : Network)
        → AllowedAt payload (suc (length n.client.slots)) i e n.client.slots
        → Changes payload
            (table_of n.server)
            lib
            config
            (Client.on_close config)
            change
            e
            n.client.ctx
            i
            n.links
            n.client.slots
        → ((slots : List Slot) → AreApart (relink i change slots n.links))
        → Sound n
        → Works (
            Client.Loop.step lib config (Client.on_close config) i e n.client.ctx n.client.slots
            >>= λ client.
                done (record n { client = client; links = relink i change client.slots n.links }))
    client-Works i change e n allowed changes apart sound =
        let one =
          step-Balanced lib config payload full total limit i e n.client allowed sound.clients in
        rw one.runs (record {
          after = _;
          runs = refl;
          sound = record {
            clients = one.balanced;
            server = sound.server;
            joined =
                subst
                  (Ends (λ l.
                    AllJoined payload (table_of n.server) (relink i change l.slots n.links)
                      l.slots))
                  one.runs
                  (step-AllJoined payload (table_of n.server) lib config (Client.on_close config) i
                    change e n.client.ctx n.links n.client.slots changes sound.joined);
            apart = apart one.after.slots;
          };
        })

    pub step-Works :
        (e : Event) (n : Network)
        → length payload ≤ max
        → IsBrought max e n
        → Sound n
        → Works (step lib config fws (max + fws.hdr_size) e n)
    unfolding step
    step-Works (serves env e) n fits b sound = serves-Works env e n fits b sound
    step-Works (opens i id env) n fits b sound =
        client-Works i (opened id) (Client.Loop.opens env) n
          (opens-AllowedAt payload n.server i env (suc (length n.client.slots)) n.links
            n.client.slots b.0 b.1 sound.joined)
          (opens-Changes payload n.server lib config (Client.on_close config) n.client.ctx id i env
            n.links n.client.slots b.0 b.3 sound.joined)
          (λ slots.
            opened-AreApart id i slots n.links
              (peer_of-IsFree payload (table_of n.server) id n.links n.client.slots b.2
                sound.joined)
              sound.apart)
          sound
    step-Works (hears i env p) n fits b sound =
        client-Works i (client_heard p) (Client.Loop.reads env p) n
          (hears-AllowedAt payload n.server i env p (length n.client.slots) n.links n.client.slots b
            sound.joined)
          (hears-Changes payload n.server lib config (Client.on_close config) n.client.ctx i env p
            (length n.client.slots) n.links n.client.slots b sound.joined)
          (λ slots. heard-AreApart p i slots n.links sound.apart) sound

    pub run-Works :
        (events : List Event) (n : Network)
        → length payload ≤ max
        → AllBrought events n
        → Sound n
        → Works (run lib config fws (max + fws.hdr_size) events n)
    unfolding run
    run-Works [] n fits b sound = record { after = n; runs = refl; sound = sound }
    run-Works (e ∷ es) n fits b sound =
        let one = step-Works e n fits b.0 sound in
        let more = run-Works es one.after fits (b.1 one.after one.runs) one.sound in
        record { after = more.after; runs = rw one.runs more.runs; sound = more.sound }
