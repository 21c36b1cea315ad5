-- ===== src/Fws/Network/Finishes.antt =====
-- The flashws clients can always be brought to their end: there is no state in which none can go on.
use mathlib.Core.Logic.{◌↔◌}
use ws_benchmark.Prelude.{
  ℕ, ◌∙◌, sym, ap, ◌*◌, zero, suc, ◌+◌, ◌≤◌, ◌<◌, ◌^◌, ◌≡◌, List, [], ◌∷◌, length, arith, sym, ◌==◌,
  ==_iff, Bool-cases, inl, inr, inc64,
}
use ws_benchmark.Fws.{FlashWs}
use ws_benchmark.Fws.Client.{Config, Context, ClientLib}
use ws_benchmark.Fws.Client.Callbacks.Charges.{Reported, recount_row}
use ws_benchmark.Fws.Client.Loop.{Slot}
use ws_benchmark.Fws.Client.Loop.Done.{finished_iff}
use ws_benchmark.Fws.Server.Loop.{System}
use ws_benchmark.Fws.Exchange.{Position}
use ws_benchmark.Fws.Network.{Network, Link, offline, online, start_position}
use ws_benchmark.Fws.Network.Leads.{CanFinish, Leads, stays, Leads-trans}
use ws_benchmark.Fws.Network.Opens.{opens-Opened}
use ws_benchmark.Fws.Network.Turns.{net, Echoed, server_turn, client_turn}
use ws_benchmark.Fws.Network.Works.{Sound}

module _ (lib : ClientLib) (config : Config) (payload : List ℕ) (fws : FlashWs) (max : ℕ)
    (full : length payload ≡ config.max_data_len) (total : config.total_msg_cnt < 2 ^ 64)
    (limit : config.msg_limit_per_client < 2 ^ 64) (fits : length payload ≤ max) where
  abbrev Goes : Network → ℕ → Type 0
  Goes = Echoed lib config payload fws max full total limit fits

  after-Leads :
      {n m : Network} {k : ℕ}
      → Leads lib config fws (max + fws.hdr_size) max n m
      → Goes m k
      → Goes n k
  after-Leads leads echoed = record {
    after = echoed.after;
    leads = Leads-trans lib config fws (max + fws.hdr_size) max leads echoed.leads;
    sound = echoed.sound;
    counted = echoed.counted;
  }

  -- A client that is connected gets its echo, after the server has read the message if it has not.
  online_echo :
      (ctx : Context) (s : Slot) (slots : List Slot) (y : System) (id : ℕ) (a b : Position)
      (links : List Link)
      → Sound lib config payload fws max (net ctx s slots y (online id a b) links)
      → Goes (net ctx s slots y (online id a b) links) (inc64 ctx.loop_cnt)
  online_echo ctx s slots y id a b links sound = elim (Bool-cases (a.frame_no == b.frame_no)) [
    | inl same ↦
        let read =
          server_turn lib config payload fws max full total limit fits ctx s slots y id a b links
            sound ((==_iff a.frame_no b.frame_no).0 same) in
        after-Leads read.leads (
          client_turn lib config payload fws max full total limit fits ctx s slots read.server id
            read.to_server b read.links read.sound read.read)
    | inr other ↦
        let behind = sound.joined.0.behind in
        let ahead = sound.joined.0.ahead in
        client_turn lib config payload fws max full total limit fits ctx s slots y id a b links
          sound (ground arith)
  ]

  next_echo :
      (ctx : Context) (slots : List Slot) (y : System) (links : List Link)
      → 0 < length slots
      → Sound lib config payload fws max
          (record { client = record { ctx = ctx; slots = slots }; server = y; links = links })
      → Goes
          (record { client = record { ctx = ctx; slots = slots }; server = y; links = links })
          (inc64 ctx.loop_cnt)
  next_echo ctx [] y links some sound = absurd (omega arith)
  next_echo ctx (s ∷ slots) y [] some sound = absurd sound.joined
  next_echo ctx (s ∷ slots) y (online id a b ∷ links) some sound =
      online_echo ctx s slots y id a b links sound
  next_echo ctx (s ∷ slots) y (offline ∷ links) some sound =
      let opened =
        opens-Opened lib config payload fws max full total limit fits ctx s slots y links sound in
      after-Leads opened.leads (
        rw (sym opened.counted) (
          online_echo opened.ctx opened.s slots opened.server opened.id start_position
            start_position opened.links opened.sound))

  abbrev CanEnd : Network → Type 0
  CanEnd = CanFinish lib config fws (max + fws.hdr_size) max

  finished :
      (n : Network)
      → Sound lib config payload fws max n
      → (length n.client.slots ≡ 0) ↔ (n.client.ctx.loop_cnt ≡ config.total_msg_cnt)
  finished n sound =
      finished_iff lib config payload n.client.ctx.loop_cnt n.client.ctx n.client.slots
        sound.clients.good sound.clients.left

  some_left :
      (k : ℕ) (n : Network)
      → n.client.ctx.loop_cnt + suc k ≡ config.total_msg_cnt
      → Sound lib config payload fws max n
      → 0 < length n.client.slots
  some_left k n left sound = elim (Bool-cases (length n.client.slots == 0)) [
    | inl e ↦
        let all = (finished n sound).0 ((==_iff (length n.client.slots) 0).0 e) in
        absurd (omega (arith, left, all))
    | inr e ↦ ground arith
  ]

  reported :
      (n : Network)
      → n.client.ctx.loop_cnt ≡ config.total_msg_cnt
      → length n.client.slots ≡ 0
      → Sound lib config payload fws max n
      → Reported config [] config.total_msg_cnt
          (config.total_msg_cnt * config.max_data_len)
          (config.total_msg_cnt * config.max_data_len)
          n.client.ctx
  reported n all no_more sound =
      recount_row (sound.clients.accounts.report (omega (arith, no_more))) all
        (ap (λ k. k * config.max_data_len + 0) all ∙ omega arith)
        (ap (λ k. k * config.max_data_len) (omega (arith, all)))

  pub Sound-CanFinish :
      (k : ℕ) (n : Network)
      → n.client.ctx.loop_cnt + k ≡ config.total_msg_cnt
      → Sound lib config payload fws max n
      → CanEnd n
  Sound-CanFinish zero n left sound = record {
    after = n;
    leads = stays;
    none_left = (finished n sound).1 (omega (arith, left));
    all_echoes = omega (arith, left);
    report = reported n (omega (arith, left)) ((finished n sound).1 (omega (arith, left))) sound;
  }
  Sound-CanFinish (suc k) n left sound =
      let echoed =
        next_echo n.client.ctx n.client.slots n.server n.links (some_left k n left sound) sound in
      let more =
        Sound-CanFinish k echoed.after (omega (arith, left, echoed.counted, total)) echoed.sound in
      record {
        after = more.after;
        leads = Leads-trans lib config fws (max + fws.hdr_size) max echoed.leads more.leads;
        none_left = more.none_left;
        all_echoes = more.all_echoes;
        report = more.report;
      }
