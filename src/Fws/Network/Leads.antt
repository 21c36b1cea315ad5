-- ===== src/Fws/Network/Leads.antt =====
-- What the network can still bring to the flashws clients and the server.
use ws_benchmark.Prelude.{ℕ, ◌*◌, ◌≡◌, [], length}
use ws_benchmark.Fws.{FlashWs, Outcome, done}
use ws_benchmark.Fws.Client.{Config, ClientLib}
use ws_benchmark.Fws.Client.Callbacks.Charges.{Reported}
use ws_benchmark.Fws.Network.{Network, Event, IsBrought, step}

module _ (lib : ClientLib) (config : Config) (fws : FlashWs) (buf_size max : ℕ) where
  -- Some events that the network may bring lead from one state to another.
  pub data Leads : Network → Network → Type 0 where
    stays : {n : Network} → Leads n n
    goes :
        {n m z : Network} (e : Event)
        → IsBrought max e n
        → step lib config fws buf_size e n ≡ done m
        → Leads m z
        → Leads n z

  pub Leads-trans : {n m z : Network} → Leads n m → Leads m z → Leads n z
  Leads-trans stays more = more
  Leads-trans (goes e brought runs rest) more = goes e brought runs (Leads-trans rest more)

  -- The network can still bring what ends the run: no client is left, all echoes have come, and the
  -- one row of the report has a round trip for each of them and their bytes in both directions.
  pub record CanFinish (n : Network) : Type 0 where
    pub after : Network
    pub leads : Leads n after
    pub none_left : length after.client.slots ≡ 0
    pub all_echoes : after.client.ctx.loop_cnt ≡ config.total_msg_cnt
    pub report :
        Reported config [] config.total_msg_cnt
          (config.total_msg_cnt * config.max_data_len)
          (config.total_msg_cnt * config.max_data_len)
          after.client.ctx

  -- Whatever a run comes to, it ends there without an abort or a fault, and can be ended.
  pub record Completes (r : Outcome Network) : Type 0 where
    pub now : Network
    pub runs : r ≡ done now
    pub can_finish : CanFinish now
