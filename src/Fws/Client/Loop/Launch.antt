-- ===== src/Fws/Client/Loop/Launch.antt =====
-- The flashws client from its command line to the end of its loop.
use mathlib.Core.Path.{subst}
use native.Mathlib.Nat.{zero-mul}
use ws_benchmark.Prelude.{
  ℕ, ◌+◌, ◌*◌, ◌^◌, ◌<◌, ◌≡◌, refl, suc, sym, ap, ◌∙◌, List, [], ◌∷◌, length, arith,
}
use ws_benchmark.Args.{Text}
use ws_benchmark.Payload.{random_digits, length-random_digits}
use ws_benchmark.Fws.Starts.{running}
use ws_benchmark.Fws.Client.{Config, ClientCtx, Context, ClientLib, on_close}
use ws_benchmark.Fws.Client.Callbacks.Balance.{all_remaining, remaining}
use ws_benchmark.Fws.Client.Fleet.{Fleet}
use ws_benchmark.Fws.Client.Main.{Boot, ClientArgs, client_args, test_ws_client}
use ws_benchmark.Fws.Client.Fleet.Grows.{AllReady}
use ws_benchmark.Fws.Client.Ready.{
  IsUp, Ready, client_args-total, client_args-clients, test_ws_client-Ready,
}
use ws_benchmark.Fws.Client.Loop.{Loop, Slot, Event, fresh, run}
use ws_benchmark.Fws.Client.Callbacks.Charges.{Charged, recount}
use ws_benchmark.Fws.Client.Loop.Accounts.{Accounts, all_received, all_open}
use ws_benchmark.Fws.Client.Loop.Slots.{AllGood, all_left}
use ws_benchmark.Fws.Client.Loop.Done.{AllAllowed, Balanced, Finishes, run-Finishes}

-- What `TestWsClient` leaves in the loop: no connection is open yet.
unfoldable pub slots_of : List ClientCtx → List Slot
slots_of [] = []
slots_of (c ∷ clients) = record { client_ctx = c; status = fresh } ∷ slots_of clients

abbrev pub launched : Fleet → Loop
launched fleet = record { ctx = fleet.ctx; slots = slots_of fleet.clients }

all_left-slots_of :
    (config : Config) (clients : List ClientCtx)
    → all_left config (slots_of clients) ≡ all_remaining config clients
unfolding slots_of
all_left-slots_of config [] = refl
all_left-slots_of config (c ∷ clients) =
    ap (λ n. remaining config c + n) (all_left-slots_of config clients)

AllGood-slots_of :
    (lib : ClientLib) (config : Config) (rand : ℕ → ℕ) (ctx : Context) (clients : List ClientCtx)
    → AllReady lib config rand ctx clients
    → AllGood lib config (random_digits rand 0 config.max_data_len) ctx (slots_of clients)
unfolding slots_of
AllGood-slots_of lib config rand ctx [] r = tt
AllGood-slots_of lib config rand ctx (c ∷ clients) r =
    (r.0, r.1, AllGood-slots_of lib config rand ctx clients r.3)

all_received-slots_of : (clients : List ClientCtx) → all_received (slots_of clients) ≡ 0
unfolding slots_of
all_received-slots_of [] = refl
all_received-slots_of (c ∷ clients) = omega (arith, all_received-slots_of clients)

all_open-slots_of : (clients : List ClientCtx) → all_open (slots_of clients) ≡ 0
unfolding slots_of
all_open-slots_of [] = refl
all_open-slots_of (c ∷ clients) = omega (arith, all_open-slots_of clients)

length-slots_of : (clients : List ClientCtx) → length (slots_of clients) ≡ length clients
unfolding slots_of
length-slots_of [] = refl
length-slots_of (c ∷ clients) = ap suc (length-slots_of clients)

launched-Accounts :
    (config : Config) (fleet : Fleet)
    → 0 < length fleet.clients
    → fleet.ctx.loop_cnt ≡ 0
    → Charged [] 0 0 0 fleet.ctx
    → Accounts config 0 0 0 (launched fleet)
launched-Accounts config fleet some none_yet charged = record {
  counts = λ _.
      recount charged (sym none_yet)
        (sym (
          ap (λ n. n * config.max_data_len + (0 + all_received (slots_of fleet.clients))) none_yet
          ∙ omega (arith, zero-mul config.max_data_len, all_received-slots_of fleet.clients)))
        (sym (
          ap (λ n. n * config.max_data_len)
            (omega (arith, none_yet, all_open-slots_of fleet.clients))
          ∙ zero-mul config.max_data_len));
  report = λ none_left. absurd (omega (arith, some, none_left, length-slots_of fleet.clients));
}

test_ws_client-args :
    (lib : ClientLib) (boot : Boot) (hash : ℕ) (argv : List Text) (a : ClientArgs) (fleet : Fleet)
    → test_ws_client lib boot hash argv ≡ running (a, fleet)
    → client_args argv ≡ running a
unfolding test_ws_client
test_ws_client-args lib boot hash argv a fleet e = ground arith

-- What `TestWsClient` leaves: the clients asked for, with the message and all echoes to come.
pub record Launches (lib : ClientLib) (boot : Boot) (a : ClientArgs) (fleet : Fleet) : Type 0 where
  pub number : length fleet.clients ≡ a.client_cnt
  pub total : a.config.total_msg_cnt < 2 ^ 64
  pub full : length (random_digits boot.rand 0 a.config.max_data_len) ≡ a.config.max_data_len
  pub ready : AllReady lib a.config boot.rand fleet.ctx fleet.clients
  pub balanced :
      Balanced lib a.config (random_digits boot.rand 0 a.config.max_data_len) (launched fleet)

pub test_ws_client-Launches :
    (lib : ClientLib) (boot : Boot) (hash : ℕ) (argv : List Text) (a : ClientArgs) (fleet : Fleet)
    → IsUp boot
    → test_ws_client lib boot hash argv ≡ running (a, fleet)
    → a.config.msg_limit_per_client * a.client_cnt * a.config.reborn_limit_for_client < 2 ^ 64
    → Launches lib boot a fleet
test_ws_client-Launches lib boot hash argv a fleet up started fits =
    let args = test_ws_client-args lib boot hash argv a fleet started in
    let (total, some, reborn) = client_args-total lib boot up argv a args in
    let (fleet', started', ready') = test_ws_client-Ready lib boot up hash argv a args fits in
    let same : fleet' ≡ fleet = cc in
    let ready : Ready lib boot up a fleet = subst (Ready lib boot up a) same ready' in
    record {
      number = ready.number;
      total = omega (arith, total);
      full = length-random_digits boot.rand 0 a.config.max_data_len;
      ready = ready.ready;
      balanced = record {
        good = AllGood-slots_of lib a.config boot.rand fleet.ctx fleet.clients ready.ready;
        left =
            ap (λ n. fleet.ctx.loop_cnt + n) (all_left-slots_of a.config fleet.clients)
            ∙ ready.balanced;
        accounts =
            launched-Accounts a.config fleet
              (omega (arith, ready.number, client_args-clients lib boot up argv a args))
              ready.none_yet ready.charged;
      };
    }

-- From the command line to the end: if every call succeeds, the servers echo, `Close` calls `OnClose`
-- at once and counts the socket that closes still, and the number of messages fits in 64 bits, then
-- the loop that `TestWsClient` starts, with its clients' events in any order, never aborts and never writes out of
-- a buffer, each client sends the random digits and nothing else, and no client is left exactly when
-- `TOTAL_MSG_CNT` echoes have come.
pub launch-Finishes :
    (lib : ClientLib) (boot : Boot) (hash : ℕ) (argv : List Text) (a : ClientArgs) (fleet : Fleet)
    (events : List (ℕ × Event))
    → IsUp boot
    → test_ws_client lib boot hash argv ≡ running (a, fleet)
    → a.config.msg_limit_per_client * a.client_cnt * a.config.reborn_limit_for_client < 2 ^ 64
    → a.config.msg_limit_per_client < 2 ^ 64
    → AllAllowed lib a.config
        (random_digits boot.rand 0 a.config.max_data_len)
        events
        (launched fleet)
    → (length fleet.clients ≡ a.client_cnt)
      × Finishes lib a.config
          (random_digits boot.rand 0 a.config.max_data_len)
          (run lib a.config (on_close a.config) events (launched fleet))
launch-Finishes lib boot hash argv a fleet events up started fits limit allowed =
    let ready = test_ws_client-Launches lib boot hash argv a fleet up started fits in
    (
      ready.number,
      run-Finishes lib a.config (random_digits boot.rand 0 a.config.max_data_len) ready.full
          ready.total limit events (launched fleet) allowed ready.balanced,
    )
