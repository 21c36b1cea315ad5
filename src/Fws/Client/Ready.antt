-- ===== src/Fws/Client/Ready.antt =====
-- What the loop of the flashws client holds when `TestWsClient` starts it.
use native.Mathlib.Nat.{mul_comm, mul_assoc, zero-mul, add-zero, zero-add, suc-add, add-suc}
use ws_benchmark.Prelude.{
  ℕ, zero, suc, ◌+◌, ◌*◌, ◌<◌, ◌^◌, ◌≡◌, refl, ap, ◌∙◌, true, List, [], length, arith, u64, sym,
}
use ws_benchmark.Args.{Text}
use ws_benchmark.Fws.Starts.{
  cannot_create_file, Start, running, or_return-true, or_abort-true, new_client_failed,
  loop_init_failed, add_socket_failed,
}
use ws_benchmark.Fws.Client.{new_ws_client, Config, ClientLib, open_file}
use ws_benchmark.Fws.Client.Callbacks.Balance.{all_remaining, later-suc, later}
use ws_benchmark.Fws.Client.Callbacks.Charges.{Charged}
use ws_benchmark.Fws.Client.Fleet.{Fleet}
use ws_benchmark.Fws.Client.Fleet.Grows.{AllReady, Grown, AllReady-in, add_client-Grows}
use ws_benchmark.Fws.Client.Main.{
  Boot, ClientArgs, client_args, add_clients, test_ws_client, new_context,
}

-- Every call succeeds.
pub record IsUp (boot : Boot) : Type 0 where
  pub env : boot.env_init ≡ true
  pub fopen : (path : Text) → boot.fopen path ≡ true
  pub loop : boot.loop_init ≡ true
  pub ssl : boot.ssl_init ≡ true
  pub clients : (k : ℕ) → new_ws_client (boot.new_client k) ≡ true
  pub adds : (k : ℕ) → boot.add_socket_ok k ≡ true

module _ (lib : ClientLib) (boot : Boot) (up : IsUp boot) where
  record Adds (config : Config) (n : ℕ) (r : Start Fleet) : Type 0 where
    pub after : Fleet
    pub runs : r ≡ running after
    pub grown : Grown lib config boot.rand n after

  add_clients-Adds :
      (config : Config) (k m n : ℕ) (fleet : Fleet)
      → 0 < config.msg_limit_per_client
      → 0 < config.reborn_limit_for_client
      → Grown lib config boot.rand n fleet
      → Adds config (m + n) (add_clients lib config boot k m fleet)
  unfolding add_clients
  add_clients-Adds config k zero n fleet limit reborn g =
      rw (zero-add n) (record { after = fleet; runs = refl; grown = g })
  add_clients-Adds config k (suc m) n fleet limit reborn g =
      let one = add_client-Grows lib config boot.rand n fleet limit reborn g in
      rw
        (
          or_return-true (new_ws_client (boot.new_client k)) new_client_failed (up.clients k),
          one.runs,
          or_return-true (boot.add_socket_ok k) add_socket_failed (up.adds k),
          suc-add m n,
          ← add-suc m n,
        )
        (add_clients-Adds config (suc k) m (suc n) one.after limit reborn one.grown)

  -- What `TestWsClient` starts the loop with.
  pub record Ready (a : ClientArgs) (fleet : Fleet) : Type 0 where
    pub number : length fleet.clients ≡ a.client_cnt
    pub ready : AllReady lib a.config boot.rand fleet.ctx fleet.clients
    pub balanced :
        fleet.ctx.loop_cnt + all_remaining a.config fleet.clients ≡ a.config.total_msg_cnt
    pub none_yet : fleet.ctx.loop_cnt ≡ 0
    pub charged : Charged [] 0 0 0 fleet.ctx

  pub client_args-total :
      (argv : List Text) (a : ClientArgs)
      → client_args argv ≡ running a
      → (a.config.total_msg_cnt
          ≡ u64 (a.config.msg_limit_per_client * a.client_cnt * a.config.reborn_limit_for_client))
        × (0 < a.config.msg_limit_per_client)
        × (0 < a.config.reborn_limit_for_client)
  unfolding client_args
  client_args-total argv a h = ground arith

  pub client_args-clients :
      (argv : List Text) (a : ClientArgs) → client_args argv ≡ running a → 0 < a.client_cnt
  unfolding client_args
  client_args-clients argv a h = ground arith

  product :
      (config : Config) (n : ℕ)
      → 0 < config.reborn_limit_for_client
      → n * (config.msg_limit_per_client + later config 1)
        ≡ config.msg_limit_per_client * n * config.reborn_limit_for_client
  unfolding later
  product config n h =
      ap (λ k. n * k) (sym (later-suc config 0 h))
      ∙ ap (λ r. n * (r * config.msg_limit_per_client)) (omega arith)
      ∙ sym (mul_assoc n config.reborn_limit_for_client config.msg_limit_per_client)
      ∙ mul_comm (n * config.reborn_limit_for_client) config.msg_limit_per_client
      ∙ sym (mul_assoc config.msg_limit_per_client n config.reborn_limit_for_client)

  -- If every call succeeds and the number of messages fits in 64 bits, the loop starts with as many
  -- clients as were asked for; each holds the message, whose hash is the one to compare with, and has
  -- sent nothing; nothing is counted yet; and the echoes that they and the clients to come wait for
  -- are `TOTAL_MSG_CNT`.
  pub test_ws_client-Ready :
      (hash : ℕ) (argv : List Text) (a : ClientArgs)
      → client_args argv ≡ running a
      → a.config.msg_limit_per_client * a.client_cnt * a.config.reborn_limit_for_client < 2 ^ 64
      → (fleet : Fleet) × (test_ws_client lib boot hash argv ≡ running (a, fleet)) × Ready a fleet
  unfolding test_ws_client
  test_ws_client-Ready hash argv a e fits =
      let (total, limit, reborn) = client_args-total argv a e in
      let all =
        add_clients-Adds a.config 0 a.client_cnt 0 (record { ctx = new_context hash; clients = [] })
          limit reborn
          (record {
            number = refl;
            ready = tt;
            left = sym (zero-mul _);
            none_yet = refl;
            unclosed = refl;
            idle = record { rows = refl; trips = refl; recv = refl; sent = refl };
          }) in
      (
        record (all.after) { ctx = record (all.after.ctx) { out_fp = open_file } },
        rw
            (
              e,
              or_abort-true boot.env_init up.env,
              or_return-true (boot.fopen a.data_file_path) cannot_create_file
                  (up.fopen a.data_file_path),
              or_return-true boot.loop_init loop_init_failed up.loop,
              or_abort-true boot.ssl_init up.ssl,
              all.runs,
            )
            refl,
        record {
          number = all.grown.number ∙ add-zero a.client_cnt;
          ready =
              AllReady-in lib a.config boot.rand all.after.ctx _ all.after.clients (λ h. h)
                (ground arith) all.grown.ready;
          balanced = omega (
            arith,
            total,
            all.grown.left,
            all.grown.none_yet,
            product a.config a.client_cnt reborn,
            add-zero a.client_cnt,
            fits,
          );
          none_yet = all.grown.none_yet;
          charged = record {
            file = refl;
            kept = all.grown.idle.rows;
            rtt_cnt = ap length all.grown.idle.trips;
            recv_sum = all.grown.idle.recv;
            send_sum = all.grown.idle.sent;
          };
        },
      )
