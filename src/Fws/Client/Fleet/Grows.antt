-- ===== src/Fws/Client/Fleet/Grows.antt =====
-- What each new client of `TestWsClient` holds.
use native.Mathlib.Nat.{add-zero, zero-add, suc-mul}
use ws_benchmark.Prelude.{ℕ, suc, ◌+◌, ◌*◌, ◌<◌, ◌≡◌, ◌≢◌, refl, ap, List, [], ◌∷◌, length, arith}
use ws_benchmark.Payload.{random_digits, length-random_digits}
use ws_benchmark.Fws.{IoBuffer, Outcome, done, append_bytes, new_buf, contents}
use ws_benchmark.Fws.Buffers.{Appends, append_bytes-Holds, new_buf-Holds}
use ws_benchmark.Fws.Client.{Config, ClientCtx, Context, ClientLib, hash_arr, closed_file, no_file}
use ws_benchmark.Fws.Client.Callbacks.Echo.{Takes}
use ws_benchmark.Fws.Client.Callbacks.Balance.{all_remaining, IsLive, remaining, later}
use ws_benchmark.Fws.Client.Fleet.{Fleet, add_client, fill}

module _ (lib : ClientLib) (config : Config) (rand : ℕ → ℕ) where
  abbrev message : List ℕ
  message = random_digits rand 0 config.max_data_len

  abbrev empty_buf : IoBuffer
  empty_buf = new_buf lib.fws (config.max_data_len + lib.hdr_size)

  fill-append : fill lib config rand ≡ append_bytes empty_buf message
  unfolding fill append_bytes
  fill-append =
      rw (empty, length-random_digits rand 0 config.max_data_len)
        (rw (add-zero lib.hdr_size, zero-add config.max_data_len) refl)
    where
      empty : empty_buf.size ≡ 0
      empty = lib.request_buf_empty (config.max_data_len + lib.hdr_size)

  filled : Appends lib.hdr_size config.max_data_len message (fill lib config rand)
  filled = rw fill-append (
      append_bytes-Holds lib.hdr_size config.max_data_len [] message empty_buf
        (new_buf-Holds lib.fws config.max_data_len)
        (omega (arith, length-random_digits rand 0 config.max_data_len)))

  abbrev pub AllReady : Context → List ClientCtx → Type 0
  AllReady ctx [] = Unit {0}
  AllReady ctx (c ∷ clients) =
      Takes lib config message ctx c
      × IsLive config c
      × (length c.written ≡ 0)
      × AllReady ctx clients

  -- Nothing is counted and no row is written yet.
  pub record Idle (ctx : Context) : Type 0 where
    pub rows : ctx.rows ≡ []
    pub trips : ctx.rtt_hist ≡ []
    pub recv : ctx.recv_bytes_sum ≡ 0
    pub sent : ctx.send_bytes_sum ≡ 0

  -- A loop with `n` clients, each with all of its messages to come.
  pub record Grown (n : ℕ) (fleet : Fleet) : Type 0 where
    pub number : length fleet.clients ≡ n
    pub ready : AllReady fleet.ctx fleet.clients
    pub left :
        all_remaining config fleet.clients ≡ n * (config.msg_limit_per_client + later config 1)
    pub none_yet : fleet.ctx.loop_cnt ≡ 0
    pub unclosed : fleet.ctx.out_fp ≡ no_file
    pub idle : Idle fleet.ctx

  pub record Grows (n : ℕ) (r : Outcome Fleet) : Type 0 where
    pub after : Fleet
    pub runs : r ≡ done after
    pub grown : Grown n after

  pub AllReady-in :
      (ctx ctx' : Context) (clients : List ClientCtx)
      → (ctx.data_hash ≡ hash_arr lib.rotate_r message
          → ctx'.data_hash ≡ hash_arr lib.rotate_r message)
      → ctx'.out_fp ≢ closed_file
      → AllReady ctx clients
      → AllReady ctx' clients
  AllReady-in ctx ctx' [] e unclosed all = tt
  AllReady-in ctx ctx' (c ∷ clients) e unclosed all = (
    record { buffer = all.0.buffer; hash = e all.0.hash; file = unclosed; frames = all.0.frames },
    all.1,
    all.2,
    AllReady-in ctx ctx' clients e unclosed all.3,
  )

  pub add_client-Grows :
      (n : ℕ) (fleet : Fleet)
      → 0 < config.msg_limit_per_client
      → 0 < config.reborn_limit_for_client
      → Grown n fleet
      → Grows (suc n) (add_client lib config rand fleet)
  unfolding add_client remaining
  add_client-Grows n fleet limit reborn g = rw filled.runs (record {
    after = _;
    runs = refl;
    grown = record {
      number = ap suc g.number;
      ready = (
        record { buffer = filled.held; hash = hashed; file = unclosed; frames = tt },
        record { waits = limit; allowed = reborn },
        refl,
        AllReady-in fleet.ctx _ fleet.clients (λ _. hashed) unclosed g.ready,
      );
      left = omega (arith, g.left, suc-mul n (config.msg_limit_per_client + later config 1));
      none_yet = g.none_yet;
      unclosed = g.unclosed;
      idle = record {
        rows = g.idle.rows;
        trips = g.idle.trips;
        recv = g.idle.recv;
        sent = g.idle.sent;
      };
    };
  })
    where
      hashed : hash_arr lib.rotate_r (contents filled.after) ≡ hash_arr lib.rotate_r message
      hashed = ap (hash_arr lib.rotate_r) filled.held.holds

      unclosed : fleet.ctx.out_fp ≢ closed_file
      unclosed = ground (arith, g.unclosed)
