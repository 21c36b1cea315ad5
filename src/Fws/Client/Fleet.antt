-- ===== src/Fws/Client/Fleet.antt =====
-- src/flashws/echo_client.cpp: the clients that `TestWsClient` makes, each with the message to send.
pub mod Grows
use ws_benchmark.Prelude.{ℕ, ◌+◌, List, [], ◌∷◌, write_at}
use ws_benchmark.Payload.{random_digits}
use ws_benchmark.Fws.{IoBuffer, Outcome, done, access, ◌>>=◌, new_buf, contents}
use ws_benchmark.Fws.Client.{Config, ClientCtx, Context, ClientLib, hash_arr}

-- The buffer of a new client, filled with the message.
unfoldable pub fill : ClientLib → Config → (ℕ → ℕ) → Outcome IoBuffer
fill lib config rand =
    let buf = new_buf lib.fws (config.max_data_len + lib.hdr_size) in
    do
      block ←
          access (write_at buf.data_block lib.hdr_size (random_digits rand 0 config.max_data_len))
      done (record buf { data_block = block; size = config.max_data_len })

-- What the loop holds: the context and the clients, the last one first.
pub record Fleet : Type 0 where
  pub ctx : Context
  pub clients : List ClientCtx

unfoldable pub add_client : ClientLib → Config → (ℕ → ℕ) → Fleet → Outcome Fleet
add_client lib config rand fleet = do
  temp_buf ← fill lib config rand
  done (record {
    ctx = record (fleet.ctx) { data_hash = hash_arr lib.rotate_r (contents temp_buf) };
    clients =
        record {
          reborn_cnt = 1;
          msg_cnt = 0;
          temp_buf = temp_buf;
          start_write_tick = 0;
          written = [];
        }
        ∷ fleet.clients;
  })
