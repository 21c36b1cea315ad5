-- ===== src/Fws/Client/Callbacks/Echo.antt =====
-- The flashws client against a server that echoes: it sends the same message again and again, and
-- takes it over into the client that replaces it.
use ws_benchmark.Prelude.{
  ℕ, ◌≡◌, ◌≢◌, [], ◌∷◌, ◌++◌, ◌+◌, ◌≤◌, true, false, List, length, if◌then◌else◌,
}
use ws_benchmark.Fws.{Outcome, done, contents, ws_opcode_pong}
use ws_benchmark.Fws.Buffers.{Holds}
use ws_benchmark.Fws.Client.{
  new_ws_client, Config, ClientCtx, Context, Env, Part, Frame, closed_file, Action, goes_on, reborn,
  closed, ended, ClientLib, hash_arr,
}

abbrev pub AllAre : List ℕ → List (List ℕ) → Type 0
AllAre xs [] = Unit {0}
AllAre xs (ys ∷ yss) = (ys ≡ xs) × AllAre xs yss

-- Every call of the library succeeds.
pub record IsFine (env : Env) : Type 0 where
  pub writes : env.write_ok ≡ true
  pub connects : new_ws_client env.new_client ≡ true
  pub adds : env.add_socket_ok ≡ true

-- The next part of an echo of `payload`, of which `received` came before.
pub record IsEcho (payload received : List ℕ) (p : Part) : Type 0 where
  pub fits : p.is_control_msg ≡ false → length received + length p.payload ≤ length payload
  pub whole : p.is_control_msg ≡ false → p.is_msg_end ≡ true → received ++ p.payload ≡ payload
  pub pong_whole :
      p.is_control_msg ≡ true
      → p.opcode ≡ ws_opcode_pong
      → (p.is_frame_end ≡ true) × (p.is_msg_end ≡ true)

-- With the last part the message is sent anew, and nothing of the next echo is there.
unfoldable pub received_after : Part → List ℕ → List ℕ
received_after p received =
    if p.is_control_msg then received else if p.is_msg_end then [] else received ++ p.payload

-- `Close` leaves the context alone, but for what does not matter here.
abbrev pub IsClose : (Context → Outcome Context) → Type 0
IsClose close =
    (ctx : Context)
    → (ctx' : Context) × (close ctx ≡ done ctx')
      × (ctx'.data_hash ≡ ctx.data_hash)
      × (ctx'.out_fp ≡ ctx.out_fp)

module _ (lib : ClientLib) (config : Config) (payload : List ℕ) where
  pub record Expects (received : List ℕ) (f : Frame) : Type 0 where
    pub buffer : Holds lib.hdr_size config.max_data_len received f.client_ctx.temp_buf
    pub hash : f.ctx.data_hash ≡ hash_arr lib.rotate_r payload
    pub file : f.ctx.out_fp ≢ closed_file
    pub frames : AllAre payload f.client_ctx.written

  -- A client that takes over holds the message to send, and has sent nothing else.
  pub record Takes (ctx : Context) (c : ClientCtx) : Type 0 where
    pub buffer : Holds lib.hdr_size config.max_data_len payload c.temp_buf
    pub hash : ctx.data_hash ≡ hash_arr lib.rotate_r payload
    pub file : ctx.out_fp ≢ closed_file
    pub frames : AllAre payload c.written

  abbrev pub IsGood : List ℕ → Action → Type 0
  IsGood received (goes_on f) = Expects received f
  IsGood received (reborn ctx c) = Takes ctx c
  IsGood received (closed ctx) = Unit {0}
  IsGood received (ended ctx) = Unit {0}

  pub record Goes (received : List ℕ) (r : Outcome Action) : Type 0 where
    pub after : Action
    pub runs : r ≡ done after
    pub good : IsGood received after

  pub record Sends (r : Outcome Frame) : Type 0 where
    pub after : Frame
    pub runs : r ≡ done after
    pub good : Expects [] after

  -- A frame whose buffer is the message.
  pub record IsWhole (f : Frame) : Type 0 where
    pub message : contents f.client_ctx.temp_buf ≡ payload
    pub hash : f.ctx.data_hash ≡ hash_arr lib.rotate_r payload
    pub file : f.ctx.out_fp ≢ closed_file
    pub frames : AllAre payload f.client_ctx.written
