-- ===== src/Fws/Network.antt =====
-- The two flashws programs with all of their connections, src/flashws/echo_client.cpp and
-- echo_server.cpp: the clients of one loop, the server, and a network that brings each side of a
-- connection what the other side wrote.
pub mod Apart
pub mod Finishes
pub mod Heard
pub mod Hears
pub mod Joined
pub mod Launch
pub mod Leads
pub mod Opens
pub mod Turns
pub mod Works
use ws_benchmark.Prelude.{
  ℕ, zero, suc, ◌+◌, ◌≡◌, Bool, true, false, Option, none, some, List, [], ◌∷◌, length, ◌==◌,
  if◌then◌else◌, find,
}
use ws_benchmark.Fws.{FlashWs, Outcome, done, ◌>>=◌}
use ws_benchmark.Fws.Client.{Config, Context, ClientLib}
use ws_benchmark.Fws.Client
use ws_benchmark.Fws.Client.Callbacks.Echo.{IsFine}
use ws_benchmark.Fws.Client.Loop.{Slot, Status, fresh, receiving}
use ws_benchmark.Fws.Server
use ws_benchmark.Fws.Server.Assembly.{View, IsAllowed}
use ws_benchmark.Fws.Server.Loop.{System, connects, reads, closes}
use ws_benchmark.Fws.Server.Loop.Table.{view_of, shown_by}
use ws_benchmark.Fws.Exchange.{Position, moved, payloads, IsCarried, PongIsWhole}

-- What connects a client: nothing yet, or the server's connection of a name, with the positions up
-- to which the server and the client have read.
pub data Link : Type 0 where
  offline : Link
  online : (id : ℕ) (to_server to_client : Position) → Link

-- The links stand in the order of the client's slots.
pub record Network : Type 0 where
  pub client : Client.Loop.Loop
  pub server : System
  pub links : List Link

-- The server has an event of its own; the `i`-th client opens a connection that the server has
-- accepted; or a part comes to the `i`-th client.
pub data Event : Type 0 where
  serves : Server.Env → Server.Loop.Event → Event
  opens : ℕ → ℕ → Client.Env → Event
  hears : ℕ → Client.Env → Client.Part → Event

abbrev pub start_position : Position
start_position = record { frame_no = 0; offset = 0 }

unfoldable pub server_heard : Server.Loop.Event → Link → Link
server_heard e offline = offline
server_heard (connects j) (online id a b) = online id a b
server_heard (reads j p) (online id a b) =
    if j == id
    then online id (moved p.is_control_msg p.is_msg_end (length p.payload) a) b
    else online id a b
server_heard (closes j status_code reason) (online id a b) = online id a b

unfoldable pub all_heard : Server.Loop.Event → List Link → List Link
all_heard e [] = []
all_heard e (l ∷ links) = server_heard e l ∷ all_heard e links

unfoldable pub client_heard : Client.Part → Link → Link
client_heard p offline = offline
client_heard p (online id a b) =
    online id a (moved p.is_control_msg p.is_msg_end (length p.payload) b)

unfoldable pub link_of : Status → Link → Link
link_of fresh l = offline
link_of (receiving received) l = l

-- The link of the `i`-th client after an event: a client that has left takes its link along, and one
-- that was replaced is not connected.
unfoldable pub relink : ℕ → (Link → Link) → List Slot → List Link → List Link
relink i change slots [] = []
relink i change [] (l ∷ links) = links
relink zero change (s ∷ slots) (l ∷ links) =
    if length slots == length links then link_of s.status (change l) ∷ links else links
relink (suc i) change (s ∷ slots) (l ∷ links) = l ∷ relink i change slots links

-- The client's `Close` calls `OnClose` at once.
module _ (lib : ClientLib) (config : Config) (fws : FlashWs) (buf_size : ℕ) where
  unfoldable pub step : Event → Network → Outcome Network
  step (serves env e) n = do
    server ← Server.Loop.step fws buf_size env e n.server
    done (record n { server = server; links = all_heard e n.links })
  step (opens i id env) n = do
    client ←
        Client.Loop.step lib config (Client.on_close config) i (Client.Loop.opens env) n.client.ctx
          n.client.slots
    done (record n {
      client = client;
      links = relink i (λ l. online id start_position start_position) client.slots n.links;
    })
  step (hears i env p) n = do
    client ←
        Client.Loop.step lib config (Client.on_close config) i (Client.Loop.reads env p)
          n.client.ctx n.client.slots
    done (record n { client = client; links = relink i (client_heard p) client.slots n.links })

  unfoldable pub run : List Event → Network → Outcome Network
  run [] n = done n
  run (e ∷ es) n = step e n >>= run es

-- The client on a connection of the server: how far the server has read, and what was written.
pub record Peer : Type 0 where
  pub at : Position
  pub written : List (List ℕ)

unfoldable pub peer_of : ℕ → List Link → List Slot → Option Peer
peer_of id [] slots = none
peer_of id (l ∷ links) [] = none
peer_of id (offline ∷ links) (s ∷ slots) = peer_of id links slots
peer_of id (online j a b ∷ links) (s ∷ slots) =
    if id == j
    then some (record { at = a; written = s.client_ctx.written })
    else peer_of id links slots

abbrev pub At : (Link → Type 0) → ℕ → List Link → Type 0
At P i [] = Unit {0}
At P zero (l ∷ links) = P l
At P (suc i) (l ∷ links) = At P i links

-- What the server may read: the next bytes that the client on the connection wrote; on a connection
-- with none of the clients, any message that fits.
abbrev pub IsDelivered : ℕ → Server.Env → Server.Part → ℕ → System → Option Peer → Type 0
IsDelivered max env p id y none =
    (c : Server.ConnectCtx) → find id y.connections ≡ some c → IsAllowed max env p (view_of c)
IsDelivered max env p id y (some peer) =
    (env.write_ok ≡ true)
    × IsCarried peer.written peer.at p.is_control_msg p.is_msg_end p.payload
    × PongIsWhole p.is_control_msg p.opcode p.is_frame_end p.is_msg_end

-- What a client may read: the next bytes that the server wrote on its connection. `socket_count` is
-- the number of the clients, with the one that its `Close`, if it comes to it, is closing.
abbrev pub IsHeard : Client.Env → Client.Part → ℕ → System → Link → Type 0
IsHeard env p count y offline = ⊥
IsHeard env p count y (online id a b) =
    IsFine env
    × ((v : View)
        → shown_by (find id y.connections) ≡ some v
        → IsCarried (payloads v.echoed) b p.is_control_msg p.is_msg_end p.payload)
    × PongIsWhole p.is_control_msg p.opcode p.is_frame_end p.is_msg_end
    × (env.socket_count ≡ count)

-- What the network may bring: a connection has a name of its own, a client that is not connected
-- opens one that nobody has used, and one on which a client still is does not close.
abbrev pub IsBrought : ℕ → Event → Network → Type 0
IsBrought max (serves env (connects id)) n = find id n.server.connections ≡ none
IsBrought max (serves env (reads id p)) n =
    IsDelivered max env p id n.server (peer_of id n.links n.client.slots)
IsBrought max (serves env (closes id status_code reason)) n =
    peer_of id n.links n.client.slots ≡ none
IsBrought max (opens i id env) n =
    At (λ l. l ≡ offline) i n.links
    × (env.write_ok ≡ true)
    × (peer_of id n.links n.client.slots ≡ none)
    × (shown_by (find id n.server.connections) ≡ some (record { collected = []; echoed = [] }))
IsBrought max (hears i env p) n = At (IsHeard env p (length n.client.slots) n.server) i n.links
