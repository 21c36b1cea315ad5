-- ===== src/Fws/Network/Joined.antt =====
-- The links of the flashws clients: each stands for a connection of its own on which the server and
-- the client have what they read of the message.
use ws_benchmark.Prelude.{
  ℕ, zero, suc, ◌+◌, ◌≤◌, ◌≡◌, refl, true, false, Option, none, some, List, [], ◌∷◌, length, ◌==◌,
  find, take, arith, Bool-cases, inl, inr, if_true, if_false, ap, sym, ◌∙◌, ==_iff,
}
use ws_benchmark.Fws.{Outcome, Ends, Ends-bind}
use ws_benchmark.Fws.Client.{
  Config, ClientCtx, Context, Action, goes_on, reborn, closed, ended, ClientLib,
}
use ws_benchmark.Fws.Client
use ws_benchmark.Fws.Client.Callbacks.Echo.{AllAre}
use ws_benchmark.Fws.Client.Loop.{Slot, Status, fresh, receiving, settle, status_after, handle}
use ws_benchmark.Fws.Server.Assembly.{View}
use ws_benchmark.Fws.Server.Loop.{System}
use ws_benchmark.Fws.Server.Loop.Table.{shown_by}
use ws_benchmark.Fws.Exchange.{Position, payloads}
use ws_benchmark.Fws.Network.{Link, offline, online, link_of, relink, peer_of}

-- What the server shows of its connections.
abbrev pub table_of : System → ℕ → Option View
table_of y id = shown_by (find id y.connections)

-- No link is the connection `id`.
abbrev pub IsOther : ℕ → Link → Type 0
IsOther id offline = Unit {0}
IsOther id (online j a b) = (id == j) ≡ false

abbrev pub IsFree : ℕ → List Link → Type 0
IsFree id [] = Unit {0}
IsFree id (l ∷ links) = IsOther id l × IsFree id links

abbrev pub IsApart : Link → List Link → Type 0
IsApart offline links = Unit {0}
IsApart (online id a b) links = IsFree id links

-- No connection is the link of two clients.
abbrev pub AreApart : List Link → Type 0
AreApart [] = Unit {0}
AreApart (l ∷ links) = IsApart l links × AreApart links

-- What the server shows of a connection: the bytes up to its position, and echoes of the message, one
-- for each message that it has read.
pub record Met (payload : List ℕ) (o : Option View) (at : Position) : Type 0 where
  pub view : View
  pub there : o ≡ some view
  pub collected : view.collected ≡ take at.offset payload
  pub echoes : AllAre payload (payloads view.echoed)
  pub answered : length view.echoed ≡ at.frame_no
  pub within : at.offset ≤ length payload

-- A client that is connected has written one message more than it has had echoes, and the server has
-- read all of them but the last one, or all.
pub record IsOnline (payload : List ℕ) (o : Option View) (to_server to_client : Position) (s : Slot)
    : Type 0 where
  pub status : s.status ≡ receiving (take to_client.offset payload)
  pub met : Met payload o to_server
  pub unread : length s.client_ctx.written ≡ to_client.frame_no + 1
  pub within : to_client.offset ≤ length payload
  pub behind : to_client.frame_no ≤ to_server.frame_no
  pub ahead : to_server.frame_no ≤ to_client.frame_no + 1

abbrev pub IsJoined : List ℕ → (ℕ → Option View) → Link → Slot → Type 0
IsJoined payload table offline s = (s.status ≡ fresh) × (length s.client_ctx.written ≡ 0)
IsJoined payload table (online id a b) s = IsOnline payload (table id) a b s

abbrev pub AllJoined : List ℕ → (ℕ → Option View) → List Link → List Slot → Type 0
AllJoined payload table [] [] = Unit {0}
AllJoined payload table [] (s ∷ slots) = ⊥
AllJoined payload table (l ∷ links) [] = ⊥
AllJoined payload table (l ∷ links) (s ∷ slots) =
    IsJoined payload table l s × AllJoined payload table links slots

-- What a callback leaves of a client and its link.
abbrev pub Continues : List ℕ → (ℕ → Option View) → Link → Status → Action → Type 0
Continues payload table l s (goes_on f) =
    IsJoined payload table l (record { client_ctx = f.client_ctx; status = s })
Continues payload table l s (reborn ctx c) = length c.written ≡ 0
Continues payload table l s (closed ctx) = Unit {0}
Continues payload table l s (ended ctx) = Unit {0}

module _ (payload : List ℕ) (table : ℕ → Option View) where
  AllJoined-length :
      (links : List Link) (slots : List Slot)
      → AllJoined payload table links slots
      → length slots ≡ length links
  AllJoined-length [] [] all = refl
  AllJoined-length [] (s ∷ slots) all = absurd all
  AllJoined-length (l ∷ links) [] all = absurd all
  AllJoined-length (l ∷ links) (s ∷ slots) all = ap suc (AllJoined-length links slots all.1)

  pub same_length :
      (links : List Link) (slots : List Slot)
      → AllJoined payload table links slots
      → (length slots == length links) ≡ true
  same_length links slots all =
      (==_iff (length slots) (length links)).1 (AllJoined-length links slots all)

  pub missing-IsFree :
      (id : ℕ) (links : List Link) (slots : List Slot)
      → table id ≡ none
      → AllJoined payload table links slots
      → IsFree id links
  missing-IsFree id [] slots e all = tt
  missing-IsFree id (l ∷ links) [] e all = absurd all
  missing-IsFree id (offline ∷ links) (s ∷ slots) e all =
      (tt, missing-IsFree id links slots e all.1)
  missing-IsFree id (online j a b ∷ links) (s ∷ slots) e all = elim (Bool-cases (id == j)) [
    | inl same ↦
        absurd (let none_there = sym e ∙ ap table ((==_iff id j).0 same) ∙ all.0.met.there in cc)
    | inr other ↦ (other, missing-IsFree id links slots e all.1)
  ]

  pub peer_of-IsFree :
      (id : ℕ) (links : List Link) (slots : List Slot)
      → peer_of id links slots ≡ none
      → AllJoined payload table links slots
      → IsFree id links
  unfolding peer_of
  peer_of-IsFree id [] slots e all = tt
  peer_of-IsFree id (l ∷ links) [] e all = absurd all
  peer_of-IsFree id (offline ∷ links) (s ∷ slots) e all =
      (tt, peer_of-IsFree id links slots e all.1)
  peer_of-IsFree id (online j a b ∷ links) (s ∷ slots) e all = elim (Bool-cases (id == j)) [
    | inl same ↦ absurd (ground arith)
    | inr other ↦ (other, peer_of-IsFree id links slots (sym (if_false _ _ other) ∙ e) all.1)
  ]

  -- The link of a client follows its status.
  IsJoined-link_of :
      (l : Link) (s : Status) (c : ClientCtx)
      → IsJoined payload table l (record { client_ctx = c; status = s })
      → IsJoined payload table (link_of s l) (record { client_ctx = c; status = s })
  unfolding link_of
  IsJoined-link_of offline fresh c j = j
  IsJoined-link_of (online id a b) fresh c j = absurd (let open_status = j.status in cc)
  IsJoined-link_of l (receiving received) c j = j

  left-AllJoined :
      (change : Link → Link) (l : Link) (links : List Link) (slots : List Slot)
      → AllJoined payload table links slots
      → AllJoined payload table (relink zero change slots (l ∷ links)) slots
  unfolding relink
  left-AllJoined change l [] [] all = all
  left-AllJoined change l (m ∷ links) [] all = absurd all
  left-AllJoined change l [] (s ∷ slots) all = absurd all
  left-AllJoined change l (m ∷ links) (s ∷ slots) all =
      let same = AllJoined-length (m ∷ links) (s ∷ slots) all in
      let longer : (length slots == length (m ∷ links)) ≡ false = ground arith in
      rw (if_false _ _ longer) all

  kept-AllJoined :
      (change : Link → Link) (l : Link) (s : Slot) (links : List Link) (slots : List Slot)
      → IsJoined payload table (change l) s
      → AllJoined payload table links slots
      → AllJoined payload table (relink zero change (s ∷ slots) (l ∷ links)) (s ∷ slots)
  unfolding relink
  kept-AllJoined change l s links slots j all =
      rw (if_true _ _ (same_length links slots all))
        (IsJoined-link_of (change l) s.status s.client_ctx j, all)

  replaced-AllJoined :
      (change : Link → Link) (l : Link) (c : ClientCtx) (links : List Link) (slots : List Slot)
      → length c.written ≡ 0
      → AllJoined payload table links slots
      → AllJoined payload table
          (relink zero change (record { client_ctx = c; status = fresh } ∷ slots) (l ∷ links))
          (record { client_ctx = c; status = fresh } ∷ slots)
  unfolding relink link_of
  replaced-AllJoined change l c links slots unwritten all =
      rw (if_true _ _ (same_length links slots all)) ((refl, unwritten), all)

  settle-AllJoined :
      (change : Link → Link) (l : Link) (s : Status) (links : List Link) (slots : List Slot)
      (action : Action)
      → Continues payload table (change l) s action
      → AllJoined payload table links slots
      → AllJoined payload table
          (relink zero change (settle s slots action).slots (l ∷ links))
          (settle s slots action).slots
  unfolding settle
  settle-AllJoined change l s links slots (goes_on f) j all =
      kept-AllJoined change l (record { client_ctx = f.client_ctx; status = s }) links slots j all
  settle-AllJoined change l s links slots (reborn ctx c) j all =
      replaced-AllJoined change l c links slots j all
  settle-AllJoined change l s links slots (closed ctx) j all =
      left-AllJoined change l links slots all
  settle-AllJoined change l s links slots (ended ctx) j all =
      left-AllJoined change l links slots all

module _ (payload : List ℕ) (table : ℕ → Option View) (lib : ClientLib) (config : Config)
    (close : Client.Env → Context → Outcome Context) where
  -- What the event makes of the link and the status of its client.
  abbrev pub Changes :
      (Link → Link) → Client.Loop.Event → Context → ℕ → List Link → List Slot → Type 0
  Changes change e ctx i [] slots = Unit {0}
  Changes change e ctx i (l ∷ links) [] = Unit {0}
  Changes change e ctx zero (l ∷ links) (s ∷ slots) =
      Ends (Continues payload table (change l) (status_after e s.status))
        (handle lib config close e (record { ctx = ctx; client_ctx = s.client_ctx }))
  Changes change e ctx (suc i) (l ∷ links) (s ∷ slots) = Changes change e ctx i links slots

  pub step-AllJoined :
      (i : ℕ) (change : Link → Link) (e : Client.Loop.Event) (ctx : Context) (links : List Link)
      (slots : List Slot)
      → Changes change e ctx i links slots
      → AllJoined payload table links slots
      → Ends
          (λ l. AllJoined payload table (relink i change l.slots links) l.slots)
          (Client.Loop.step lib config close i e ctx slots)
  unfolding Client.Loop.step relink
  step-AllJoined i change e ctx [] [] c all = tt
  step-AllJoined i change e ctx [] (s ∷ slots) c all = absurd all
  step-AllJoined i change e ctx (l ∷ links) [] c all = absurd all
  step-AllJoined zero change e ctx (l ∷ links) (s ∷ slots) c all =
      Ends-bind _ _ (handle lib config close e (record { ctx = ctx; client_ctx = s.client_ctx })) _
        c
        (λ action continues.
          settle-AllJoined payload table change l (status_after e s.status) links slots action
            continues all.1)
  step-AllJoined (suc i) change e ctx (l ∷ links) (s ∷ slots) c all =
      Ends-bind _ _ (Client.Loop.step lib config close i e ctx slots) _
        (step-AllJoined i change e ctx links slots c all.1) (λ l' all'. (all.0, all'))
