-- ===== src/Fws/Network/Heard.antt =====
-- What the flashws server reads of its clients: its connections stay joined to them.
use mathlib.Core.Path.{subst}
use ws_benchmark.Prelude.{
  ℕ, arith, ◌+◌, ◌≡◌, refl, true, false, Option, none, some, List, [], ◌∷◌, length, ◌==◌,
  Bool-cases, inl, inr, if_true, if_false, ap, sym, ◌∙◌, ==_iff,
}
use ws_benchmark.Fws.Client.{Config, ClientCtx, Context, ClientLib}
use ws_benchmark.Fws.Client.Callbacks.Echo.{AllAre}
use ws_benchmark.Fws.Client.Loop.{Slot, Status, fresh, receiving}
use ws_benchmark.Fws.Client.Loop.Slots.{Good, AllGood}
use ws_benchmark.Fws.Server
use ws_benchmark.Fws.Server.Assembly.{View, next}
use ws_benchmark.Fws.Server.Loop.{System, connects, reads, closes}
use ws_benchmark.Fws.Server.Loop.Table.{with_part, entry_after}
use ws_benchmark.Fws.Exchange.{Position, moved, IsCarried}
use ws_benchmark.Fws.Exchange.Carried.{next-carried}
use ws_benchmark.Fws.Client.Callbacks.Frames.{ends}
use ws_benchmark.Fws.Exchange.Counted.{frame_no-moved, length-next, carried-below, carried-within}
use ws_benchmark.Fws.Network.{Link, offline, online, server_heard, all_heard, Peer, peer_of}
use ws_benchmark.Fws.Network.Joined.{IsOther, IsFree, AreApart, Met, IsOnline, IsJoined, AllJoined}

pub peer_of-free :
    (id : ℕ) (links : List Link) (slots : List Slot)
    → IsFree id links
    → peer_of id links slots ≡ none
unfolding peer_of
peer_of-free id [] slots free = refl
peer_of-free id (l ∷ links) [] free = refl
peer_of-free id (offline ∷ links) (s ∷ slots) free = peer_of-free id links slots free.1
peer_of-free id (online j a b ∷ links) (s ∷ slots) free =
    if_false _ _ free.0 ∙ peer_of-free id links slots free.1

Met-read :
    (payload : List ℕ) (p : Server.Part) (a : Position) (written : List (List ℕ)) (o : Option View)
    → AllAre payload written
    → IsCarried written a p.is_control_msg p.is_msg_end p.payload
    → Met payload o a
    → Met payload (with_part p o) (moved p.is_control_msg p.is_msg_end (length p.payload) a)
Met-read payload p a written o all carried met =
    let read = next-carried payload p a written met.view all carried met.collected met.echoes in
    record {
      view = next p met.view;
      there = ap (with_part p) met.there;
      collected = read.0;
      echoes = read.1;
      answered =
          length-next p met.view
          ∙ ap (λ n. n + ends p.is_control_msg p.is_msg_end) met.answered
          ∙ sym (frame_no-moved p.is_control_msg p.is_msg_end (length p.payload) a);
      within =
          carried-within payload written a p.is_control_msg p.is_msg_end p.payload all carried
            met.within;
    }

module _ (lib : ClientLib) (config : Config) (payload : List ℕ) (table : ℕ → Option View)
    (ctx : Context) where
  pub Good-frames :
      (c : ClientCtx) (s : Status) → Good lib config payload ctx c s → AllAre payload c.written
  Good-frames c fresh g = g.frames
  Good-frames c (receiving received) g = g.frames

  pub peer_of-Met :
      (id : ℕ) (links : List Link) (slots : List Slot) (peer : Peer)
      → AllJoined payload table links slots
      → AllGood lib config payload ctx slots
      → peer_of id links slots ≡ some peer
      → AllAre payload peer.written × Met payload (table id) peer.at
  unfolding peer_of
  peer_of-Met id [] slots peer all good e = cc
  peer_of-Met id (l ∷ links) [] peer all good e = cc
  peer_of-Met id (offline ∷ links) (s ∷ slots) peer all good e =
      peer_of-Met id links slots peer all.1 good.2 e
  peer_of-Met id (online j a b ∷ links) (s ∷ slots) peer all good e = elim (Bool-cases (id == j)) [
    | inl same ↦
        let it : some (record { at = a; written = s.client_ctx.written }) ≡ some peer =
          sym (if_true _ _ same) ∙ e in
        let frames : AllAre payload s.client_ctx.written =
          Good-frames s.client_ctx s.status good.0 in
        let it_is : record { at = a; written = s.client_ctx.written } ≡ peer = cc in
        subst (λ q. AllAre payload q.written × Met payload (table id) q.at) it_is
          (frames, subst (λ k. Met payload (table k) a) (sym ((==_iff id j).0 same)) all.0.met)
    | inr other ↦ peer_of-Met id links slots peer all.1 good.2 (sym (if_false _ _ other) ∙ e)
  ]

-- A part carries on what the client on its connection wrote, which is the message.
abbrev pub Carries : List ℕ → Server.Part → Peer → Type 0
Carries payload p peer =
    AllAre payload peer.written
    × IsCarried peer.written peer.at p.is_control_msg p.is_msg_end p.payload

module _ (payload : List ℕ) (table table' : ℕ → Option View) where
  -- The connection that an event is about, which alone it changes.
  abbrev pub name_of : Server.Loop.Event → ℕ
  name_of (connects j) = j
  name_of (reads j p) = j
  name_of (closes j status_code reason) = j

  entry_after-other :
      (e : Server.Loop.Event) (id : ℕ) (o : Option View)
      → (name_of e == id) ≡ false
      → entry_after id e o ≡ o
  unfolding entry_after
  entry_after-other (connects j) id o h = if_false _ _ h
  entry_after-other (reads j p) id o h = if_false _ _ h
  entry_after-other (closes j status_code reason) id o h = if_false _ _ h

  server_heard-other :
      (e : Server.Loop.Event) (l : Link) → IsOther (name_of e) l → server_heard e l ≡ l
  unfolding server_heard
  server_heard-other e offline o = refl
  server_heard-other (connects j) (online id a b) h = refl
  server_heard-other (reads j p) (online id a b) h = if_false _ _ h
  server_heard-other (closes j status_code reason) (online id a b) h = refl

  IsJoined-other :
      (e : Server.Loop.Event) (l : Link) (s : Slot)
      → ((id : ℕ) → table' id ≡ entry_after id e (table id))
      → IsOther (name_of e) l
      → IsJoined payload table l s
      → IsJoined payload table' (server_heard e l) s
  IsJoined-other e offline s after other j = rw (server_heard-other e offline tt) j
  IsJoined-other e (online id a b) s after other j =
      rw (server_heard-other e (online id a b) other) (
        subst (λ o. IsOnline payload o a b s)
          (sym (after id ∙ entry_after-other e id (table id) other)) j)

  pub free-AllJoined :
      (e : Server.Loop.Event) (links : List Link) (slots : List Slot)
      → ((id : ℕ) → table' id ≡ entry_after id e (table id))
      → IsFree (name_of e) links
      → AllJoined payload table links slots
      → AllJoined payload table' (all_heard e links) slots
  unfolding all_heard
  free-AllJoined e [] [] after free all = tt
  free-AllJoined e [] (s ∷ slots) after free all = absurd all
  free-AllJoined e (l ∷ links) [] after free all = absurd all
  free-AllJoined e (l ∷ links) (s ∷ slots) after free all =
      (IsJoined-other e l s after free.0 all.0, free-AllJoined e links slots after free.1 all.1)

  reads-IsJoined :
      (j : ℕ) (p : Server.Part) (id : ℕ) (a b : Position) (s : Slot)
      → ((k : ℕ) → table' k ≡ entry_after k (reads j p) (table k))
      → (j == id) ≡ true
      → AllAre payload s.client_ctx.written
      → IsCarried s.client_ctx.written a p.is_control_msg p.is_msg_end p.payload
      → IsJoined payload table (online id a b) s
      → IsJoined payload table' (server_heard (reads j p) (online id a b)) s
  unfolding server_heard entry_after
  reads-IsJoined j p id a b s after same frames carried joined = rw same (record {
    status = joined.status;
    met =
        subst (λ o. Met payload o (moved p.is_control_msg p.is_msg_end (length p.payload) a))
          (sym (after id ∙ if_true _ _ same))
          (Met-read payload p a s.client_ctx.written (table id) frames carried joined.met);
    unread = joined.unread;
    within = joined.within;
    behind =
        omega
          (arith, joined.behind, frame_no-moved p.is_control_msg p.is_msg_end (length p.payload) a);
    ahead = omega (
      arith,
      joined.unread,
      frame_no-moved p.is_control_msg p.is_msg_end (length p.payload) a,
      carried-below s.client_ctx.written a p.is_control_msg p.is_msg_end p.payload carried
          (omega (arith, joined.unread, joined.ahead)),
    );
  })

  pub reads-AllJoined :
      (j : ℕ) (p : Server.Part) (links : List Link) (slots : List Slot)
      → ((id : ℕ) → table' id ≡ entry_after id (reads j p) (table id))
      → ((peer : Peer) → peer_of j links slots ≡ some peer → Carries payload p peer)
      → AreApart links
      → AllJoined payload table links slots
      → AllJoined payload table' (all_heard (reads j p) links) slots
  unfolding all_heard peer_of
  reads-AllJoined j p [] [] after carries apart all = tt
  reads-AllJoined j p [] (s ∷ slots) after carries apart all = absurd all
  reads-AllJoined j p (l ∷ links) [] after carries apart all = absurd all
  reads-AllJoined j p (offline ∷ links) (s ∷ slots) after carries apart all = (
    IsJoined-other (reads j p) offline s after tt all.0,
    reads-AllJoined j p links slots after carries apart.1 all.1,
  )
  reads-AllJoined j p (online id a b ∷ links) (s ∷ slots) after carries apart all =
      elim (Bool-cases (j == id)) [
        | inl same ↦
            let (frames, carried) =
              carries (record { at = a; written = s.client_ctx.written }) (if_true _ _ same) in
            let free : IsFree j links =
              subst (λ k. IsFree k links) (sym ((==_iff j id).0 same)) apart.0 in
            (
              reads-IsJoined j p id a b s after same frames carried all.0,
              free-AllJoined (reads j p) links slots after free all.1,
            )
        | inr other ↦ (
          IsJoined-other (reads j p) (online id a b) s after other all.0,
          reads-AllJoined j p links slots after
              (λ peer found. carries peer (if_false _ _ other ∙ found)) apart.1 all.1,
        )
      ]
