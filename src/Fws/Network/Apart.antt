-- ===== src/Fws/Network/Apart.antt =====
-- No two flashws clients share a connection.
use ws_benchmark.Prelude.{
  ℕ, zero, suc, List, [], ◌∷◌, length, ◌==◌, arith, Bool-cases, inl, inr, if_true, if_false,
}
use ws_benchmark.Fws.Client
use ws_benchmark.Fws.Client.Loop.{Slot, Status, fresh, receiving}
use ws_benchmark.Fws.Server.Loop.{connects, reads, closes}
use ws_benchmark.Fws.Server
use ws_benchmark.Fws.Network.{
  Link, offline, online, link_of, relink, client_heard, server_heard, all_heard, start_position,
}
use ws_benchmark.Fws.Network.Joined.{IsOther, IsFree, IsApart, AreApart}

IsOther-link_of : (k : ℕ) (s : Status) (l : Link) → IsOther k l → IsOther k (link_of s l)
unfolding link_of
IsOther-link_of k fresh l o = tt
IsOther-link_of k (receiving received) l o = o

IsApart-link_of :
    (s : Status) (l : Link) (links : List Link) → IsApart l links → IsApart (link_of s l) links
unfolding link_of
IsApart-link_of fresh l links a = tt
IsApart-link_of (receiving received) l links a = a

relink-IsFree :
    (k i : ℕ) (change : Link → Link) (slots : List Slot) (links : List Link)
    → ((l : Link) → IsOther k l → IsOther k (change l))
    → IsFree k links
    → IsFree k (relink i change slots links)
unfolding relink
relink-IsFree k i change slots [] keeps free = tt
relink-IsFree k i change [] (l ∷ links) keeps free = free.1
relink-IsFree k zero change (s ∷ slots) (l ∷ links) keeps free =
    elim (Bool-cases (length slots == length links)) [
      | inl e ↦ rw (if_true _ _ e) (IsOther-link_of k s.status (change l) (keeps l free.0), free.1)
      | inr e ↦ rw (if_false _ _ e) free.1
    ]
relink-IsFree k (suc i) change (s ∷ slots) (l ∷ links) keeps free =
    (free.0, relink-IsFree k i change slots links keeps free.1)

relink-IsApart :
    (l : Link) (i : ℕ) (change : Link → Link) (slots : List Slot) (links : List Link)
    → ((k : ℕ) → IsApart l links → (m : Link) → IsOther k m → IsOther k (change m))
    → IsApart l links
    → IsApart l (relink i change slots links)
relink-IsApart offline i change slots links keeps apart = tt
relink-IsApart (online k a b) i change slots links keeps apart =
    relink-IsFree k i change slots links (keeps k apart) apart

first-AreApart :
    (l : Link) (s : Slot) (slots : List Slot) (links : List Link) (change : Link → Link)
    → IsApart (change l) links
    → AreApart links
    → AreApart (relink zero change (s ∷ slots) (l ∷ links))
unfolding relink
first-AreApart l s slots links change new apart = elim (Bool-cases (length slots == length links)) [
  | inl e ↦ rw (if_true _ _ e) (IsApart-link_of s.status (change l) links new, apart)
  | inr e ↦ rw (if_false _ _ e) apart
]

IsOther-client_heard :
    (p : Client.Part) (k : ℕ) (l : Link) → IsOther k l → IsOther k (client_heard p l)
unfolding client_heard
IsOther-client_heard p k offline o = tt
IsOther-client_heard p k (online id a b) o = o

IsApart-client_heard :
    (p : Client.Part) (l : Link) (links : List Link)
    → IsApart l links
    → IsApart (client_heard p l) links
unfolding client_heard
IsApart-client_heard p offline links a = tt
IsApart-client_heard p (online id a b) links apart = apart

pub heard-AreApart :
    (p : Client.Part) (i : ℕ) (slots : List Slot) (links : List Link)
    → AreApart links
    → AreApart (relink i (client_heard p) slots links)
unfolding relink
heard-AreApart p i slots [] apart = tt
heard-AreApart p i [] (l ∷ links) apart = apart.1
heard-AreApart p zero (s ∷ slots) (l ∷ links) apart =
    first-AreApart l s slots links (client_heard p) (IsApart-client_heard p l links apart.0) apart.1
heard-AreApart p (suc i) (s ∷ slots) (l ∷ links) apart = (
  relink-IsApart l i (client_heard p) slots links (λ k _. IsOther-client_heard p k) apart.0,
  heard-AreApart p i slots links apart.1,
)

module _ (id : ℕ) where
  abbrev pub opened : Link → Link
  opened l = online id start_position start_position

  IsApart-opened :
      (l : Link) (i : ℕ) (slots : List Slot) (links : List Link)
      → IsOther id l
      → IsApart l links
      → IsApart l (relink i opened slots links)
  IsApart-opened offline i slots links o apart = tt
  IsApart-opened (online k a b) i slots links o apart =
      relink-IsFree k i opened slots links (λ m _. ground arith) apart

  pub opened-AreApart :
      (i : ℕ) (slots : List Slot) (links : List Link)
      → IsFree id links
      → AreApart links
      → AreApart (relink i opened slots links)
  unfolding relink
  opened-AreApart i slots [] free apart = tt
  opened-AreApart i [] (l ∷ links) free apart = apart.1
  opened-AreApart zero (s ∷ slots) (l ∷ links) free apart =
      first-AreApart l s slots links opened free.1 apart.1
  opened-AreApart (suc i) (s ∷ slots) (l ∷ links) free apart =
      (IsApart-opened l i slots links free.0 apart.0, opened-AreApart i slots links free.1 apart.1)

-- The server's events leave the links where they are.
IsOther-server_heard :
    (e : Server.Loop.Event) (k : ℕ) (l : Link) → IsOther k l → IsOther k (server_heard e l)
unfolding server_heard
IsOther-server_heard e k offline o = tt
IsOther-server_heard (connects j) k (online id a b) o = o
IsOther-server_heard (closes j status_code reason) k (online id a b) o = o
IsOther-server_heard (reads j p) k (online id a b) o = ground arith

pub all_heard-IsFree :
    (e : Server.Loop.Event) (k : ℕ) (links : List Link)
    → IsFree k links
    → IsFree k (all_heard e links)
unfolding all_heard
all_heard-IsFree e k [] free = tt
all_heard-IsFree e k (l ∷ links) free =
    (IsOther-server_heard e k l free.0, all_heard-IsFree e k links free.1)

all_heard-IsApart :
    (e : Server.Loop.Event) (l : Link) (links : List Link)
    → IsApart l links
    → IsApart (server_heard e l) (all_heard e links)
unfolding server_heard
all_heard-IsApart e offline links apart = tt
all_heard-IsApart (connects j) (online id a b) links apart =
    all_heard-IsFree (connects j) id links apart
all_heard-IsApart (closes j status_code reason) (online id a b) links apart =
    all_heard-IsFree (closes j status_code reason) id links apart
all_heard-IsApart (reads j p) (online id a b) links apart = elim (Bool-cases (j == id)) [
  | inl same ↦ rw same (all_heard-IsFree (reads j p) id links apart)
  | inr other ↦ rw other (all_heard-IsFree (reads j p) id links apart)
]

pub all_heard-AreApart :
    (e : Server.Loop.Event) (links : List Link) → AreApart links → AreApart (all_heard e links)
unfolding all_heard
all_heard-AreApart e [] apart = tt
all_heard-AreApart e (l ∷ links) apart =
    (all_heard-IsApart e l links apart.0, all_heard-AreApart e links apart.1)
