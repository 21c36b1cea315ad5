-- ===== src/Prelude/Assoc.antt =====
-- Association lists under native numbers.
use Prim.Native.Nat.{ℕ, ◌+◌, ◌≤◌}
use mathlib.Core.Path.{◌≡◌, refl, sym, ap, ◌∙◌, subst}
use mathlib.Core.Logic.{inl, inr}
use mathlib.Core.Bool.{false}
use mathlib.Core.List.{List, [], ◌∷◌}
use mathlib.Core.Option
use mathlib.Core.Option.{Option, none, some}
use native.Mathlib.Omega.{arith}
use ws_benchmark.Prelude.Tests.{◌==◌, if◌then◌else◌, if_true, if_false, ==_iff, Bool-cases}

module _ {ℓ} {A : Type ℓ} where
  unfoldable pub find : ℕ → List (ℕ × A) → Option A
  find id [] = none
  find id ((j, a) ∷ rest) = if j == id then some a else find id rest

  unfoldable pub replace : ℕ → A → List (ℕ × A) → List (ℕ × A)
  replace id b [] = []
  replace id b ((j, a) ∷ rest) = if j == id then (j, b) ∷ rest else (j, a) ∷ replace id b rest

  unfoldable pub remove : ℕ → List (ℕ × A) → List (ℕ × A)
  remove id [] = []
  remove id ((j, a) ∷ rest) = if j == id then rest else (j, a) ∷ remove id rest

  pub find-cons_other :
      (id j : ℕ) (a : A) (l : List (ℕ × A)) → (j == id) ≡ false → find id ((j, a) ∷ l) ≡ find id l
  unfolding find
  find-cons_other id j a l h = if_false _ _ h

  pub find-cons_self : (id : ℕ) (a : A) (l : List (ℕ × A)) → find id ((id, a) ∷ l) ≡ some a
  unfolding find
  find-cons_self id a l = ground arith

  pub find-replace_self :
      (j : ℕ) (b : A) (l : List (ℕ × A)) (a : A)
      → find j l ≡ some a
      → find j (replace j b l) ≡ some b
  unfolding find replace
  find-replace_self j b [] a h = cc
  find-replace_self j b ((k, c) ∷ l) a h = ground (arith, find-replace_self j b l a)

  pub find-replace_other :
      (id j : ℕ) (b : A) (l : List (ℕ × A))
      → (j == id) ≡ false
      → find id (replace j b l) ≡ find id l
  unfolding find replace
  find-replace_other id j b [] h = refl
  find-replace_other id j b ((k, c) ∷ l) h = ground (arith, find-replace_other id j b l h)

  pub find-remove_other :
      (id j : ℕ) (l : List (ℕ × A)) → (j == id) ≡ false → find id (remove j l) ≡ find id l
  unfolding find remove
  find-remove_other id j [] h = refl
  find-remove_other id j ((k, c) ∷ l) h = ground (arith, find-remove_other id j l h)

module _ {ℓ} {A : Type ℓ} where
  -- A name that is not in the list, as none from it on is.
  unfoldable pub unused : List (ℕ × A) → ℕ
  unused [] = 0
  unused ((j, a) ∷ rest) = j + 1 + unused rest

  find-above : (k : ℕ) (l : List (ℕ × A)) → unused l ≤ k → find k l ≡ none
  unfolding find unused
  find-above k [] h = refl
  find-above k ((j, a) ∷ l) h = ground (arith, find-above k l)

  pub find-unused : (l : List (ℕ × A)) → find (unused l) l ≡ none
  find-unused l = find-above (unused l) l (omega arith)

module _ {ℓ} {A : Type ℓ} where
  -- No name occurs twice.
  abbrev pub Distinct : List (ℕ × A) → Type ℓ
  Distinct [] = Unit
  Distinct ((j, a) ∷ rest) = (find j rest ≡ none) × Distinct rest

  pub find-remove_self : (id : ℕ) (l : List (ℕ × A)) → Distinct l → find id (remove id l) ≡ none
  unfolding find remove
  find-remove_self id [] d = refl
  find-remove_self id ((k, c) ∷ l) d = ground (arith, find-remove_self id l d.1)

  find-replace_missing :
      (k j : ℕ) (b : A) (l : List (ℕ × A)) → find k l ≡ none → find k (replace j b l) ≡ none
  unfolding find replace
  find-replace_missing k j b [] h = refl
  find-replace_missing k j b ((i, c) ∷ l) h = ground (arith, find-replace_missing k j b l)

  find-remove_missing : (k j : ℕ) (l : List (ℕ × A)) → find k l ≡ none → find k (remove j l) ≡ none
  unfolding find remove
  find-remove_missing k j [] h = refl
  find-remove_missing k j ((i, c) ∷ l) h = ground (arith, find-remove_missing k j l)

  pub Distinct-replace : (j : ℕ) (b : A) (l : List (ℕ × A)) → Distinct l → Distinct (replace j b l)
  unfolding replace
  Distinct-replace j b [] d = tt
  Distinct-replace j b ((k, c) ∷ l) d = elim (Bool-cases (k == j)) [
    | inl e ↦ rw e d
    | inr e ↦ rw e (find-replace_missing k j b l d.0, Distinct-replace j b l d.1)
  ]

  pub Distinct-remove : (j : ℕ) (l : List (ℕ × A)) → Distinct l → Distinct (remove j l)
  unfolding remove
  Distinct-remove j [] d = tt
  Distinct-remove j ((k, c) ∷ l) d = elim (Bool-cases (k == j)) [
    | inl e ↦ rw e d.1
    | inr e ↦ rw e (find-remove_missing k j l d.0, Distinct-remove j l d.1)
  ]

module _ {ℓ κ} {A : Type ℓ} (P : A → Type κ) where
  abbrev pub AllValues : List (ℕ × A) → Type κ
  AllValues [] = Unit
  AllValues ((j, a) ∷ rest) = P a × AllValues rest

  pub find-AllValues : (j : ℕ) (l : List (ℕ × A)) (a : A) → AllValues l → find j l ≡ some a → P a
  unfolding find
  find-AllValues j [] a all h = cc
  find-AllValues j ((k, c) ∷ l) a all h = elim (Bool-cases (k == j)) [
    | inl e ↦ subst P (cc (if_true (some c) (find j l) e)) all.0
    | inr e ↦ find-AllValues j l a all.1 (cc (if_false (some c) (find j l) e))
  ]

  pub AllValues-replace :
      (j : ℕ) (b : A) (l : List (ℕ × A)) → P b → AllValues l → AllValues (replace j b l)
  unfolding replace
  AllValues-replace j b [] p all = tt
  AllValues-replace j b ((k, c) ∷ l) p all = elim (Bool-cases (k == j)) [
    | inl e ↦ rw e (p, all.1)
    | inr e ↦ rw e (all.0, AllValues-replace j b l p all.1)
  ]

  pub AllValues-remove : (j : ℕ) (l : List (ℕ × A)) → AllValues l → AllValues (remove j l)
  unfolding remove
  AllValues-remove j [] all = tt
  AllValues-remove j ((k, c) ∷ l) all = elim (Bool-cases (k == j)) [
    | inl e ↦ rw e all.1
    | inr e ↦ rw e (all.0, AllValues-remove j l all.1)
  ]

-- A change of the list that changes the entry under one name and leaves the others alone, as seen
-- through `view`.
pub find-entry {ℓ κ} :
    {A : Type ℓ} {B : Type κ} (view : A → B) (j : ℕ) (change : Option B → Option B)
    (l l' : List (ℕ × A))
    → Option.map view (find j l') ≡ change (Option.map view (find j l))
    → ((id : ℕ) → (j == id) ≡ false → find id l' ≡ find id l)
    → (id : ℕ)
    → Option.map view (find id l')
      ≡ (if j == id then change (Option.map view (find id l)) else Option.map view (find id l))
find-entry view j change l l' at others id = elim (Bool-cases (j == id)) [
  | inl same ↦
      subst (λ n. Option.map view (find n l') ≡ change (Option.map view (find n l)))
        ((==_iff j id).0 same) at
      ∙ sym (if_true _ _ same)
  | inr other ↦ ap (Option.map view) (others id other) ∙ sym (if_false _ _ other)
]
