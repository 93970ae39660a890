-- ===== src/Common/Maps.antt =====
-- A Go map as an association list: reads, writes and their law. Iteration order is not modelled
-- here: a loop over a map whose result could depend on it says so.
use mathlib.Core.Bool.{Bool, false, ◌&&◌, ◌||◌}
use mathlib.Core.List.{List, [], ◌∷◌}
use mathlib.Core.Option.{Option, none, some}
use mathlib.Core.Path.{◌≡◌, refl, subst}
use mathlib.Core.Logic.{inl, inr}
use native.Mathlib.Omega.{arith}
use steve.Common.Tests.{if◌then◌else◌, Bool-cases}
use steve.Common.Lists.{any}
use steve.Common.Classes.{Eq, ◌==◌}

-- A test of the value at a key: false where the key is missing.
abbrev pub holds_at {ℓ} : {V : Type ℓ} → (V → Bool) → Option V → Bool
holds_at p none = false
holds_at p (some v) = p v

module _ {ℓ κ} {K : Type ℓ} {V : Type κ} ⦃e : Eq K⦄ where
  unfoldable pub lookup : K → List (K × V) → Option V
  lookup key [] = none
  lookup key ((j, w) ∷ rest) = if j == key then some w else lookup key rest

  unfoldable pub insert : K → V → List (K × V) → List (K × V)
  insert key v [] = (key, v) ∷ []
  insert key v ((j, w) ∷ rest) = if j == key then (key, v) ∷ rest else (j, w) ∷ insert key v rest

  pub lookup-insert :
      (key j : K) (v : V) (m : List (K × V))
      → lookup j (insert key v m) ≡ (if key == j then some v else lookup j m)
  unfolding lookup insert
  lookup-insert key j v [] = refl
  lookup-insert key j v ((i, w) ∷ rest) =
      let later = lookup-insert key j v rest in
      ground (arith, later, e.beq_iff i key, e.beq_iff i j, e.beq_iff key j)

  -- No key stands twice: what makes the list a map.
  abbrev pub Distinct : List (K × V) → Type κ
  Distinct [] = Unit
  Distinct ((k, v) ∷ m) = (lookup k m ≡ none) × Distinct m

  pub insert-Distinct : (k : K) (v : V) (m : List (K × V)) → Distinct m → Distinct (insert k v m)
  unfolding insert
  insert-Distinct k v [] h = (unfold lookup in refl, tt)
  insert-Distinct k v ((j, w) ∷ m) h = elim (Bool-cases (j == k)) [
    | inl same ↦
        rw same (subst (λ i. (lookup i m ≡ none) × Distinct m) ((e.beq_iff j k).0 same) (h.0, h.1))
    | inr other ↦ rw other (
      ground (arith, lookup-insert k j v m, e.beq_iff k j, e.beq_iff j k),
      insert-Distinct k v m h.1,
    )
  ]

  absent :
      (k : K) (p : V → Bool) (m : List (K × V))
      → lookup k m ≡ none
      → any (λ (x : K × V). (x.0 == k) && p x.1) m ≡ false
  unfolding lookup any
  absent k p [] h = refl
  absent k p ((j, v) ∷ m) h = ground (arith, absent k p m)

  -- A loop over the entries that looks for a key finds what a read at that key finds.
  pub any_entries :
      (k : K) (p : V → Bool) (m : List (K × V))
      → Distinct m
      → any (λ (x : K × V). (x.0 == k) && p x.1) m ≡ holds_at p (lookup k m)
  unfolding lookup any
  any_entries k p [] h = refl
  any_entries k p ((j, v) ∷ m) h =
      ground (arith, any_entries k p m h.1, absent k p m, e.beq_iff j k)

  -- A write that changes a test of the value at a key by `x` changes a loop over the entries so.
  pub any_update :
      (c : K → Bool) (t : V → Bool) (x : Bool) (k : K) (v : V) (m : List (K × V))
      → t v ≡ (holds_at t (lookup k m) || x)
      → any (λ (e : K × V). c e.0 && t e.1) (insert k v m)
        ≡ (any (λ (e : K × V). c e.0 && t e.1) m || (c k && x))
  unfolding lookup insert any
  any_update c t x k v [] h = ground arith
  any_update c t x k v ((j, w) ∷ m) h = ground (arith, any_update c t x k v m, e.beq_iff j k)

  -- delete(m, k)
  unfoldable pub remove : K → List (K × V) → List (K × V)
  remove key [] = []
  remove key ((j, w) ∷ m) = let rest = remove key m in if j == key then rest else (j, w) ∷ rest

  pub lookup-remove :
      (key j : K) (m : List (K × V))
      → lookup j (remove key m) ≡ (if key == j then none else lookup j m)
  unfolding lookup remove
  lookup-remove key j [] = ground arith
  lookup-remove key j ((i, w) ∷ m) =
      ground (arith, lookup-remove key j m, e.beq_iff i key, e.beq_iff i j, e.beq_iff key j)

  pub remove-Distinct : (key : K) (m : List (K × V)) → Distinct m → Distinct (remove key m)
  unfolding remove
  remove-Distinct key [] h = tt
  remove-Distinct key ((j, w) ∷ m) h =
      ground (arith, lookup-remove key j m, remove-Distinct key m h.1, h.0)
