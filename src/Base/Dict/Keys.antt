-- ===== src/Base/Dict/Keys.antt =====
-- Dictionaries with one entry to a key: the operations keep that, and a new key goes to the end.
use mathlib.Core.Path.{◌≡◌, refl, ap}
use mathlib.Core.Logic.{inl, inr}
use mathlib.Core.Bool.{false}
use mathlib.Core.Option.{none}
use mathlib.Core.List.{[], ◌∷◌, ◌++◌}
use native.Mathlib.Omega.{arith}
use vox_desktop.Base.Tests.{Eq, ◌==◌, Bool-cases}
use vox_desktop.Base.Dict.{Dict, lookup, insert, remove, lookup-insert, lookup-remove}

module _ {ℓ κ} {K : Type ℓ} {V : Type κ} ⦃e : Eq K⦄ where
  abbrev pub Distinct : Dict K V → Type κ
  Distinct [] = Unit
  Distinct ((k, v) ∷ m) = (lookup m k ≡ none) × Distinct m

  pub insert-Distinct : (m : Dict K V) (k : K) (v : V) → Distinct m → Distinct (insert m k v)
  unfolding insert
  insert-Distinct [] k v d = (unfold lookup in refl, tt)
  insert-Distinct ((j, w) ∷ m) k v d = elim (Bool-cases (j == k)) [
    | inl same ↦ rw same (rw (← (e.beq_iff j k).0 same) d.0, d.1)
    | inr other ↦ rw other (
      rw (lookup-insert m k j v) (ground (arith, e.beq_iff j k, e.beq_iff k j)),
      insert-Distinct m k v d.1,
    )
  ]

  pub remove-Distinct : (m : Dict K V) (k : K) → Distinct m → Distinct (remove m k)
  unfolding remove
  remove-Distinct [] k d = tt
  remove-Distinct ((j, w) ∷ m) k d = elim (Bool-cases (j == k)) [
    | inl same ↦ rw same (remove-Distinct m k d.1)
    | inr other ↦ rw other (
      rw (lookup-remove m k j) (ground (arith, e.beq_iff j k, e.beq_iff k j)),
      remove-Distinct m k d.1,
    )
  ]

  pub insert_fresh :
      (m : Dict K V) (k : K) (v : V) → lookup m k ≡ none → insert m k v ≡ m ++ (k, v) ∷ []
  unfolding insert lookup
  insert_fresh [] k v h = refl
  insert_fresh ((j, w) ∷ m) k v h = elim (Bool-cases (j == k)) [
    | inl same ↦ absurd (ground arith)
    | inr other ↦ rw other (ap (λ (t : Dict K V). (j, w) ∷ t) (insert_fresh m k v (ground arith)))
  ]

  lookup_append_left : (a b : Dict K V) (k : K) → lookup (a ++ b) k ≡ none → lookup a k ≡ none
  unfolding lookup
  lookup_append_left [] b k h = refl
  lookup_append_left ((j, w) ∷ a) b k h = ground (arith, lookup_append_left a b k)

  lookup_append_middle :
      (a b : Dict K V) (k j : K) (v : V) → lookup (a ++ (k, v) ∷ b) j ≡ none → (k == j) ≡ false
  unfolding lookup
  lookup_append_middle [] b k j v h = ground arith
  lookup_append_middle ((i, w) ∷ a) b k j v h = ground (arith, lookup_append_middle a b k j v)

  -- In a dictionary without doubles, an entry's key is not among those before it.
  pub Distinct-fresh :
      (a b : Dict K V) (k : K) (v : V) → Distinct (a ++ (k, v) ∷ b) → lookup a k ≡ none
  unfolding lookup
  Distinct-fresh [] b k v d = refl
  Distinct-fresh ((j, w) ∷ a) b k v d =
      let apart = lookup_append_middle a b k j v d.0 in
      ground (arith, e.beq_iff j k, e.beq_iff k j, apart, Distinct-fresh a b k v d.1)
