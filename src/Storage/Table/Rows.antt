-- ===== src/Storage/Table/Rows.antt =====
-- The rows of a table after an upsert, by their key and as a list.
use vox_desktop.Base.{
  Bool, true, false, ◌≡◌, ◌∙◌, refl, ap, subst, Option, none, some, List, [], ◌∷◌, Eq, ◌==◌,
  Bool-cases, Option-cases, inl, inr, arith, if◌then◌else◌,
}
use mathlib.Core.List.{Perm}
use mathlib.Core.List.Perm
use vox_desktop.Base.Dict.{Dict, lookup, insert, remove, lookup-insert}
use vox_desktop.Base.Dict.Keys.{Distinct, insert-Distinct}
use vox_desktop.Storage.Table.{rows, merged, upsert, keep}

keep_second {ℓ} :
    {R : Type ℓ} (a b : Bool) (w r : R) (xs ys : List R)
    → Perm xs (if b then r ∷ ys else ys)
    → Perm
        (if a then w ∷ xs else xs)
        (if b then r ∷ (if a then w ∷ ys else ys) else (if a then w ∷ ys else ys))
keep_second true true w r xs ys h = Perm.trans (Perm.cons w h) (Perm.swap r w ys)
keep_second true false w r xs ys h = Perm.cons w h
keep_second false true w r xs ys h = h
keep_second false false w r xs ys h = h

keep_all {ℓ} : {R : Type ℓ} (rs : List R) → keep (λ r. true) rs ≡ rs
unfolding keep
keep_all [] = refl
keep_all {R} (r ∷ rs) = ap (λ (l : List R). r ∷ l) (keep_all rs)

keep_yes {ℓ} :
    {R : Type ℓ} (p : R → Bool) (r : R) (rs : List R) → p r ≡ true → keep p (r ∷ rs) ≡ r ∷ keep p rs
unfolding keep
keep_yes p r rs h = rw h refl

keep_no {ℓ} :
    {R : Type ℓ} (p : R → Bool) (r : R) (rs : List R) → p r ≡ false → keep p (r ∷ rs) ≡ keep p rs
unfolding keep
keep_no p r rs h = rw h refl

-- Where the SET clause sets every column, the merged row is the new one.
pub merged_excluded {ℓ} :
    {R : Type ℓ} (old : Option R) (r : R) → merged (λ old excluded. excluded) old r ≡ r
merged_excluded none r = refl
merged_excluded (some old) r = refl

module _ {ℓ κ} {K : Type ℓ} {R : Type κ} ⦃e : Eq K⦄ where
  pub lookup-upsert :
      (set : R → R → R) (t : Dict K R) (k j : K) (r : R)
      → lookup (upsert set t k r) j
        ≡ (if k == j then some (merged set (lookup t k) r) else lookup t j)
  unfolding upsert
  lookup-upsert set t k j r = lookup-insert t k j (merged set (lookup t k) r)

  upsert-Distinct :
      (set : R → R → R) (t : Dict K R) (k : K) (r : R) → Distinct t → Distinct (upsert set t k r)
  unfolding upsert
  upsert-Distinct set t k r d = insert-Distinct t k (merged set (lookup t k) r) d

  pub remove_fresh : (t : Dict K R) (k : K) → lookup t k ≡ none → remove t k ≡ t
  unfolding remove lookup
  remove_fresh [] k h = refl
  remove_fresh ((j, w) ∷ t) k h = elim (Bool-cases (j == k)) [
    | inl same ↦ absurd (ground arith)
    | inr other ↦ rw other (ap (λ (m : Dict K R). (j, w) ∷ m) (remove_fresh t k (ground arith)))
  ]

  keep-insert :
      (p : R → Bool) (t : Dict K R) (k : K) (r : R)
      → Distinct t
      → Perm (keep p (rows (insert t k r))) (keep p (r ∷ rows (remove t k)))
  unfolding insert remove keep
  keep-insert p [] k r d = Perm.refl _
  keep-insert p ((j, w) ∷ t) k r d = elim (Bool-cases (j == k)) [
    | inl same ↦
        let fresh : lookup t k ≡ none =
          subst (λ (i : K). lookup t i ≡ none) ((e.beq_iff j k).0 same) d.0 in
        rw (same, remove_fresh t k fresh) (Perm.refl _)
    | inr other ↦ rw other (
        keep_second (p w) (p r) w r (keep p (rows (insert t k r))) (keep p (rows (remove t k)))
          (keep-insert p t k r d.1))
  ]

  -- An upsert adds the merged row to the rows under the other keys, also among those that a
  -- condition selects.
  keep-upsert :
      (set : R → R → R) (p : R → Bool) (t : Dict K R) (k : K) (r : R)
      → Distinct t
      → Perm
          (keep p (rows (upsert set t k r)))
          (keep p (merged set (lookup t k) r ∷ rows (remove t k)))
  unfolding upsert
  keep-upsert set p t k r d = keep-insert p t k (merged set (lookup t k) r) d

  pub keep-insert_in :
      (p : R → Bool) (t : Dict K R) (k : K) (r : R)
      → Distinct t
      → p r ≡ true
      → Perm (keep p (rows (insert t k r))) (r ∷ keep p (rows (remove t k)))
  keep-insert_in p t k r d h =
      subst (λ (l : List R). Perm (keep p (rows (insert t k r))) l)
        (keep_yes p r (rows (remove t k)) h) (keep-insert p t k r d)

  pub keep-insert_out :
      (p : R → Bool) (t : Dict K R) (k : K) (r : R)
      → Distinct t
      → p r ≡ false
      → Perm (keep p (rows (insert t k r))) (keep p (rows (remove t k)))
  keep-insert_out p t k r d h =
      subst (λ (l : List R). Perm (keep p (rows (insert t k r))) l)
        (keep_no p r (rows (remove t k)) h) (keep-insert p t k r d)

  pub keep-upsert_in :
      (set : R → R → R) (p : R → Bool) (t : Dict K R) (k : K) (r q : R)
      → Distinct t
      → merged set (lookup t k) r ≡ q
      → p q ≡ true
      → Perm (keep p (rows (upsert set t k r))) (q ∷ keep p (rows (remove t k)))
  keep-upsert_in set p t k r q d h hp =
      subst (λ (l : List R). Perm (keep p (rows (upsert set t k r))) l)
        (ap (λ (x : R). keep p (x ∷ rows (remove t k))) h ∙ keep_yes p q (rows (remove t k)) hp)
        (keep-upsert set p t k r d)

  pub keep-upsert_out :
      (set : R → R → R) (p : R → Bool) (t : Dict K R) (k : K) (r q : R)
      → Distinct t
      → merged set (lookup t k) r ≡ q
      → p q ≡ false
      → Perm (keep p (rows (upsert set t k r))) (keep p (rows (remove t k)))
  keep-upsert_out set p t k r q d h hp =
      subst (λ (l : List R). Perm (keep p (rows (upsert set t k r))) l)
        (ap (λ (x : R). keep p (x ∷ rows (remove t k))) h ∙ keep_no p q (rows (remove t k)) hp)
        (keep-upsert set p t k r d)

  pub upsert-Perm :
      (set : R → R → R) (t : Dict K R) (k : K) (r : R)
      → Distinct t
      → Perm (rows (upsert set t k r)) (merged set (lookup t k) r ∷ rows (remove t k))
  upsert-Perm set t k r d =
      subst (λ (l : List R). Perm l (merged set (lookup t k) r ∷ rows (remove t k)))
        (keep_all (rows (upsert set t k r)))
        (subst (λ (l : List R). Perm (keep (λ r. true) (rows (upsert set t k r))) l)
          (keep_all (merged set (lookup t k) r ∷ rows (remove t k)))
          (keep-upsert set (λ r. true) t k r d))

  -- Every row stands under its own key.
  abbrev pub IsKeyed : (R → K) → Dict K R → Type ℓ
  IsKeyed key [] = Unit
  IsKeyed key ((k, r) ∷ t) = (key r ≡ k) × IsKeyed key t

  pub record IsTable (key : R → K) (t : Dict K R) : Type (ℓ ⊔ κ) where
    pub distinct : Distinct t
    pub keyed : IsKeyed key t

  pub IsTable-empty : (key : R → K) → IsTable key []
  IsTable-empty key = record { distinct = tt; keyed = tt }

  insert-IsKeyed :
      (key : R → K) (t : Dict K R) (k : K) (r : R)
      → key r ≡ k
      → IsKeyed key t
      → IsKeyed key (insert t k r)
  unfolding insert
  insert-IsKeyed key [] k r h s = (h, tt)
  insert-IsKeyed key ((j, w) ∷ t) k r h s = elim (Bool-cases (j == k)) [
    | inl same ↦ rw same (h, s.1)
    | inr other ↦ rw other (s.0, insert-IsKeyed key t k r h s.1)
  ]

  pub lookup-IsKeyed :
      (key : R → K) (t : Dict K R) (k : K) (r : R) → IsKeyed key t → lookup t k ≡ some r → key r ≡ k
  unfolding lookup
  lookup-IsKeyed key [] k r s h = absurd (ground arith)
  lookup-IsKeyed key ((j, w) ∷ t) k r s h = elim (Bool-cases (j == k)) [
    | inl same ↦ ground (arith, e.beq_iff j k)
    | inr other ↦ lookup-IsKeyed key t k r s.1 (ground arith)
  ]

  pub insert-IsTable :
      (key : R → K) (t : Dict K R) (k : K) (r : R)
      → key r ≡ k
      → IsTable key t
      → IsTable key (insert t k r)
  insert-IsTable key t k r h s = record {
    distinct = insert-Distinct t k r s.distinct;
    keyed = insert-IsKeyed key t k r h s.keyed;
  }

  -- An upsert whose SET clause leaves the key alone keeps the table in order.
  pub upsert-IsTable :
      (set : R → R → R) (key : R → K) (t : Dict K R) (r : R)
      → ((old new : R) → key old ≡ key new → key (set old new) ≡ key new)
      → IsTable key t
      → IsTable key (upsert set t (key r) r)
  unfolding upsert
  upsert-IsTable set key t r keeps s =
      insert-IsTable key t (key r) (merged set (lookup t (key r)) r)
        (elim (Option-cases (lookup t (key r))) [
          | inl absent ↦ rw absent refl
          | inr (old, present) ↦
              rw present (keeps old r (lookup-IsKeyed key t (key r) old s.keyed present))
        ])
        s

  -- A condition that holds of no row under a key selects the same rows without that key.
  pub keep-remove :
      (p : R → Bool) (key : R → K) (t : Dict K R) (k : K)
      → IsKeyed key t
      → ((r : R) → key r ≡ k → p r ≡ false)
      → keep p (rows (remove t k)) ≡ keep p (rows t)
  unfolding keep remove
  keep-remove p key [] k s h = refl
  keep-remove p key ((j, w) ∷ t) k s h = elim (Bool-cases (j == k)) [
    | inl same ↦ rw (same, h w (s.0 ∙ (e.beq_iff j k).0 same)) (keep-remove p key t k s.1 h)
    | inr other ↦ rw (other, keep-remove p key t k s.1 h) refl
  ]
