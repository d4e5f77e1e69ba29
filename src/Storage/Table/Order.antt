-- ===== src/Storage/Table/Order.antt =====
-- `order_by` rearranges the rows into the order, whatever the order's strict test is.
use vox_desktop.Base.{Bool, true, false, ◌≡◌, List, [], ◌∷◌, Bool-cases, inl, inr, map}
use mathlib.Core.List.{Perm}
use mathlib.Core.List.Perm
use vox_desktop.Storage.Table.{insert_row, order_by}

module _ {ℓ} {R : Type ℓ} (before : R → R → Bool) where
  -- No row stands strictly before the row in front of it.
  abbrev pub Follows : R → List R → Type 0
  Follows q [] = Unit
  Follows q (r ∷ rs) = (before r q ≡ false) × Follows r rs

  abbrev pub IsOrdered : List R → Type 0
  IsOrdered [] = Unit
  IsOrdered (r ∷ rs) = Follows r rs

  abbrev pub IsAsymmetric : Type ℓ
  IsAsymmetric = (a b : R) → before a b ≡ true → before b a ≡ false

  insert_row-Follows :
      IsAsymmetric
      → (q r : R) (rs : List R) → before r q ≡ false
      → Follows q rs
      → Follows q (insert_row before r rs)
  unfolding insert_row
  insert_row-Follows asym q r [] h s = (h, tt)
  insert_row-Follows asym q r (p ∷ rs) h s = elim (Bool-cases (before p r)) [
    | inl earlier ↦ rw earlier (s.0, insert_row-Follows asym p r rs (asym p r earlier) s.1)
    | inr later ↦ rw later (h, (later, s.1))
  ]

  insert_row-IsOrdered :
      IsAsymmetric → (r : R) (rs : List R) → IsOrdered rs → IsOrdered (insert_row before r rs)
  unfolding insert_row
  insert_row-IsOrdered asym r [] s = tt
  insert_row-IsOrdered asym r (p ∷ rs) s = elim (Bool-cases (before p r)) [
    | inl earlier ↦ rw earlier (insert_row-Follows asym p r rs (asym p r earlier) s)
    | inr later ↦ rw later (later, s)
  ]

  pub order_by-IsOrdered : IsAsymmetric → (rs : List R) → IsOrdered (order_by before rs)
  unfolding order_by
  order_by-IsOrdered asym [] = tt
  order_by-IsOrdered asym (r ∷ rs) =
      insert_row-IsOrdered asym r (order_by before rs) (order_by-IsOrdered asym rs)

  insert_row-Perm : (r : R) (rs : List R) → Perm (insert_row before r rs) (r ∷ rs)
  unfolding insert_row
  insert_row-Perm r [] = Perm.refl (r ∷ [])
  insert_row-Perm r (p ∷ rs) = elim (Bool-cases (before p r)) [
    | inl earlier ↦ rw earlier (Perm.trans (Perm.cons p (insert_row-Perm r rs)) (Perm.swap r p rs))
    | inr later ↦ rw later (Perm.refl (r ∷ p ∷ rs))
  ]

  pub order_by-Perm : (rs : List R) → Perm (order_by before rs) rs
  unfolding order_by
  order_by-Perm [] = Perm.refl []
  order_by-Perm (r ∷ rs) =
      Perm.trans (insert_row-Perm r (order_by before rs)) (Perm.cons r (order_by-Perm rs))

-- Rows in order stay in order when each is read into a record that has the order's columns.
pub map-IsOrdered {ℓ κ} :
    {R : Type ℓ} {A : Type κ} (f : R → A) (before : A → A → Bool) (rs : List R)
    → IsOrdered (λ a b. before (f a) (f b)) rs
    → IsOrdered before (map f rs)
map-IsOrdered f before [] s = tt
map-IsOrdered f before (r ∷ []) s = tt
map-IsOrdered f before (r ∷ q ∷ rs) s = (s.0, map-IsOrdered f before (q ∷ rs) s.1)

module _ {ℓ κ} {R : Type ℓ} {A : Type κ} (f : R → A) (before : R → R → Bool) where
  -- What a query returns, up to order, depends on its rows up to order.
  pub listed-Perm :
      (rs qs : List R) → Perm rs qs → Perm (map f (order_by before rs)) (map f (order_by before qs))
  listed-Perm rs qs h =
      Perm.map f
        (Perm.trans (order_by-Perm before rs) (Perm.trans h (Perm.symm (order_by-Perm before qs))))

  pub listed-cons :
      (r : R) (rs qs : List R)
      → Perm rs (r ∷ qs)
      → Perm (map f (order_by before rs)) (f r ∷ map f (order_by before qs))
  listed-cons r rs qs h = Perm.map f (
      Perm.trans (order_by-Perm before rs)
        (Perm.trans h (Perm.cons r (Perm.symm (order_by-Perm before qs)))))
