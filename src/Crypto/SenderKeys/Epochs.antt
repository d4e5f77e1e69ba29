-- ===== src/Crypto/SenderKeys/Epochs.antt =====
-- src/crypto/SenderKeyManager.cpp: what a rotation and an import do to the keys, and why a rotation
-- overwrites none.
use vox_desktop.Base.{
  ℕ, ◌≤◌, ◌<◌, String, ◌≡◌, ◌≢◌, refl, true, false, some, Bytes, length, [], string_eq, ◌==◌,
  text_eq_iff, if◌then◌else◌, arith, ◌⊎◌, inl, inr, Bool-cases, nat_beq,
}
use vox_desktop.Base.Int.{ℤ, pos, ltb_int, max_int, suc_int, int_eq}
use vox_desktop.Base.Dict.{lookup, insert, lookup-insert, lookup-empty}
use vox_desktop.Crypto.Sodium.{Sodium, Draw}
use vox_desktop.Crypto.Helpers.{random_bytes}
use vox_desktop.Crypto.SenderKeys.{
  EpochState, SenderKeyManager, state_of, current_epoch, key_for_epoch, rotate_epoch,
  import_epoch_key,
}

-- Every key of a conversation has an epoch from 1 to the current one.
pub record IsEpochs (s : EpochState) : Type 0 where
  pub current : ℕ
  pub is_current : s.current_epoch ≡ pos current
  pub upto :
      (epoch : ℤ) (key : Bytes)
      → lookup s.keys epoch ≡ some key
      → (n : ℕ) × (epoch ≡ pos n) × (0 < n) × (n ≤ current)

abbrev pub IsManager : SenderKeyManager → Type 0
IsManager m = (c : String) → IsEpochs (state_of m c)

pub IsManager-empty : IsManager []
unfolding state_of lookup
IsManager-empty c = record { current = 0; is_current = refl; upto = λ epoch key h. absurd (cc) }

pub key_for_epoch-state_of :
    (m : SenderKeyManager) (c : String) (epoch : ℤ)
    → key_for_epoch m c epoch ≡ lookup (state_of m c).keys epoch
unfolding key_for_epoch state_of
key_for_epoch-state_of m c epoch = ground (arith, lookup-empty {K = ℤ} {V = Bytes} epoch)

pub state_of-insert :
    (m : SenderKeyManager) (c d : String) (s : EpochState)
    → state_of (insert m c s) d ≡ (if c == d then s else state_of m d)
unfolding state_of
state_of-insert m c d s = ground (arith, lookup-insert m c d s)

-- A rotation raises the current epoch of its conversation by one, stores the key that it returns
-- under the new epoch, and changes no key of another epoch and nothing of another conversation.
pub rotate_epoch_lem :
    (lib : Sodium) (draw : Draw) (m : SenderKeyManager) (c d : String) (epoch : ℤ)
    → let (key, m') = rotate_epoch lib draw m c in
      (current_epoch m' d ≡ (if c == d then suc_int (current_epoch m d) else current_epoch m d))
      × (key_for_epoch m' d epoch ≡ (
          if c == d
          then (if suc_int (current_epoch m c) == epoch then some key else key_for_epoch m d epoch)
          else key_for_epoch m d epoch))
unfolding rotate_epoch current_epoch
rotate_epoch_lem lib draw m c d epoch =
    let s = state_of m c in
    let key = random_bytes lib draw (pos 32) in
    let next = suc_int s.current_epoch in
    let rotated : EpochState = record { current_epoch = next; keys = insert s.keys next key } in
    let found = key_for_epoch-state_of m d epoch in
    let after = key_for_epoch-state_of (insert m c rotated) d epoch in
    (
      rw (state_of-insert m c d rotated, current_epoch) (ground (arith, text_eq_iff c d)),
      rw (after, state_of-insert m c d rotated)
          (ground (arith, text_eq_iff c d, found, lookup-insert s.keys next epoch key)),
    )

-- An import is refused, and changes nothing, for an epoch below 1 or a key that has not 32 bytes.
-- Any other import makes the key that of its epoch, makes the current epoch the larger of the two,
-- and changes no key of another epoch and nothing of another conversation.
import_epoch_key_lem :
    (m : SenderKeyManager) (c d : String) (epoch e : ℤ) (key : Bytes)
    → let (done, m') = import_epoch_key m c epoch key in
      (((ltb_int (pos 0) epoch ≡ false) ⊎ (length key ≢ 32)) × (done ≡ false) × (m' ≡ m))
      ⊎ ((ltb_int (pos 0) epoch ≡ true)
          × (length key ≡ 32)
          × (done ≡ true)
          × (current_epoch m' d
              ≡ (if c == d then max_int (current_epoch m d) epoch else current_epoch m d))
          × (key_for_epoch m' d e ≡ (
              if c == d
              then (if epoch == e then some key else key_for_epoch m d e)
              else key_for_epoch m d e)))
unfolding import_epoch_key current_epoch
import_epoch_key_lem m c d epoch e key =
    let s = state_of m c in
    let imported : EpochState = record {
      current_epoch = max_int s.current_epoch epoch;
      keys = insert s.keys epoch key;
    } in
    elim (Bool-cases (ltb_int (pos 0) epoch)) [
      | inr low ↦ inl (inl low, rw low, rw low)
      | inl high ↦ elim (Bool-cases (nat_beq (length key) 32)) [
        | inr short ↦ inl (inr (ground arith), rw (high, short), rw (high, short))
        | inl full ↦
            let after = key_for_epoch-state_of (insert m c imported) d e in
            let found = key_for_epoch-state_of m d e in
            inr (
              high,
              ground arith,
              rw (high, full),
              rw (high, full, state_of-insert m c d imported, current_epoch)
                  (ground (arith, text_eq_iff c d)),
              rw (high, full, after, state_of-insert m c d imported)
                  (ground (arith, text_eq_iff c d, found, lookup-insert s.keys epoch e key)),
            )
      ]
    ]
