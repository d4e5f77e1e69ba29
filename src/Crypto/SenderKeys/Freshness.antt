-- ===== src/Crypto/SenderKeys/Freshness.antt =====
-- src/crypto/SenderKeyManager.cpp: the epochs of the stored keys never pass the current one, so a
-- rotation overwrites no key.
use vox_desktop.Base.{
  suc, ◌-◌, String, ◌≡◌, ◌≢◌, sym, ◌∙◌, true, false, some, Bytes, string_eq, ◌==◌, text_eq_iff,
  arith, inl, inr, Bool-cases, Bool, max, if◌then◌else◌, nat_beq, length,
}
use vox_desktop.Base.Int.{
  ℤ, pos, negsuc, int_limit, ltb_int, max_int, suc_int, int_eq, int_beq, int_beq_iff,
}
use vox_desktop.Base.Dict.{insert, lookup, lookup-insert}
use vox_desktop.Crypto.Sodium.{Sodium, Draw}
use vox_desktop.Crypto.SenderKeys.{
  EpochState, SenderKeyManager, state_of, current_epoch, key_for_epoch, rotate_epoch,
  import_epoch_key,
}
use vox_desktop.Crypto.SenderKeys.Epochs.{
  IsEpochs, IsManager, key_for_epoch-state_of, state_of-insert, rotate_epoch_lem,
}

rotated-IsEpochs :
    (s : EpochState) (key : Bytes)
    → IsEpochs s
    → s.current_epoch ≢ pos (int_limit - 1)
    → IsEpochs (record {
      current_epoch = suc_int s.current_epoch;
      keys = insert s.keys (suc_int s.current_epoch) key;
    })
rotated-IsEpochs s key v h =
    let next = suc_int s.current_epoch in
    let is_next : next ≡ pos (suc v.current) = ground (arith, v.is_current) in
    record {
      current = suc v.current;
      is_current = is_next;
      upto = λ epoch k found. elim (Bool-cases (int_beq next epoch)) [
        | inl same ↦
            (suc v.current, ground (arith, int_beq_iff next epoch), omega arith, omega arith)
        | inr other ↦
            let old : lookup s.keys epoch ≡ some k =
              ground (arith, lookup-insert s.keys next epoch key) in
            let (n, e, low, high) = v.upto epoch k old in (n, e, low, omega arith)
      ];
    }

imported-IsEpochs :
    (s : EpochState) (epoch : ℤ) (key : Bytes)
    → IsEpochs s
    → ltb_int (pos 0) epoch ≡ true
    → IsEpochs
        (record { current_epoch = max_int s.current_epoch epoch; keys = insert s.keys epoch key })
imported-IsEpochs s (pos i) key v h = record {
  current = max v.current i;
  is_current = ground (arith, v.is_current);
  upto = λ e k found. elim (Bool-cases (int_beq (pos i) e)) [
    | inl same ↦ (i, ground (arith, int_beq_iff (pos i) e), ground arith, omega arith)
    | inr other ↦
        let old : lookup s.keys e ≡ some k = ground (arith, lookup-insert s.keys (pos i) e key) in
        let (n, is_n, low, high) = v.upto e k old in (n, is_n, low, omega arith)
  ];
}
imported-IsEpochs s (negsuc i) key v h = absurd (cc)

if-IsEpochs :
    (b : Bool) (s t : EpochState) → IsEpochs s → IsEpochs t → IsEpochs (if b then s else t)
if-IsEpochs true s t hs ht = hs
if-IsEpochs false s t hs ht = ht

-- A rotation keeps the epochs of a manager in order, unless the current epoch is the largest `int`.
rotate_epoch-IsManager :
    (lib : Sodium) (draw : Draw) (m : SenderKeyManager) (c : String)
    → IsManager m
    → current_epoch m c ≢ pos (int_limit - 1)
    → IsManager (rotate_epoch lib draw m c).1
unfolding rotate_epoch current_epoch
rotate_epoch-IsManager lib draw m c v h d =
    rw (state_of-insert m c d _)
      (if-IsEpochs (c == d) _ _ (rotated-IsEpochs (state_of m c) _ (v c) h) (v d))

-- An import keeps the epochs of a manager in order, whether it is accepted or not.
pub import_epoch_key-IsManager :
    (m : SenderKeyManager) (c : String) (epoch : ℤ) (key : Bytes)
    → IsManager m
    → IsManager (import_epoch_key m c epoch key).1
unfolding import_epoch_key
import_epoch_key-IsManager m c epoch key v d = elim (Bool-cases (ltb_int (pos 0) epoch)) [
  | inr low ↦ rw low (v d)
  | inl high ↦ elim (Bool-cases (nat_beq (length key) 32)) [
    | inr short ↦ rw (high, short) (v d)
    | inl full ↦
        rw (high, full, state_of-insert m c d _)
          (if-IsEpochs (c == d) _ _ (imported-IsEpochs (state_of m c) epoch key (v c) high) (v d))
  ]
]

-- In a manager whose epochs are in order, a rotation of a conversation that is not at the largest
-- `int` changes no key that was stored: what was found under an epoch is still found there.
pub rotate_epoch_keeps_keys :
    (lib : Sodium) (draw : Draw) (m : SenderKeyManager) (c d : String) (epoch : ℤ) (key : Bytes)
    → IsManager m
    → current_epoch m c ≢ pos (int_limit - 1)
    → key_for_epoch m d epoch ≡ some key
    → key_for_epoch (rotate_epoch lib draw m c).1 d epoch ≡ some key
unfolding current_epoch
rotate_epoch_keeps_keys lib draw m c d epoch key v h found =
    let changed = rotate_epoch_lem lib draw m c d epoch in
    let next = suc_int (state_of m c).current_epoch in
    let found' : lookup (state_of m d).keys epoch ≡ some key =
      sym (key_for_epoch-state_of m d epoch) ∙ found in
    elim (Bool-cases (c == d)) [
      | inr other ↦ ground (arith, changed.1)
      | inl same ↦ elim (Bool-cases (int_beq next epoch)) [
        | inr older ↦ ground (arith, changed.1)
        | inl newest ↦
            let (n, is_n, low, high) = (v d).upto epoch key found' in
            absurd (ground (arith, text_eq_iff c d, int_beq_iff next epoch, (v d).is_current))
      ]
    ]
