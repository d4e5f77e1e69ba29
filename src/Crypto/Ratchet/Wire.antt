-- ===== src/Crypto/Ratchet/Wire.antt =====
-- `RatchetMessage::serialize` and `deserialize` of src/crypto/DoubleRatchetSession.cpp.
use vox_desktop.Base.{
  ℕ, ◌≤◌, ◌<◌, ◌^◌, ◌≡◌, some, Bytes, length, length-append, ◌++◌, take-append, drop-append, arith,
}
use vox_desktop.Base.Int.{IsInt, to_u32, of_u32-to_u32, to_u32-lt}
use vox_desktop.Crypto.Ratchet.{RatchetMessage, big_endian, from_big_endian, serialize, deserialize}

from_big_endian-big_endian :
    (n : ℕ) (rest : Bytes) → n < 2 ^ 32 → from_big_endian (big_endian n ++ rest) ≡ n
from_big_endian-big_endian n rest h = omega arith

-- A message whose counter is a 32-bit `int`, with a 12-byte nonce and a ciphertext of at least the
-- 16 bytes of a tag, is read back from its serialization.
pub deserialize-serialize :
    (m : RatchetMessage)
    → IsInt m.counter
    → length m.nonce ≡ 12
    → 16 ≤ length m.ciphertext
    → deserialize (serialize m) ≡ some m
unfolding serialize deserialize
deserialize-serialize m i n c = ground (
  arith,
  length-append m.nonce m.ciphertext,
  take-append 12 m.nonce m.ciphertext n,
  drop-append 12 m.nonce m.ciphertext n,
  from_big_endian-big_endian (to_u32 m.counter) (m.nonce ++ m.ciphertext) (to_u32-lt m.counter),
  of_u32-to_u32 m.counter i,
)
