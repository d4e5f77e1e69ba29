-- ===== src/Checks/Keys.antt =====
-- The theorems on key derivation, key wrapping and sender keys at concrete inputs.
use vox_desktop.Base.{◌-◌, ◌≡◌, ◌≢◌, refl, some, codes, [], take, replicate, arith}
use vox_desktop.Base.Int.{pos, int_limit}
use vox_desktop.Base.Dict.{lookup, insert}
use vox_desktop.Crypto.Hkdf.{hkdf_sha256}
use vox_desktop.Crypto.Hkdf.Rfc5869.{blocks, extract, hkdf_sha256-eq-rfc5869}
use vox_desktop.Crypto.X3dh.{build_initial_shared_secret}
use vox_desktop.Crypto.X3dh.Agreement.{
  X3dhKeys, initiator_input, responder_material, build_initial_shared_secret_lem,
}
use vox_desktop.Crypto.SenderKeys.{
  SenderKeyManager, state_of, current_epoch, key_for_epoch, rotate_epoch, import_epoch_key,
}
use vox_desktop.Crypto.SenderKeys.Epochs.{IsManager, IsManager-empty}
use vox_desktop.Crypto.SenderKeys.Freshness.{import_epoch_key-IsManager, rotate_epoch_keeps_keys}
use vox_desktop.Checks.Library.{sodium, sodium_laws, agreement, counting}

hkdf_sha256-eq-rfc5869_example :
    hkdf_sha256 sodium (codes "ikm") [] (codes "info") (pos 40)
    ≡ take 40 (blocks sodium (extract sodium sodium_laws [] (codes "ikm")) (codes "info") 2)
hkdf_sha256-eq-rfc5869_example =
    hkdf_sha256-eq-rfc5869 sodium sodium_laws (codes "ikm") [] (codes "info") 40 refl (omega arith)
      (omega arith)

abbrev parties : X3dhKeys
parties = record {
  identity_a = replicate 32 1;
  ephemeral_a = replicate 32 2;
  identity_b = replicate 32 3;
  signed_prekey_b = replicate 32 4;
  one_time_b = some (replicate 32 5);
}

build_initial_shared_secret_lem_example :
    build_initial_shared_secret sodium (initiator_input sodium agreement parties)
    ≡ some (
        hkdf_sha256 sodium
          (responder_material sodium agreement parties)
          (codes "vox-x3dh-salt")
          (codes "vox-e2ee-v1/x3dh")
          (pos 32))
build_initial_shared_secret_lem_example =
    build_initial_shared_secret_lem sodium sodium_laws agreement parties (record {
      identity_a_size = refl;
      ephemeral_a_size = refl;
      identity_b_size = refl;
      signed_prekey_b_size = refl;
      one_time_b_size = refl;
    })

abbrev imported : SenderKeyManager
imported = (import_epoch_key [] "group" (pos 3) (replicate 32 9)).1

imported-IsManager : IsManager imported
imported-IsManager = import_epoch_key-IsManager [] "group" (pos 3) (replicate 32 9) IsManager-empty

imported-epoch : current_epoch imported "group" ≡ pos 3
unfolding current_epoch import_epoch_key state_of lookup insert
imported-epoch = refl

imported-not-largest : current_epoch imported "group" ≢ pos (int_limit - 1)
imported-not-largest e = ground (arith, imported-epoch)

imported-key : key_for_epoch imported "group" (pos 3) ≡ some (replicate 32 9)
unfolding key_for_epoch import_epoch_key state_of lookup insert
imported-key = refl

rotate_epoch_keeps_keys_example :
    key_for_epoch (rotate_epoch sodium (counting 5) imported "group").1 "group" (pos 3)
    ≡ some (replicate 32 9)
rotate_epoch_keeps_keys_example =
    rotate_epoch_keeps_keys sodium (counting 5) imported "group" "group" (pos 3) (replicate 32 9)
      imported-IsManager imported-not-largest imported-key
