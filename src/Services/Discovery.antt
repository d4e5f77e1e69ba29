-- ===== src/Services/Discovery.antt =====
-- src/services/ServerDiscoveryService.cpp.
use vox_desktop.Base.{
  string_eq, ◌==◌, Bool, false, not, ◌&&◌, [], none, some, text_is_empty, if◌then◌else◌,
}
use vox_desktop.Qt.{Qt}
use vox_desktop.Domain.{ServerProfile}
use vox_desktop.Network.JsonCodec.{parse_object}
use vox_desktop.Network.Parsing.{text_field}
use vox_desktop.Network.Access.{NetworkAccess, NetworkResponse, Transport, response_ok, get}
use vox_desktop.Network.ApiPaths.{health_path}

module _ (qt : Qt) where
  abbrev pub is_healthy : NetworkResponse → Bool
  is_healthy response =
      if not (response_ok response) then false else elim (parse_object qt response.body) [
        | none ↦ false
        | some obj ↦ text_field obj "status" == "ok"
      ]

  module _ (transport : Transport) (net : NetworkAccess) where
    unfoldable pub check_health : Bool
    check_health = is_healthy (get qt transport net health_path [] [])

    unfoldable pub validate_profile : ServerProfile → Bool
    validate_profile profile =
        not (text_is_empty profile.base_url)
        && not (text_is_empty profile.server_id)
        && check_health
