-- ===== src/Network/Clients/Directory.antt =====
-- src/network/DirectoryApi.cpp.
use vox_desktop.Base.{String, Option, List, [], ◌∷◌}
use vox_desktop.Base.Int.{ℤ}
use vox_desktop.Qt.{Qt}
use vox_desktop.Qt.Json.{Fields}
use vox_desktop.Network.{ApiResult, DirectoryUser, DeviceDirectoryEntry}
use vox_desktop.Network.Parsing.{
  parse_all, array_field, parse_directory_user, parse_device_directory_entry,
}
use vox_desktop.Network.Access.{NetworkAccess, Transport, Query, get}
use vox_desktop.Network.Responses.{typed_response}
use vox_desktop.Network.ApiPaths.{
  join_path, users_by_username_prefix_path, users_prefix_path, users_search_path,
}
use vox_desktop.Network.Clients.Conversations.{number_text}

unfoldable pub parse_users : Fields → Option (List DirectoryUser)
parse_users obj = parse_all parse_directory_user (array_field obj "users")

unfoldable pub parse_devices : Fields → Option (List DeviceDirectoryEntry)
parse_devices obj = parse_all parse_device_directory_entry (array_field obj "devices")

unfoldable pub search_query : Qt → String → ℤ → Query
search_query qt query limit = ("q", query) ∷ ("limit", number_text qt limit) ∷ []

module _ (qt : Qt) (transport : Transport) (net : NetworkAccess) where
  unfoldable pub user_by_username : String → ApiResult DirectoryUser
  user_by_username username =
      typed_response qt "Invalid directory user payload" parse_directory_user
        (get qt transport net (join_path (users_by_username_prefix_path ∷ username ∷ [])) [] [])

  unfoldable pub user_by_id : String → ApiResult DirectoryUser
  user_by_id user_id =
      typed_response qt "Invalid directory user payload" parse_directory_user
        (get qt transport net (join_path (users_prefix_path ∷ user_id ∷ [])) [] [])

  unfoldable pub search_users : String → ℤ → ApiResult (List DirectoryUser)
  search_users query limit =
      typed_response qt "Invalid user entry in search result" parse_users
        (get qt transport net users_search_path (search_query qt query limit) [])

  unfoldable pub user_devices : String → ApiResult (List DeviceDirectoryEntry)
  user_devices user_id =
      typed_response qt "Invalid device entry" parse_devices
        (get qt transport net (join_path (users_prefix_path ∷ user_id ∷ "/devices" ∷ [])) [] [])
