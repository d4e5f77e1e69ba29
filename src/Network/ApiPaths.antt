-- ===== src/Network/ApiPaths.antt =====
-- src/network/ApiPaths.hpp: the server's paths, and the joining of their parts.
use Prim.Native.String.{◌++◌ as append_text}
use vox_desktop.Base.{String, List, [], ◌∷◌}

abbrev pub health_path : String
health_path = "/v1/health"

abbrev pub register_path : String
register_path = "/v1/register"

abbrev pub login_path : String
login_path = "/v1/login"

abbrev pub refresh_path : String
refresh_path = "/v1/refresh"

abbrev pub me_path : String
me_path = "/v1/me"

abbrev pub logout_path : String
logout_path = "/v1/logout"

abbrev pub change_password_path : String
change_password_path = "/v1/account/change-password"

abbrev pub users_by_username_prefix_path : String
users_by_username_prefix_path = "/v1/users/by-username/"

abbrev pub users_search_path : String
users_search_path = "/v1/users/search"

abbrev pub users_prefix_path : String
users_prefix_path = "/v1/users/"

abbrev pub conversations_path : String
conversations_path = "/v1/conversations"

abbrev pub messages_send_path : String
messages_send_path = "/v1/messages/send"

abbrev pub messages_ack_path : String
messages_ack_path = "/v1/messages/ack"

abbrev pub sync_pending_path : String
sync_pending_path = "/v1/sync/pending"

abbrev pub attachments_upload_init_path : String
attachments_upload_init_path = "/v1/attachments/upload-init"

abbrev pub attachments_prefix_path : String
attachments_prefix_path = "/v1/attachments/"

abbrev pub sync_key_bundle_path : String
sync_key_bundle_path = "/v1/sync/key-bundle"

abbrev pub sync_changes_path : String
sync_changes_path = "/v1/sync/changes"

abbrev pub sync_records_prefix_path : String
sync_records_prefix_path = "/v1/sync/records/"

abbrev pub web_socket_path : String
web_socket_path = "/v1/ws"

abbrev pub join_path : List String → String
join_path [] = ""
join_path (part ∷ []) = part
join_path (part ∷ more ∷ parts) = append_text part (join_path (more ∷ parts))
