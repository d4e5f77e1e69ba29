-- ===== src/Domain/Names.antt =====
-- src/domain/Models.cpp: `toString` of each enumeration and the tables that read the names back.
pub mod Codec
use vox_desktop.Base.{String, Option, [], ◌∷◌, string_eq}
use vox_desktop.Base.Dict.{Dict, lookup}
use vox_desktop.Domain.{
  ConversationType, dm, group, channel, DeliveryState, draft, queued, encrypting,
  uploading_attachments, sending, sent_to_server, delivered_to_peer_devices, read_local, failed,
  TrustLevel, unknown, unverified, verified, blocked, ContentKind, text, attachment, system,
}

unfoldable pub delivery_state_to_string : DeliveryState → String
delivery_state_to_string draft = "Draft"
delivery_state_to_string queued = "Queued"
delivery_state_to_string encrypting = "Encrypting"
delivery_state_to_string uploading_attachments = "UploadingAttachments"
delivery_state_to_string sending = "Sending"
delivery_state_to_string sent_to_server = "SentToServer"
delivery_state_to_string delivered_to_peer_devices = "DeliveredToPeerDevices"
delivery_state_to_string read_local = "ReadLocal"
delivery_state_to_string failed = "Failed"

unfoldable pub conversation_type_to_string : ConversationType → String
conversation_type_to_string dm = "dm"
conversation_type_to_string group = "group"
conversation_type_to_string channel = "channel"

unfoldable pub trust_level_to_string : TrustLevel → String
trust_level_to_string unknown = "unknown"
trust_level_to_string unverified = "unverified"
trust_level_to_string verified = "verified"
trust_level_to_string blocked = "blocked"

unfoldable pub content_kind_to_string : ContentKind → String
content_kind_to_string text = "text"
content_kind_to_string attachment = "attachment"
content_kind_to_string system = "system"

-- FromTable
unfoldable pub from_table : {Enum : Type 0} → Dict String Enum → String → Option Enum
unfolding lookup
from_table table key = lookup table key

abbrev pub delivery_state_table : Dict String DeliveryState
delivery_state_table =
    ("Draft", draft)
    ∷ ("Queued", queued)
    ∷ ("Encrypting", encrypting)
    ∷ ("UploadingAttachments", uploading_attachments)
    ∷ ("Sending", sending)
    ∷ ("SentToServer", sent_to_server)
    ∷ ("DeliveredToPeerDevices", delivered_to_peer_devices)
    ∷ ("ReadLocal", read_local)
    ∷ ("Failed", failed)
    ∷ []

unfoldable pub delivery_state_from_string : String → Option DeliveryState
unfolding from_table
delivery_state_from_string state = from_table delivery_state_table state

unfoldable pub conversation_type_from_string : String → Option ConversationType
unfolding from_table
conversation_type_from_string type =
    from_table (("dm", dm) ∷ ("group", group) ∷ ("channel", channel) ∷ []) type

unfoldable pub trust_level_from_string : String → Option TrustLevel
unfolding from_table
trust_level_from_string state =
    from_table
      (("unknown", unknown)
        ∷ ("unverified", unverified)
        ∷ ("verified", verified)
        ∷ ("blocked", blocked)
        ∷ [])
      state

unfoldable pub content_kind_from_string : String → Option ContentKind
unfolding from_table
content_kind_from_string kind =
    from_table (("text", text) ∷ ("attachment", attachment) ∷ ("system", system) ∷ []) kind
