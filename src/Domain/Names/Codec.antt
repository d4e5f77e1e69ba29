-- ===== src/Domain/Names/Codec.antt =====
-- src/domain/Models.cpp: the names of the enumerations against the tables that read them.
use vox_desktop.Base.{String, ◌≡◌, refl, ◌↔◌, some, arith, text_eq_iff}
use vox_desktop.Domain.{
  ConversationType, dm, group, channel, DeliveryState, draft, queued, encrypting,
  uploading_attachments, sending, sent_to_server, delivered_to_peer_devices, read_local, failed,
  TrustLevel, unknown, unverified, verified, blocked, ContentKind, text, attachment, system,
}
use vox_desktop.Domain.Names.{
  delivery_state_to_string, conversation_type_to_string, trust_level_to_string,
  content_kind_to_string, delivery_state_from_string, conversation_type_from_string,
  trust_level_from_string, content_kind_from_string,
}

pub delivery_state-round_trip :
    (x : DeliveryState) → delivery_state_from_string (delivery_state_to_string x) ≡ some x
unfolding delivery_state_from_string delivery_state_to_string
delivery_state-round_trip draft = refl
delivery_state-round_trip queued = refl
delivery_state-round_trip encrypting = refl
delivery_state-round_trip uploading_attachments = refl
delivery_state-round_trip sending = refl
delivery_state-round_trip sent_to_server = refl
delivery_state-round_trip delivered_to_peer_devices = refl
delivery_state-round_trip read_local = refl
delivery_state-round_trip failed = refl

delivery_state-unread :
    (s : String) (x : DeliveryState)
    → delivery_state_from_string s ≡ some x
    → s ≡ delivery_state_to_string x
unfolding delivery_state_from_string delivery_state_to_string
delivery_state-unread s x h = ground (
  arith,
  text_eq_iff "Draft" s,
  text_eq_iff "Queued" s,
  text_eq_iff "Encrypting" s,
  text_eq_iff "UploadingAttachments" s,
  text_eq_iff "Sending" s,
  text_eq_iff "SentToServer" s,
  text_eq_iff "DeliveredToPeerDevices" s,
  text_eq_iff "ReadLocal" s,
  text_eq_iff "Failed" s,
)

-- A delivery state is read from exactly the text that it is written as.
delivery_state_from_string_iff :
    (s : String) (x : DeliveryState)
    → (delivery_state_from_string s ≡ some x) ↔ (s ≡ delivery_state_to_string x)
delivery_state_from_string_iff s x =
    (delivery_state-unread s x, λ e. rw e (delivery_state-round_trip x))

pub conversation_type-round_trip :
    (x : ConversationType) → conversation_type_from_string (conversation_type_to_string x) ≡ some x
unfolding conversation_type_from_string conversation_type_to_string
conversation_type-round_trip dm = refl
conversation_type-round_trip group = refl
conversation_type-round_trip channel = refl

conversation_type-unread :
    (s : String) (x : ConversationType)
    → conversation_type_from_string s ≡ some x
    → s ≡ conversation_type_to_string x
unfolding conversation_type_from_string conversation_type_to_string
conversation_type-unread s x h =
    ground (arith, text_eq_iff "dm" s, text_eq_iff "group" s, text_eq_iff "channel" s)

-- A conversation type is read from exactly the text that it is written as.
conversation_type_from_string_iff :
    (s : String) (x : ConversationType)
    → (conversation_type_from_string s ≡ some x) ↔ (s ≡ conversation_type_to_string x)
conversation_type_from_string_iff s x =
    (conversation_type-unread s x, λ e. rw e (conversation_type-round_trip x))

pub trust_level-round_trip :
    (x : TrustLevel) → trust_level_from_string (trust_level_to_string x) ≡ some x
unfolding trust_level_from_string trust_level_to_string
trust_level-round_trip unknown = refl
trust_level-round_trip unverified = refl
trust_level-round_trip verified = refl
trust_level-round_trip blocked = refl

trust_level-unread :
    (s : String) (x : TrustLevel) → trust_level_from_string s ≡ some x → s ≡ trust_level_to_string x
unfolding trust_level_from_string trust_level_to_string
trust_level-unread s x h = ground (
  arith,
  text_eq_iff "unknown" s,
  text_eq_iff "unverified" s,
  text_eq_iff "verified" s,
  text_eq_iff "blocked" s,
)

-- A trust level is read from exactly the text that it is written as.
trust_level_from_string_iff :
    (s : String) (x : TrustLevel)
    → (trust_level_from_string s ≡ some x) ↔ (s ≡ trust_level_to_string x)
trust_level_from_string_iff s x = (trust_level-unread s x, λ e. rw e (trust_level-round_trip x))

pub content_kind-round_trip :
    (x : ContentKind) → content_kind_from_string (content_kind_to_string x) ≡ some x
unfolding content_kind_from_string content_kind_to_string
content_kind-round_trip text = refl
content_kind-round_trip attachment = refl
content_kind-round_trip system = refl

content_kind-unread :
    (s : String) (x : ContentKind)
    → content_kind_from_string s ≡ some x
    → s ≡ content_kind_to_string x
unfolding content_kind_from_string content_kind_to_string
content_kind-unread s x h =
    ground (arith, text_eq_iff "text" s, text_eq_iff "attachment" s, text_eq_iff "system" s)

-- A content kind is read from exactly the text that it is written as.
content_kind_from_string_iff :
    (s : String) (x : ContentKind)
    → (content_kind_from_string s ≡ some x) ↔ (s ≡ content_kind_to_string x)
content_kind_from_string_iff s x = (content_kind-unread s x, λ e. rw e (content_kind-round_trip x))
