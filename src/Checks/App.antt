-- ===== src/Checks/App.antt =====
-- The theorems on the application at concrete inputs.
use Prim.Native.Char.{code}
use Prim.Native.String.{String, [], ◌∷◌, ◌++◌ as append_text}
use text.Mathlib.TextLemmas.{cons-append, nil-append}
use vox_desktop.Base.{
  ◌≡◌, refl, ap, true, false, string_eq, Bytes, codes, some, none, [], ◌∷◌, ◌++◌,
}
use vox_desktop.Base.Texts.{append_filled}
use vox_desktop.Base.Int.{ℤ, pos}
use vox_desktop.Base.Dict.{lookup}
use vox_desktop.Network.{ApiResult, ConversationSummaryDto, EnvelopeBatchResponse, EnvelopeDto}
use vox_desktop.Storage.Messages.{MessageRow, MessagesTable, message_row}
use vox_desktop.Services.Auth.{AuthContext}
use vox_desktop.App.Transport.{Base64, decrypt_for_ui, encrypt_for_transport}
use vox_desktop.App.Transport.RoundTrip.{TransportLaws, decrypt_for_ui-encrypt_for_transport}
use vox_desktop.App.Envelopes.{
  is_self_dm, EnvelopeApis, UiState, plaintext_cache, apply_envelope, apply_all,
}
use vox_desktop.App.Envelopes.Stored.{apply_all-again, apply_envelope-echo}
use vox_desktop.App.Create.{may_post, CreateApis, resolve_ids, create_group}
use vox_desktop.App.Create.Members.{IsCreated, create_group-created}
use vox_desktop.Services.MessageSend.{SendEnv, Outbox}
use vox_desktop.App.Submit.Delivered.{
  envelope_of, text_request, IsDelivered, submit_message-IsDelivered,
}
use vox_desktop.App.Selection.{select_conversation}
use vox_desktop.App.Selection.Agrees.{select_conversation-apply_all}
use vox_desktop.Checks.Text.{to_unary, from_unary, unary_round_trip}
use vox_desktop.Checks.Library.{qt, qt_laws}
use vox_desktop.Checks.Storage.{hello}
use vox_desktop.Checks.Conversations.{strings, unknown}

abbrev base64 : Base64
base64 = record { encode = to_unary; decode = from_unary }

codes-append : (s s' : String) → codes (append_text s s') ≡ codes s ++ codes s'
codes-append [] s' = rw nil-append refl
codes-append (c ∷ s) s' = rw cons-append (ap (λ (t : Bytes). code c ∷ t) (codes-append s s'))

transport_laws : TransportLaws qt strings base64
transport_laws = record {
  base64_round_trip = unary_round_trip;
  utf8_prefix = codes-append "vox1:";
  trimmed_prefix = λ s. append_filled _ "ox1:" s;
}

decrypt_for_ui-encrypt_for_transport_example :
    decrypt_for_ui qt strings base64 (encrypt_for_transport qt strings base64 "hello")
    ≡ some "hello"
decrypt_for_ui-encrypt_for_transport_example =
    decrypt_for_ui-encrypt_for_transport qt qt_laws strings base64 transport_laws "hello" refl

abbrev session : AuthContext
session = record {
  user_id = "u1";
  username = "ann";
  device_id = "d1";
  access_token = "a";
  refresh_token = "r";
}

abbrev nobody_known : EnvelopeApis
nobody_known = record { conversation = λ id. unknown; user_by_id = λ id. unknown }

abbrev nothing_selected : UiState
nothing_selected = record {
  selected_conversation_id = "";
  selected_conversation_is_self_dm = false;
}

-- The server's copy of the message "m1", which this user wrote.
abbrev echo : EnvelopeDto
echo = record {
  envelope_id = "m1";
  conversation_id = "c1";
  sender_user_id = "u1";
  sender_device_id = "d1";
  ciphertext = encrypt_for_transport qt strings base64 "hello";
  server_timestamp = pos 20;
  envelope_type = pos 0;
  ordering_epoch = none;
}

apply_all-again_example :
    let once =
      apply_all qt strings base64 nobody_known nothing_selected
        (some session)
        (λ d. true)
        (echo ∷ [])
        [] in
    lookup
      (apply_all qt strings base64 nobody_known nothing_selected
        (some session)
        (λ d. true)
        (echo ∷ [])
        once)
      "m1"
    ≡ lookup once "m1"
apply_all-again_example =
    apply_all-again qt strings base64 nobody_known nothing_selected (some session) (echo ∷ []) []
      "m1"

abbrev one_message : MessagesTable
one_message = ("m1", message_row hello) ∷ []

hello_there : lookup one_message "m1" ≡ some (message_row hello)
unfolding lookup
hello_there = refl

apply_envelope-echo_example :
    (found : MessageRow) × (lookup
        (apply_envelope qt strings base64 nobody_known nothing_selected
          (some session)
          true
          echo
          one_message)
        "m1"
      ≡ some found)
    × (found.delivery_state ≡ "Draft")
    × (found.plaintext_cache_ciphertext ≡ plaintext_cache qt strings base64 echo)
    × (found.content_kind ≡ (message_row hello).content_kind)
apply_envelope-echo_example =
    apply_envelope-echo qt strings base64 nobody_known nothing_selected (some session) echo
      one_message (message_row hello) hello_there

-- A directory in which everybody has their name as their id, and a server that creates what it is
-- asked for.
abbrev willing : CreateApis
willing = record {
  user_by_username = λ username. record {
    ok = true;
    status_code = pos 200;
    error = "";
    payload = some (record { user_id = username; username = username });
  };
  create_conversation = λ request. record {
    ok = true;
    status_code = pos 201;
    error = "";
    payload = some (record { conversation_id = "c9" });
  };
}

group_created : (create_group willing (some session) ("bob" ∷ "eve" ∷ "bob" ∷ [])).created ≡ true
unfolding create_group resolve_ids
group_created = refl

create_group-created_example :
    IsCreated willing "u1"
      ("bob" ∷ "eve" ∷ "bob" ∷ [])
      (λ members. record {
        type = "group";
        peer_user_id = "";
        members = members;
        admins = [];
        subscribers = [];
      })
      (create_group willing (some session) ("bob" ∷ "eve" ∷ "bob" ∷ []))
create_group-created_example =
    create_group-created willing session ("bob" ∷ "eve" ∷ "bob" ∷ []) group_created

-- A server that takes every message.
abbrev sending : SendEnv
sending = record {
  envelope_id = "m9";
  send_envelope =
      λ request. record { ok = true; status_code = pos 200; error = ""; payload = none };
  created_ms = 10;
  queued_ms = 11;
  runs_message = true;
  runs_job = true;
}

abbrev reader : AuthContext
reader = record session { user_id = "u2"; username = "bob"; device_id = "d2" }

abbrev nothing_sent : Outbox
nothing_sent = record { messages = []; jobs = record { jobs = []; last_id = 0 } }

free_to_post : may_post strings unknown ≡ true
unfolding may_post
free_to_post = refl

with_another :
    is_self_dm nobody_known nothing_selected (some reader) (
      envelope_of
        (text_request qt qt_laws strings base64 transport_laws sending "c1" session "hi")
        "u1"
        (pos 20))
    ≡ false
unfolding is_self_dm
with_another = refl

submit_message-IsDelivered_example :
    IsDelivered qt qt_laws strings base64 transport_laws sending
      (λ id. unknown)
      session
      "c1"
      "hi"
      nothing_sent
      nobody_known
      nothing_selected
      (some reader)
      (pos 20)
      []
submit_message-IsDelivered_example =
    submit_message-IsDelivered qt qt_laws strings base64 transport_laws sending (λ id. unknown)
      session "c1" "hi" nothing_sent nobody_known nothing_selected (some reader) (pos 20) [] refl
      refl refl refl free_to_post refl refl (unfold lookup in refl) (unfold lookup in refl)
      with_another refl

abbrev alone : ConversationSummaryDto
alone = record {
  conversation_id = "c1";
  type = pos 0;
  created_by = "u1";
  created_by_username = "ann";
  created_at = pos 9;
  membership_version = pos 1;
  my_role = "owner";
  title = "Notes";
  channel_post_policy = "";
  peer_user_id = some "u1";
}

abbrev notes : EnvelopeApis
notes = record nobody_known {
  conversation =
      λ id. record { ok = true; status_code = pos 200; error = ""; payload = some alone };
}

abbrev one_page : String → ℤ → ApiResult EnvelopeBatchResponse
one_page id limit = record {
  ok = true;
  status_code = pos 200;
  error = "";
  payload = some (record { envelopes = echo ∷ []; next_cursor = ""; has_more = false });
}

select_conversation-apply_all_example :
    let (ui', loaded, t') =
      select_conversation qt strings base64 notes
        (some session)
        one_page
        (λ d. true)
        true
        nothing_selected
        "c1"
        [] in
    t' ≡ apply_all qt strings base64 notes ui' (some session) (λ d. true) (echo ∷ []) []
select_conversation-apply_all_example =
    select_conversation-apply_all qt strings base64 notes (some session) one_page (λ d. true) true
      nothing_selected "c1" alone [] refl (refl, tt)
