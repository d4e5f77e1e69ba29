-- ===== src/Network/RealtimeSocket.antt =====
-- src/network/RealtimeSocket.cpp, built with Qt WebSockets. An event is what Qt's event loop tells
-- the object or its owner calls; `step` gives the new state and what the object does.
pub mod Reconnect
use vox_desktop.Base.{
  ℕ, ◌*◌, ◌%◌, ◌^◌, String, string_eq, ◌==◌, Bool, true, false, Option, none, some, List, [], ◌∷◌,
  ◌++◌, if◌then◌else◌,
}
use vox_desktop.Base.Int.{ℤ, pos, suc_int, min_int, to_u32, of_u32}
use vox_desktop.Qt.{Qt}
use vox_desktop.Qt.Json.{Fields, value, to_text}
use vox_desktop.Network.{EnvelopeDto}
use vox_desktop.Network.JsonCodec.{parse_object}
use vox_desktop.Network.Parsing.{parse_envelope_dto, text_field, int_field}

-- The delay of the timer while it runs, the attempts since the last connection, and the arguments of
-- the last call of `connectAndAuthenticate`.
pub record RealtimeSocket : Type 0 where
  pub reconnect_timer : Option ℤ
  pub reconnect_attempt : ℤ
  pub url : String
  pub access_token : String

pub data Event : Type 0 where
  -- calls of the owner
  connect_and_authenticate : String → String → Event
  close : Event
  -- signals of QWebSocket and of the timer
  connected : Event
  disconnected : Event
  text_message : String → Event
  socket_failed : String → Event
  timeout : Event

-- What the object emits, and its calls of QWebSocket.
pub data Action : Type 0 where
  envelope_received : EnvelopeDto → Action
  membership_changed : String → ℤ → Action
  user_devices_changed : String → Action
  sync_record_changed : String → String → ℤ → Action
  socket_error : String → Action
  open_socket : String → String → Action
  close_socket : Action

unfoldable pub new_socket : RealtimeSocket
new_socket = record {
  reconnect_timer = none;
  reconnect_attempt = pos 0;
  url = "";
  access_token = "";
}

-- `1 << capped`, which the language defines for a count from 0 on; below it the usual result takes
-- the lowest five bits.
unfoldable pub reconnect_delay_ms : ℤ → ℤ
reconnect_delay_ms attempt =
    let capped = min_int attempt (pos 6) in of_u32 (2 ^ (to_u32 capped % 32) * 250 % 2 ^ 32)

unfoldable pub schedule_reconnect : RealtimeSocket → RealtimeSocket
schedule_reconnect s =
    let attempt = suc_int s.reconnect_attempt in
    record s { reconnect_attempt = attempt; reconnect_timer = some (reconnect_delay_ms attempt) }

-- QWebSocket::open with the header "Authorization: Bearer" when the token is not empty.
unfoldable pub on_connect_and_authenticate :
    RealtimeSocket → String → String → RealtimeSocket × List Action
on_connect_and_authenticate s url access_token =
    (record s { url = url; access_token = access_token }, open_socket url access_token ∷ [])

module _ (qt : Qt) (is_valid : String → Bool) where
  abbrev pub envelope_actions : Option EnvelopeDto → List Action
  envelope_actions none = []
  envelope_actions (some envelope) = envelope_received envelope ∷ []

  abbrev pub message_actions : Fields → List Action
  message_actions obj =
      let type = to_text (value obj "type") in
      if type == "envelope"
      then envelope_actions (parse_envelope_dto obj)
      else if type == "conversation_membership_changed"
      then membership_changed (text_field obj "conversation_id")
          (int_field obj "membership_version")
        ∷ []
      else if type == "user_devices_changed"
      then user_devices_changed (text_field obj "user_id") ∷ []
      else if type == "sync_record_changed"
      then sync_record_changed (text_field obj "collection") (text_field obj "record_id")
          (int_field obj "version")
        ∷ []
      else []

  unfoldable pub on_text_message : String → List Action
  on_text_message message = elim (parse_object qt (qt.to_utf8 message)) [
    | none ↦ []
    | some obj ↦ message_actions obj
  ]

  unfoldable pub step : RealtimeSocket → Event → RealtimeSocket × List Action
  step s (connect_and_authenticate url access_token) =
      on_connect_and_authenticate s url access_token
  step s close = (record s { reconnect_timer = none }, close_socket ∷ [])
  step s connected = (record s { reconnect_attempt = pos 0 }, [])
  step s disconnected = (schedule_reconnect s, [])
  step s (text_message message) = (s, on_text_message message)
  step s (socket_failed error) = (s, socket_error error ∷ [])
  step s timeout =
      let stopped = record s { reconnect_timer = none } in
      if is_valid s.url
      then on_connect_and_authenticate stopped s.url s.access_token
      else (stopped, [])

  unfoldable pub run : RealtimeSocket → List Event → RealtimeSocket × List Action
  run s [] = (s, [])
  run s (e ∷ es) = let (s', done) = step s e in let (s'', rest) = run s' es in (s'', done ++ rest)
