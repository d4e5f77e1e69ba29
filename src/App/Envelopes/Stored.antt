-- ===== src/App/Envelopes/Stored.antt =====
-- src/bin/Application.cpp: what applying envelopes does to the table of messages.
use vox_desktop.Base.{
  ◌≡◌, ◌∙◌, refl, sym, ap, ==-self, text_eq_iff, String, string_eq, ◌==◌, Bool, true, false,
  Bool-cases, inl, inr, Option, none, some, List, [], ◌∷◌, if◌then◌else◌,
}
use vox_desktop.Base.Dict.{lookup}
use vox_desktop.Qt.{Qt}
use vox_desktop.Qt.Text.{QtText}
use vox_desktop.Domain.Names.{delivery_state_to_string}
use vox_desktop.Network.{EnvelopeDto}
use vox_desktop.Storage.Table.{merged}
use vox_desktop.Storage.Table.Rows.{lookup-upsert}
use vox_desktop.Storage.Messages.{
  MessageRow, MessagesTable, message_row, set_message, upsert_message,
}
use vox_desktop.Services.Auth.{AuthContext}
use vox_desktop.App.Transport.{Base64}
use vox_desktop.App.Envelopes.{
  EnvelopeApis, UiState, message_of_envelope, apply_envelope, apply_all, plaintext_cache,
}

module _ (qt : Qt) (strings : QtText) (base64 : Base64) (apis : EnvelopeApis) (ui : UiState)
    (auth : Option AuthContext) where
  abbrev pub envelope_row : EnvelopeDto → MessageRow
  envelope_row env = message_row (message_of_envelope qt strings base64 apis ui auth env)

  pub apply_envelope-lookup :
      (env : EnvelopeDto) (t : MessagesTable) (id : String)
      → lookup (apply_envelope qt strings base64 apis ui auth true env t) id ≡ (
          if env.envelope_id == id
          then some (merged set_message (lookup t env.envelope_id) (envelope_row env))
          else lookup t id)
  unfolding apply_envelope upsert_message message_of_envelope
  apply_envelope-lookup env t id = lookup-upsert set_message t env.envelope_id id (envelope_row env)

  -- Two tables with the same row under every id.
  abbrev pub SameRows : MessagesTable → MessagesTable → Type 0
  SameRows t u = (id : String) → lookup t id ≡ lookup u id

  abbrev later_or : Option MessageRow → Bool → MessageRow → Option MessageRow
  later_or (some later) matches row = some later
  later_or none matches row = if matches then some row else none

  -- The row of the last of some envelopes with an id.
  last_row : String → List EnvelopeDto → Option MessageRow
  last_row id [] = none
  last_row id (env ∷ envelopes) =
      later_or (last_row id envelopes) (env.envelope_id == id) (envelope_row env)

  -- What is stored under an id, told by the last row and what was there before.
  abbrev Stored : Option MessageRow → Option MessageRow → Option MessageRow → Type 0
  Stored none old found = found ≡ old
  Stored (some row) old found = (q : Option MessageRow) × (found ≡ some (merged set_message q row))

  rows_kept_once :
      (later : Option MessageRow) (matches : Bool) (row : MessageRow)
      (q old between found : Option MessageRow)
      → between ≡ (if matches then some (merged set_message q row) else old)
      → Stored later between found
      → Stored (later_or later matches row) old found
  rows_kept_once none true row q old between found e rest = (q, rest ∙ e)
  rows_kept_once none false row q old between found e rest = rest ∙ e
  rows_kept_once (some later) matches row q old between found e rest = rest

  apply_all-Stored :
      (envelopes : List EnvelopeDto) (t : MessagesTable) (id : String)
      → Stored
          (last_row id envelopes)
          (lookup t id)
          (lookup (apply_all qt strings base64 apis ui auth (λ d. true) envelopes t) id)
  unfolding apply_all last_row
  apply_all-Stored [] t id = refl
  apply_all-Stored (env ∷ envelopes) t id =
      rows_kept_once (last_row id envelopes) (env.envelope_id == id) (envelope_row env)
        (lookup t env.envelope_id) (lookup t id) _ _ (apply_envelope-lookup env t id)
        (apply_all-Stored envelopes (apply_envelope qt strings base64 apis ui auth true env t) id)

  abbrev with_last : Option MessageRow → MessageRow → MessageRow
  with_last none r = r
  with_last (some row) r = set_message r row

  with_last_step :
      (later : Option MessageRow) (matches : Bool) (row r : MessageRow)
      → with_last later (if matches then set_message r row else r)
        ≡ with_last (later_or later matches row) r
  with_last_step none true row r = refl
  with_last_step none false row r = refl
  with_last_step (some later) true row r = refl
  with_last_step (some later) false row r = refl

  apply_envelope-known :
      (env : EnvelopeDto) (t : MessagesTable) (id : String) (r : MessageRow)
      → lookup t id ≡ some r
      → lookup (apply_envelope qt strings base64 apis ui auth true env t) id
        ≡ some (if env.envelope_id == id then set_message r (envelope_row env) else r)
  apply_envelope-known env t id r h = elim (Bool-cases (env.envelope_id == id)) [
    | inl same ↦
        let e : env.envelope_id ≡ id = (text_eq_iff env.envelope_id id).0 same in
        let there : lookup t env.envelope_id ≡ some r = rw e h in
        apply_envelope-lookup env t id ∙ rw (same, there) refl
    | inr other ↦ apply_envelope-lookup env t id ∙ rw (other, h) refl
  ]

  apply_all-known :
      (envelopes : List EnvelopeDto) (t : MessagesTable) (id : String) (r : MessageRow)
      → lookup t id ≡ some r
      → lookup (apply_all qt strings base64 apis ui auth (λ d. true) envelopes t) id
        ≡ some (with_last (last_row id envelopes) r)
  unfolding apply_all last_row
  apply_all-known [] t id r h = h
  apply_all-known (env ∷ envelopes) t id r h =
      apply_all-known envelopes (apply_envelope qt strings base64 apis ui auth true env t) id
        (if env.envelope_id == id then set_message r (envelope_row env) else r)
        (apply_envelope-known env t id r h)
      ∙ ap (λ (q : MessageRow). some q)
          (with_last_step (last_row id envelopes) (env.envelope_id == id) (envelope_row env) r)

  set_message_twice :
      (q : Option MessageRow) (row : MessageRow)
      → set_message (merged set_message q row) row ≡ merged set_message q row
  set_message_twice none row = refl
  set_message_twice (some old) row = refl

  again_step :
      (last old found again : Option MessageRow)
      → Stored last old found
      → Stored last found again
      → ((r : MessageRow) → found ≡ some r → again ≡ some (with_last last r))
      → again ≡ found
  again_step none old found again s o known = o
  again_step (some row) old found again (q, e) o known =
      known (merged set_message q row) e
      ∙ ap (λ (r : MessageRow). some r) (set_message_twice q row)
      ∙ sym e

  -- Envelopes that come again, as those of a page that is polled twice, change nothing: where the
  -- server's answers and the session are the same and the database stores every message, applying
  -- some envelopes a second time leaves under every id what applying them once has left.
  pub apply_all-again :
      (envelopes : List EnvelopeDto) (t : MessagesTable) (id : String)
      → let once = apply_all qt strings base64 apis ui auth (λ d. true) envelopes t in
        lookup (apply_all qt strings base64 apis ui auth (λ d. true) envelopes once) id
        ≡ lookup once id
  apply_all-again envelopes t id =
      let once = apply_all qt strings base64 apis ui auth (λ d. true) envelopes t in
      again_step (last_row id envelopes) (lookup t id) (lookup once id) _
        (apply_all-Stored envelopes t id) (apply_all-Stored envelopes once id)
        (λ r h. apply_all-known envelopes once id r h)

  -- The server's copy of a message that is stored here, as of one that this device sent: it sets the
  -- delivery state back to "Draft", whatever it was, and replaces the stored plaintext.
  pub apply_envelope-echo :
      (env : EnvelopeDto) (t : MessagesTable) (r : MessageRow)
      → lookup t env.envelope_id ≡ some r
      → (found : MessageRow) × (lookup
            (apply_envelope qt strings base64 apis ui auth true env t)
            env.envelope_id
          ≡ some found)
        × (found.delivery_state ≡ "Draft")
        × (found.plaintext_cache_ciphertext ≡ plaintext_cache qt strings base64 env)
        × (found.content_kind ≡ r.content_kind)
  unfolding message_of_envelope delivery_state_to_string
  apply_envelope-echo env t r h = (
    set_message r (envelope_row env),
    apply_envelope-known env t env.envelope_id r h ∙ rw (==-self env.envelope_id) refl,
    refl,
    refl,
    refl,
  )
