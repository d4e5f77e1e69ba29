-- ===== src/App/Selection/Agrees.antt =====
-- src/bin/Application.cpp: envelopes are stored alike when their conversation is selected and when
-- they arrive while it is.
use vox_desktop.Base.{
  Bool-cases, Option-cases, inl, inr, text_is_empty, ◌≡◌, refl, ◌∙◌, sym, ap, String, string_eq,
  ◌==◌, ==-self, Bool, true, Option, some, List, [], ◌∷◌,
}
use vox_desktop.Base.Int.{ℤ}
use vox_desktop.Qt.{Qt}
use vox_desktop.Qt.Text.{QtText}
use vox_desktop.Network.{ApiResult, ConversationSummaryDto, EnvelopeDto, EnvelopeBatchResponse}
use vox_desktop.Network.Parsing.RoundTrip.{Each}
use vox_desktop.Storage.Messages.{MessagesTable, upsert_message}
use vox_desktop.Services.Auth.{AuthContext}
use vox_desktop.App.Transport.{Base64}
use vox_desktop.App.Create.{accepted}
use vox_desktop.App.Envelopes.{
  EnvelopeApis, UiState, is_self_dm, is_outgoing, author, message_of_envelope, apply_envelope,
  apply_all, pending_envelopes_page_size,
}
use vox_desktop.App.Selection.{
  session_text, is_summary_of_self, selected_is_outgoing, selected_sender, selected_plaintext,
  selected_message, envelopes_of, selected_state, store_selected, load_selection,
  select_conversation,
}

module _ (qt : Qt) (strings : QtText) (base64 : Base64) (apis : EnvelopeApis)
    (auth : Option AuthContext) where
  abbrev pub IsIn : String → EnvelopeDto → Type 0
  IsIn conversation_id env = env.conversation_id ≡ conversation_id

  selected_is_outgoing-eq :
      (self_dm : Bool) (env : EnvelopeDto)
      → selected_is_outgoing self_dm auth env ≡ is_outgoing self_dm auth env
  unfolding selected_is_outgoing is_outgoing
  selected_is_outgoing-eq self_dm env = elim (Option-cases auth) [
    | inl without ↦ rw without refl
    | inr (context, is) ↦ rw is refl
  ]

  selected_sender-eq :
      (outgoing : Bool) (env : EnvelopeDto)
      → selected_sender apis outgoing auth env ≡ author apis outgoing auth env
  unfolding selected_sender author
  selected_sender-eq outgoing env = elim (Bool-cases (text_is_empty env.sender_user_id)) [
    | inl empty ↦ elim (Option-cases auth) [
      | inl without ↦ rw (without, empty) refl
      | inr (context, is) ↦ rw (is, empty) refl
    ]
    | inr filled ↦ elim (Option-cases auth) [
      | inl without ↦ rw (without, filled) refl
      | inr (context, is) ↦ rw (is, filled) refl
    ]
  ]

  -- The two copies of the lines make one message of an envelope of the selected conversation.
  selected_message-eq :
      (ui : UiState) (env : EnvelopeDto)
      → env.conversation_id ≡ ui.selected_conversation_id
      → selected_message qt strings base64 apis auth ui.selected_conversation_is_self_dm env
        ≡ message_of_envelope qt strings base64 apis ui auth env
  unfolding selected_message message_of_envelope is_self_dm selected_plaintext
  selected_message-eq ui env here =
      let self_dm = ui.selected_conversation_is_self_dm in
      let current : (env.conversation_id == ui.selected_conversation_id) ≡ true =
        rw here (==-self ui.selected_conversation_id) in
      let outgoing = selected_is_outgoing-eq self_dm env in
      let sender = selected_sender-eq (is_outgoing self_dm auth env) env in
      rw current (
        ap
          (λ (out : Bool). record (message_of_envelope qt strings base64 apis ui auth env) {
            sender_user_id = selected_sender apis out auth env;
            is_outgoing = out;
          })
          outgoing
        ∙ ap
            (λ (name : String). record (message_of_envelope qt strings base64 apis ui auth env) {
              sender_user_id = name;
              is_outgoing = is_outgoing self_dm auth env;
            })
            sender)

  store_selected-apply_all :
      (stores : EnvelopeDto → Bool) (ui : UiState) (envelopes : List EnvelopeDto)
      (t : MessagesTable)
      → Each (IsIn ui.selected_conversation_id) envelopes
      → store_selected qt strings base64 apis auth stores ui.selected_conversation_is_self_dm
          envelopes t
        ≡ apply_all qt strings base64 apis ui auth stores envelopes t
  unfolding store_selected apply_all apply_envelope upsert_message
  store_selected-apply_all stores ui [] t e = refl
  store_selected-apply_all stores ui (env ∷ envelopes) t (here, e) =
      rw (selected_message-eq ui env here) (
        store_selected-apply_all stores ui envelopes
          (upsert_message (stores env) (message_of_envelope qt strings base64 apis ui auth env) t).1
          e)

  -- Where the server tells a selected conversation and its envelopes are of it: selecting it stores
  -- what `apply_envelope` stores of the same envelopes, one after another, once it is selected,
  -- whichever of the messages the database takes.
  pub select_conversation-apply_all :
      (conversation_envelopes : String → ℤ → ApiResult EnvelopeBatchResponse)
      (stores : EnvelopeDto → Bool) (runs : Bool) (ui : UiState) (id : String)
      (summary : ConversationSummaryDto) (t : MessagesTable)
      → accepted (apis.conversation id) ≡ some summary
      → Each
          (IsIn id)
          (envelopes_of (accepted (conversation_envelopes id pending_envelopes_page_size)))
      → let (ui', loaded, t') =
          select_conversation qt strings base64 apis auth conversation_envelopes stores runs ui id
            t in
        t'
        ≡ apply_all qt strings base64 apis ui' auth stores
            (envelopes_of (accepted (conversation_envelopes id pending_envelopes_page_size)))
            t
  unfolding select_conversation load_selection selected_state
  select_conversation-apply_all conversation_envelopes stores runs ui id summary t told e =
      let batch = accepted (conversation_envelopes id pending_envelopes_page_size) in
      let self_dm =
        is_summary_of_self (session_text auth (λ (a : AuthContext). a.user_id))
          (accepted (apis.conversation id)) in
      let ui' : UiState = record {
        selected_conversation_id = id;
        selected_conversation_is_self_dm = self_dm;
      } in
      let same : selected_state ui id
            (load_selection qt strings base64 apis auth conversation_envelopes stores runs id t).0
          ≡ ui' =
        rw told refl in
      store_selected-apply_all stores ui' (envelopes_of batch) t e
      ∙ ap (λ (u : UiState). apply_all qt strings base64 apis u auth stores (envelopes_of batch) t)
          (sym same)
