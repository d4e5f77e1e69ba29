-- ===== src/Services/Conversation/Titles.antt =====
-- src/services/ConversationService.cpp: every conversation gets a title.
use vox_desktop.Base.{
  ℕ, zero, suc, ◌<◌, ◌≡◌, String, Bool, true, false, not, ◌&&◌, Bool-cases, Option-cases, inl, inr,
  Option, none, some, List, [], ◌∷◌, text_is_empty, text_eq_iff, string_eq, leb, arith,
}
use vox_desktop.Base.Int.{pos, int_beq}
use vox_desktop.Base.Texts.{append_filled, append_filled_left}
use vox_desktop.Qt.Text.{QtText}
use vox_desktop.Network.{
  ApiResult, ConversationSummaryDto, ConversationMemberDto, ConversationMembersResponseDto,
}
use vox_desktop.Services.Conversation.{
  TitleApis, filled_of, value_or_text, last6, member_names, joined, names_title, peer_title,
  other_title, resolve_title,
}

-- What QString documents: the trimmed empty text is empty, and the last characters of a text that is
-- not empty are not.
pub record QtTextLaws (strings : QtText) : Type 0 where
  pub trimmed_empty : strings.trimmed "" ≡ ""
  pub right_filled :
      (s : String) (n : ℕ)
      → text_is_empty s ≡ false
      → 0 < n
      → text_is_empty (strings.right s n) ≡ false

abbrev IsFilled : Option String → Type 0
IsFilled none = Unit
IsFilled (some s) = text_is_empty s ≡ false

value_or_text_filled :
    (o : Option String) (other : String)
    → IsFilled o
    → text_is_empty other ≡ false
    → text_is_empty (value_or_text o other) ≡ false
value_or_text_filled none other h k = k
value_or_text_filled (some s) other h k = h

filled_of-IsFilled {ℓ} :
    {A : Type ℓ} (result : ApiResult A) (field : A → String) → IsFilled (filled_of result field)
filled_of-IsFilled result field = elim (Option-cases result.payload) [
  | inl nothing ↦ rw nothing tt
  | inr (found, is) ↦ elim (Bool-cases (result.ok && not (text_is_empty (field found)))) [
    | inl yes' ↦
        let filled : text_is_empty (field found) ≡ false = ground arith in rw (is, yes') filled
    | inr no' ↦ rw (is, no') tt
  ]
]

joined-IsFilled :
    (name : String) (names : List String)
    → text_is_empty name ≡ false
    → IsFilled (joined (name ∷ names))
joined-IsFilled name [] h = h
joined-IsFilled name (more ∷ names) h = append_filled_left name _ h

module _ (strings : QtText) (laws : QtTextLaws strings) where
  last6_filled : (s : String) → text_is_empty s ≡ false → text_is_empty (last6 strings s) ≡ false
  unfolding last6
  last6_filled s h = elim (Bool-cases (leb (strings.size s) 6)) [
    | inl short ↦ rw short h
    | inr long ↦ rw long (laws.right_filled s 6 h (omega arith))
  ]

  member_names-IsFilled :
      (n : ℕ) (members : List ConversationMemberDto)
      → IsFilled (joined (member_names strings n members))
  unfolding member_names
  member_names-IsFilled zero members = tt
  member_names-IsFilled (suc n) [] = tt
  member_names-IsFilled (suc n) (m ∷ members) = elim (Bool-cases (text_is_empty m.username)) [
    | inl skipped ↦ rw skipped (member_names-IsFilled (suc n) members)
    | inr named ↦ rw named (joined-IsFilled m.username (member_names strings n members) named)
  ]

  names_title-IsFilled :
      (ok : Bool) (found : Option ConversationMembersResponseDto)
      → IsFilled (names_title strings ok found)
  names_title-IsFilled ok none = tt
  names_title-IsFilled true (some found) = member_names-IsFilled 3 found.members
  names_title-IsFilled false (some found) = tt

  peer_title-IsFilled :
      (apis : TitleApis) (peer : Option String) → IsFilled (peer_title strings apis peer)
  peer_title-IsFilled apis none = tt
  peer_title-IsFilled apis (some peer) = elim (Bool-cases (text_is_empty peer)) [
    | inl missing ↦ rw missing tt
    | inr there ↦ rw there (
        value_or_text_filled (filled_of (apis.user_by_id peer) _) (last6 strings peer)
          (filled_of-IsFilled (apis.user_by_id peer) _) (last6_filled peer there))
  ]

  title_filled :
      (title : String) → text_is_empty (strings.trimmed title) ≡ false → text_is_empty title ≡ false
  title_filled title h = elim (Bool-cases (text_is_empty title)) [
    | inl empty ↦
        let none_left : strings.trimmed title ≡ "" =
          rw ((text_eq_iff title "").0 empty) laws.trimmed_empty in
        absurd (ground (arith, text_eq_iff (strings.trimmed title) ""))
    | inr filled ↦ filled
  ]

  other_title_filled :
      (apis : TitleApis) (dto : ConversationSummaryDto)
      → text_is_empty dto.conversation_id ≡ false
      → text_is_empty (other_title strings apis dto) ≡ false
  other_title_filled apis dto h =
      let detail = apis.conversation dto.conversation_id in
      let members = apis.members dto.conversation_id in
      elim (Bool-cases (int_beq dto.type (pos 2))) [
        | inl channel ↦ rw channel (
            value_or_text_filled (filled_of detail _) _ (filled_of-IsFilled detail _)
              (append_filled _ "hannel " (last6 strings dto.conversation_id)))
        | inr other ↦ rw other (elim (Bool-cases (int_beq dto.type (pos 1))) [
          | inl group ↦ rw group (
              value_or_text_filled (names_title strings members.ok members.payload) _
                (names_title-IsFilled members.ok members.payload)
                (append_filled _ "roup " (last6 strings dto.conversation_id)))
          | inr unknown ↦ rw unknown (last6_filled dto.conversation_id h)
        ])
      ]

  -- Where QString keeps its laws: the title that a conversation gets is not empty, whatever the
  -- server answers and whatever the conversation's type is, if its id is not empty.
  resolve_title_filled :
      (apis : TitleApis) (dto : ConversationSummaryDto)
      → text_is_empty dto.conversation_id ≡ false
      → text_is_empty (resolve_title strings apis dto) ≡ false
  unfolding resolve_title
  resolve_title_filled apis dto h = elim (Bool-cases (text_is_empty (strings.trimmed dto.title))) [
    | inl blank ↦ rw blank (elim (Bool-cases (int_beq dto.type (pos 0))) [
      | inl dm ↦ rw dm (
          value_or_text_filled (peer_title strings apis dto.peer_user_id)
            (other_title strings apis dto) (peer_title-IsFilled apis dto.peer_user_id)
            (other_title_filled apis dto h))
      | inr other ↦ rw other (other_title_filled apis dto h)
    ])
    | inr titled ↦ rw titled (title_filled dto.title titled)
  ]
