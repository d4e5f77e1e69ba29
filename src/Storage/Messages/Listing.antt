-- ===== src/Storage/Messages/Listing.antt =====
-- src/storage/Repositories.cpp: what `listConversationMessages` returns after `upsertMessage`.
use vox_desktop.Base.{
  ℕ, zero, suc, ◌≡◌, ◌≢◌, refl, ap, Bool, true, string_eq, ◌==◌, ==-self, Bool-cases, inl, inr,
  List, [], ◌∷◌, map, ltb, value_or, Option, none, some, flag_read, subst, take, text_is_empty,
  text_eq_iff, String, arith, if◌then◌else◌,
}
use mathlib.Core.List.{Perm}
use vox_desktop.Base.Int.{pos, negsuc}
use vox_desktop.Base.Dict.{lookup, remove}
use vox_desktop.Domain.{Message}
use vox_desktop.Domain.Names.Codec.{delivery_state-round_trip, content_kind-round_trip}
use vox_desktop.Storage.Table.{rows, upsert, keep, order_by}
use vox_desktop.Storage.Table.Rows.{IsTable, upsert-IsTable, keep-upsert_in, remove_fresh}
use vox_desktop.Storage.Table.Order.{IsOrdered, order_by-IsOrdered, map-IsOrdered, listed-cons}
use vox_desktop.Storage.Messages.{
  MessageRow, MessagesTable, message_row, message_of, set_message, created_earlier, upsert_message,
  list_conversation_messages,
}

abbrev pub IsMessages : MessagesTable → Type 0
IsMessages t = IsTable (λ (r : MessageRow). r.message_id) t

-- All messages of a conversation: a negative limit is none.
abbrev pub all_messages : String → MessagesTable → List Message
all_messages conversation_id t = list_conversation_messages true conversation_id (negsuc 0) t

reply_read :
    (o : Option String)
    → o ≢ some ""
    → (if text_is_empty (value_or o "") then none else some (value_or o "")) ≡ o
reply_read none h = refl
reply_read (some s) h = elim (Bool-cases (text_is_empty s)) [
  | inl blank ↦ absurd (h (ap some ((text_eq_iff s "").0 blank)))
  | inr filled ↦ rw filled refl
]

read_back : (m : Message) → m.reply_to_message_id ≢ some "" → message_of (message_row m) ≡ m
read_back m h =
    rw
      (
        content_kind-round_trip m.content_kind,
        delivery_state-round_trip m.delivery_state,
        flag_read m.is_outgoing,
        reply_read m.reply_to_message_id h,
      )
      refl

-- In a table with each row once, under its key: a message under a new id, which does not reply to
-- the empty id, is read back from its conversation as it was given, beside those that were there.
pub all_messages-insert :
    (m : Message) (t : MessagesTable)
    → IsMessages t
    → lookup t m.message_id ≡ none
    → m.reply_to_message_id ≢ some ""
    → let (done, t') = upsert_message true m t in
      (done ≡ true)
      × IsMessages t'
      × Perm (all_messages m.conversation_id t') (m ∷ all_messages m.conversation_id t)
unfolding upsert_message list_conversation_messages
all_messages-insert m t s fresh h =
    let in_it : MessageRow → Bool = λ r. r.conversation_id == m.conversation_id in
    let t' : MessagesTable = upsert set_message t m.message_id (message_row m) in
    (
      refl,
      upsert-IsTable set_message (λ (r : MessageRow). r.message_id) t (message_row m)
          (λ old new e. e) s,
      subst
          (λ (x : Message).
            Perm (all_messages m.conversation_id t') (x ∷ all_messages m.conversation_id t))
          (read_back m h)
          (listed-cons message_of created_earlier (message_row m) (keep in_it (rows t'))
            (keep in_it (rows t))
            (subst
              (λ (u : MessagesTable).
                Perm (keep in_it (rows t')) (message_row m ∷ keep in_it (rows u)))
              (remove_fresh t m.message_id fresh)
              (keep-upsert_in set_message in_it t m.message_id (message_row m) (message_row m)
                s.distinct (rw fresh refl) (==-self m.conversation_id)))),
    )

-- What is left of a stored message under a new one with its id.
abbrev pub replaced : Message → Message → Message
replaced old m = record m {
  message_id = old.message_id;
  conversation_id = old.conversation_id;
  server_seq = old.server_seq;
  content_kind = old.content_kind;
  reply_to_message_id = old.reply_to_message_id;
  sender_key_epoch = old.sender_key_epoch;
}

replaced_read :
    (m : Message) (old : MessageRow)
    → message_of (set_message old (message_row m)) ≡ replaced (message_of old) m
replaced_read m old = rw (delivery_state-round_trip m.delivery_state, flag_read m.is_outgoing) refl

-- In a table with each row once, under its key: a message under an id that is there leaves the
-- conversation, the server's sequence number, the content kind, the reply and the sender key epoch
-- of the stored one, and replaces the rest of it; it stays in the conversation of the stored
-- message, whatever its own.
all_messages-replace :
    (m : Message) (t : MessagesTable) (old : MessageRow)
    → IsMessages t
    → lookup t m.message_id ≡ some old
    → let (done, t') = upsert_message true m t in
      (done ≡ true)
      × IsMessages t'
      × Perm
          (all_messages old.conversation_id t')
          (replaced (message_of old) m ∷ all_messages old.conversation_id (remove t m.message_id))
unfolding upsert_message list_conversation_messages
all_messages-replace m t old s present =
    let in_it : MessageRow → Bool = λ r. r.conversation_id == old.conversation_id in
    let t' : MessagesTable = upsert set_message t m.message_id (message_row m) in
    let rest : MessagesTable = remove t m.message_id in
    (
      refl,
      upsert-IsTable set_message (λ (r : MessageRow). r.message_id) t (message_row m)
          (λ old new e. e) s,
      subst
          (λ (x : Message).
            Perm (all_messages old.conversation_id t') (x ∷ all_messages old.conversation_id rest))
          (replaced_read m old)
          (listed-cons message_of created_earlier (set_message old (message_row m))
            (keep in_it (rows t')) (keep in_it (rows rest))
            (keep-upsert_in set_message in_it t m.message_id (message_row m)
              (set_message old (message_row m)) s.distinct (rw present refl)
              (==-self old.conversation_id))),
    )

abbrev pub sent_earlier : Message → Message → Bool
sent_earlier a b = ltb a.client_created_at_ms b.client_created_at_ms

map-take {ℓ κ} :
    {R : Type ℓ} {A : Type κ} (f : R → A) (n : ℕ) (rs : List R)
    → map f (take n rs) ≡ take n (map f rs)
map-take {A = A} f zero rs = refl
map-take {A = A} f (suc n) [] = refl
map-take {A = A} f (suc n) (r ∷ rs) = ap (λ (l : List A). f r ∷ l) (map-take f n rs)

-- A limit that is not negative takes the oldest messages of a conversation: it returns a first part
-- of all its messages, which are in the order of the time of creation.
list_conversation_messages-limit :
    (conversation_id : String) (n : ℕ) (t : MessagesTable)
    → IsOrdered sent_earlier (all_messages conversation_id t)
      × (list_conversation_messages true conversation_id (pos n) t
          ≡ take n (all_messages conversation_id t))
unfolding list_conversation_messages
list_conversation_messages-limit conversation_id n t =
    let in_it : MessageRow → Bool = λ r. r.conversation_id == conversation_id in
    let ordered : List MessageRow = order_by created_earlier (keep in_it (rows t)) in
    (
      map-IsOrdered message_of sent_earlier ordered
          (order_by-IsOrdered created_earlier (λ a b h. ground arith) (keep in_it (rows t))),
      map-take message_of n ordered,
    )
