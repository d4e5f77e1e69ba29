-- ===== src/Services/MessageSend/Delivery.antt =====
-- src/services/MessageSendService.cpp: what is in the database after a message was sent.
use vox_desktop.Base.{
  ℕ, ◌+◌, ◌≡◌, refl, String, Bool, true, false, ◌||◌, Bytes, Bool-cases, inl, inr, none, [], ◌∷◌,
  text_is_empty, string_eq, nat_eq, arith, if◌then◌else◌, leb,
}
use mathlib.Core.List.{Perm}
use mathlib.Core.List.Perm
use vox_desktop.Base.Int.{ℤ}
use vox_desktop.Base.Dict.{lookup}
use vox_desktop.Qt.{Qt}
use vox_desktop.Domain.{queued, sent_to_server}
use vox_desktop.Storage.Messages.Listing.{IsMessages, all_messages, all_messages-insert}
use vox_desktop.Storage.Jobs.{JobRecord, due_jobs}
use vox_desktop.Storage.Jobs.Due.{IsJobs, new_job, enqueue_job-due_jobs}
use vox_desktop.Services.MessageSend.{
  SendEnv, Outbox, send_request, sent_message, send_with_cache, send_ciphertext, send_message,
  message_retry_delay_ms,
}

module _ (qt : Qt) where
  -- What sending leaves: the message in its conversation, as sent or as queued by the server's
  -- answer, and in the second case a job that is due after the delay.
  pub IsSent : SendEnv → String → String → String → ℤ → Bytes → ℕ → Outbox → Bool → Outbox → Type 0
  IsSent env conversation_id device_id ciphertext envelope_type cache now_ms box done box' =
      let sent =
        env.send_envelope (send_request env conversation_id device_id ciphertext envelope_type) in
      let state = if sent.ok then sent_to_server else queued in
      let job : JobRecord =
        new_job "send_message" (qt.to_utf8 ciphertext) (env.queued_ms + message_retry_delay_ms)
          box.jobs in
      (done ≡ true)
      × IsMessages box'.messages
      × IsJobs box'.jobs
      × Perm (all_messages conversation_id box'.messages) (
          sent_message qt env conversation_id device_id ciphertext cache sent state
          ∷ all_messages conversation_id box.messages)
      × Perm (due_jobs true now_ms box'.jobs) (
          if sent.ok
          then due_jobs true now_ms box.jobs
          else if leb (env.queued_ms + message_retry_delay_ms) now_ms
          then job ∷ due_jobs true now_ms box.jobs
          else due_jobs true now_ms box.jobs)

  send_with_cache-IsSent :
      (env : SendEnv) (conversation_id device_id ciphertext : String) (envelope_type : ℤ)
      (cache : Bytes) (now_ms : ℕ) (box : Outbox)
      → IsMessages box.messages
      → IsJobs box.jobs
      → lookup box.messages env.envelope_id ≡ none
      → env.runs_message ≡ true
      → env.runs_job ≡ true
      → let (done, box') =
          send_with_cache qt env conversation_id device_id ciphertext envelope_type cache box in
        IsSent env conversation_id device_id ciphertext envelope_type cache now_ms box done box'
  unfolding send_with_cache IsSent
  send_with_cache-IsSent env conversation_id device_id ciphertext envelope_type cache now_ms box sm
        sj fresh rm rj =
      let sent =
        env.send_envelope (send_request env conversation_id device_id ciphertext envelope_type) in
      let message = sent_message qt env conversation_id device_id ciphertext cache sent in
      let kept =
        all_messages-insert (message sent_to_server) box.messages sm fresh
          (λ e. ground (arith, e)) in
      let waiting =
        all_messages-insert (message queued) box.messages sm fresh (λ e. ground (arith, e)) in
      let job =
        enqueue_job-due_jobs "send_message" (qt.to_utf8 ciphertext)
          (env.queued_ms + message_retry_delay_ms) now_ms box.jobs sj in
      rw (rm, rj)
        (elim (Bool-cases sent.ok) [
          | inl ok ↦ rw ok (kept.0, kept.1, sj, kept.2, Perm.refl (due_jobs true now_ms box.jobs))
          | inr down ↦ rw down (rw (waiting.0, job.0) refl, waiting.1, job.1, waiting.2, job.3)
        ])

  -- On tables with each message and job once, under its id: `sendCiphertext` with arguments that
  -- are not empty, under a UUID that no stored message has and with a database that runs the
  -- statements, returns true; the message is in its conversation, sent if the server took it and
  -- queued if not, and in the second case a job with the ciphertext is due after the delay. The
  -- other messages of the conversation and the other jobs that are due stay as they were.
  pub send_ciphertext-IsSent :
      (env : SendEnv) (conversation_id device_id ciphertext : String) (envelope_type : ℤ)
      (now_ms : ℕ) (box : Outbox)
      → (text_is_empty conversation_id || text_is_empty device_id || text_is_empty ciphertext)
        ≡ false
      → IsMessages box.messages
      → IsJobs box.jobs
      → lookup box.messages env.envelope_id ≡ none
      → env.runs_message ≡ true
      → env.runs_job ≡ true
      → let (done, box') =
          send_ciphertext qt env conversation_id device_id ciphertext envelope_type box in
        IsSent env conversation_id device_id ciphertext envelope_type [] now_ms box done box'
  unfolding send_ciphertext
  send_ciphertext-IsSent env conversation_id device_id ciphertext envelope_type now_ms box h sm sj
        fresh rm rj =
      rw h (
        send_with_cache-IsSent env conversation_id device_id ciphertext envelope_type [] now_ms box
          sm sj fresh rm rj)

  -- `sendMessage` does the same and keeps the plaintext with the message, as UTF-8 and not encrypted.
  send_message-IsSent :
      (env : SendEnv) (conversation_id device_id plaintext ciphertext : String) (envelope_type : ℤ)
      (now_ms : ℕ) (box : Outbox)
      → text_is_empty plaintext ≡ false
      → (text_is_empty conversation_id || text_is_empty device_id || text_is_empty ciphertext)
        ≡ false
      → IsMessages box.messages
      → IsJobs box.jobs
      → lookup box.messages env.envelope_id ≡ none
      → env.runs_message ≡ true
      → env.runs_job ≡ true
      → let (done, box') =
          send_message qt env conversation_id device_id plaintext ciphertext envelope_type box in
        IsSent env conversation_id device_id ciphertext envelope_type
          (qt.to_utf8 plaintext)
          now_ms
          box
          done
          box'
  unfolding send_message
  send_message-IsSent env conversation_id device_id plaintext ciphertext envelope_type now_ms box hp
        h sm sj fresh rm rj =
      rw (hp, h)
        (send_with_cache-IsSent env conversation_id device_id ciphertext envelope_type
          (qt.to_utf8 plaintext) now_ms box sm sj fresh rm rj)
