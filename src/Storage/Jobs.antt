-- ===== src/Storage/Jobs.antt =====
-- src/storage/Repositories.cpp, `SqlJobsRepository`.
pub mod Due
use vox_desktop.Base.{
  ℕ, suc, ◌+◌, Bool, false, true, not, ◌&&◌, String, string_eq, nat_eq, ◌==◌, Bytes, Option, none,
  some, List, [], ltb, leb, if◌then◌else◌,
}
use vox_desktop.Base.Dict.{Dict, lookup, insert}
use vox_desktop.Storage.Table.{rows, keep, order_by}

pub record JobRecord : Type 0 where
  pub job_id : ℕ
  pub type : String
  pub payload_ciphertext : Bytes
  pub state : String
  pub attempt_count : ℕ
  pub next_attempt_ms : ℕ

-- The table, and the largest id that AUTOINCREMENT has given.
pub record JobsTable : Type 0 where
  pub jobs : Dict ℕ JobRecord
  pub last_id : ℕ

unfoldable pub enqueue_job : Bool → String → Bytes → ℕ → JobsTable → Bool × JobsTable
enqueue_job runs type payload_ciphertext next_attempt_ms t =
    let job : JobRecord = record {
      job_id = suc t.last_id;
      type = type;
      payload_ciphertext = payload_ciphertext;
      state = "queued";
      attempt_count = 0;
      next_attempt_ms = next_attempt_ms;
    } in
    if runs
    then (true, record { jobs = insert t.jobs (suc t.last_id) job; last_id = suc t.last_id })
    else (false, t)

abbrev pub is_due : ℕ → JobRecord → Bool
is_due now_ms j = leb j.next_attempt_ms now_ms && not (j.state == "done")

abbrev pub attempted_earlier : JobRecord → JobRecord → Bool
attempted_earlier a b = ltb a.next_attempt_ms b.next_attempt_ms

unfoldable pub due_jobs : Bool → ℕ → JobsTable → List JobRecord
due_jobs runs now_ms t =
    if runs then order_by attempted_earlier (keep (is_due now_ms) (rows t.jobs)) else []

abbrev pub attempted : Bool → ℕ → JobRecord → JobRecord
attempted success next_attempt_ms j = record j {
  state = if success then "done" else "queued";
  attempt_count = j.attempt_count + 1;
  next_attempt_ms = next_attempt_ms;
}

-- UPDATE of a job that is not there changes no row and succeeds.
abbrev pub updated : Option JobRecord → Bool → ℕ → ℕ → JobsTable → JobsTable
updated none success next_attempt_ms job_id t = t
updated (some j) success next_attempt_ms job_id t = record t {
  jobs = insert t.jobs job_id (attempted success next_attempt_ms j);
}

unfoldable pub mark_attempt : Bool → ℕ → Bool → ℕ → JobsTable → Bool × JobsTable
mark_attempt runs job_id success next_attempt_ms t =
    if runs
    then (true, updated (lookup t.jobs job_id) success next_attempt_ms job_id t)
    else (false, t)
