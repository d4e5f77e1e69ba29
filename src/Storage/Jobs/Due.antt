-- ===== src/Storage/Jobs/Due.antt =====
-- src/storage/Repositories.cpp: which jobs `dueJobs` returns after `enqueueJob` and `markAttempt`.
use vox_desktop.Base.{
  ℕ, suc, ◌+◌, ◌<◌, ◌≡◌, ◌∙◌, refl, Bool, true, false, not, ◌&&◌, nat_eq, string_eq, ◌==◌, String,
  Bytes, Bool-cases, inl, inr, List, [], ◌∷◌, none, some, leb, subst, arith, if◌then◌else◌,
}
use mathlib.Core.List.{Perm}
use mathlib.Core.List.Perm
use vox_desktop.Base.Dict.{Dict, lookup, insert, remove, lookup-insert, lookup-empty}
use vox_desktop.Storage.Table.{rows, keep, order_by}
use vox_desktop.Storage.Table.Rows.{
  IsTable, IsTable-empty, insert-IsTable, lookup-IsKeyed, keep-insert_in, keep-insert_out,
  remove_fresh,
}
use vox_desktop.Storage.Table.Order.{IsOrdered, order_by-IsOrdered, order_by-Perm}
use vox_desktop.Storage.Jobs.{
  JobRecord, JobsTable, enqueue_job, is_due, attempted_earlier, due_jobs, attempted, mark_attempt,
}

-- Each job once, under its id, and no id above the largest that was given.
pub record IsJobs (t : JobsTable) : Type 0 where
  pub table : IsTable (λ (j : JobRecord). j.job_id) t.jobs
  pub bounded : (id : ℕ) → t.last_id < id → lookup t.jobs id ≡ none

pub IsJobs-empty : IsJobs (record { jobs = []; last_id = 0 })
IsJobs-empty = record {
  table = IsTable-empty (λ (j : JobRecord). j.job_id);
  bounded = λ id h. lookup-empty id;
}

due-cons :
    (j : JobRecord) (rs qs : List JobRecord)
    → Perm rs (j ∷ qs)
    → Perm (order_by attempted_earlier rs) (j ∷ order_by attempted_earlier qs)
due-cons j rs qs h =
    Perm.trans (order_by-Perm attempted_earlier rs)
      (Perm.trans h (Perm.cons j (Perm.symm (order_by-Perm attempted_earlier qs))))

due-same :
    (rs qs : List JobRecord)
    → Perm rs qs
    → Perm (order_by attempted_earlier rs) (order_by attempted_earlier qs)
due-same rs qs h =
    Perm.trans (order_by-Perm attempted_earlier rs)
      (Perm.trans h (Perm.symm (order_by-Perm attempted_earlier qs)))

-- The jobs that are due are in the order of their times.
due_jobs-IsOrdered :
    (now_ms : ℕ) (t : JobsTable) → IsOrdered attempted_earlier (due_jobs true now_ms t)
unfolding due_jobs
due_jobs-IsOrdered now_ms t =
    order_by-IsOrdered attempted_earlier (λ a b h. ground arith)
      (keep (is_due now_ms) (rows t.jobs))

-- What `dueJobs` returns once a job has been put under an id, whether one was there or not.
due_jobs-insert :
    (now_ms : ℕ) (t : JobsTable) (last_id : ℕ) (j : JobRecord)
    → IsJobs t
    → Perm (due_jobs true now_ms (record { jobs = insert t.jobs j.job_id j; last_id = last_id })) (
        if is_due now_ms j
        then j ∷ due_jobs true now_ms (record t { jobs = remove t.jobs j.job_id })
        else due_jobs true now_ms (record t { jobs = remove t.jobs j.job_id }))
unfolding due_jobs
due_jobs-insert now_ms t last_id j s = elim (Bool-cases (is_due now_ms j)) [
  | inl now ↦ rw now (
      due-cons j _ (keep (is_due now_ms) (rows (remove t.jobs j.job_id)))
        (keep-insert_in (is_due now_ms) t.jobs j.job_id j s.table.distinct now))
  | inr later ↦ rw later (
      due-same _ (keep (is_due now_ms) (rows (remove t.jobs j.job_id)))
        (keep-insert_out (is_due now_ms) t.jobs j.job_id j s.table.distinct later))
]

insert-IsJobs :
    (t : JobsTable) (id : ℕ) (j : JobRecord)
    → j.job_id ≡ id
    → (t.last_id < id → ⊥)
    → IsJobs t
    → IsJobs (record t { jobs = insert t.jobs id j })
insert-IsJobs t id j key known s = record {
  table = insert-IsTable (λ (j : JobRecord). j.job_id) t.jobs id j key s.table;
  bounded = λ other h. lookup-insert t.jobs id other j ∙ elim (Bool-cases (id == other)) [
    | inl same ↦ absurd (known (ground (arith, nat_eq.beq_iff id other)))
    | inr apart ↦ rw apart (s.bounded other h)
  ];
}

due_if :
    (now_ms : ℕ) (j : JobRecord) (state : String)
    → (state == "done") ≡ false
    → (leb j.next_attempt_ms now_ms && not (state == "done")) ≡ leb j.next_attempt_ms now_ms
due_if now_ms j state h = ground arith

due_after :
    (success : Bool) (next_ms now_ms : ℕ) (j : JobRecord) (others : List JobRecord)
    → (if is_due now_ms (attempted success next_ms j)
        then attempted success next_ms j ∷ others
        else others)
      ≡ (if not success && leb next_ms now_ms then attempted false next_ms j ∷ others else others)
due_after true next_ms now_ms j others = ground arith
due_after false next_ms now_ms j others = ground arith

abbrev pub new_job : String → Bytes → ℕ → JobsTable → JobRecord
new_job type payload next_ms t = record {
  job_id = suc t.last_id;
  type = type;
  payload_ciphertext = payload;
  state = "queued";
  attempt_count = 0;
  next_attempt_ms = next_ms;
}

-- In a table with each job once, under its id: `enqueueJob` gives the job an id that no job has,
-- and `dueJobs` then returns it beside what it returned before, from the job's time on.
pub enqueue_job-due_jobs :
    (type : String) (payload : Bytes) (next_ms now_ms : ℕ) (t : JobsTable)
    → IsJobs t
    → let (done, t') = enqueue_job true type payload next_ms t in
      let job : JobRecord = new_job type payload next_ms t in
      (done ≡ true)
      × IsJobs t'
      × (lookup t.jobs job.job_id ≡ none)
      × Perm
          (due_jobs true now_ms t')
          (if leb next_ms now_ms then job ∷ due_jobs true now_ms t else due_jobs true now_ms t)
unfolding enqueue_job
enqueue_job-due_jobs type payload next_ms now_ms t s =
    let job : JobRecord = new_job type payload next_ms t in
    let fresh : lookup t.jobs (suc t.last_id) ≡ none = s.bounded (suc t.last_id) (omega arith) in
    (
      refl,
      record {
        table =
            insert-IsTable (λ (j : JobRecord). j.job_id) t.jobs (suc t.last_id) job refl s.table;
        bounded = λ id h.
            lookup-insert t.jobs (suc t.last_id) id job
            ∙ ground (arith, s.bounded id (omega arith));
      },
      fresh,
      subst
          (λ (due : Bool).
            Perm
              (due_jobs true now_ms
                (record { jobs = insert t.jobs (suc t.last_id) job; last_id = suc t.last_id }))
              (if due then job ∷ due_jobs true now_ms t else due_jobs true now_ms t))
          (due_if now_ms job "queued" refl)
          (subst
            (λ (m : Dict ℕ JobRecord).
              Perm
                (due_jobs true now_ms
                  (record { jobs = insert t.jobs (suc t.last_id) job; last_id = suc t.last_id }))
                (if is_due now_ms job
                  then job ∷ due_jobs true now_ms (record t { jobs = m })
                  else due_jobs true now_ms (record t { jobs = m })))
            (remove_fresh t.jobs (suc t.last_id) fresh)
            (due_jobs-insert now_ms t (suc t.last_id) job s)),
    )

-- In a table with each job once, under its id, and for a job that is there: after `markAttempt`
-- with success `dueJobs` does not return it at any time, after a failure from the next time on,
-- queued for that time and with one more attempt; the other jobs are due as before.
pub mark_attempt-due_jobs :
    (success : Bool) (next_ms now_ms : ℕ) (t : JobsTable) (id : ℕ) (j : JobRecord)
    → IsJobs t
    → lookup t.jobs id ≡ some j
    → let (done, t') = mark_attempt true id success next_ms t in
      let others : List JobRecord = due_jobs true now_ms (record t { jobs = remove t.jobs id }) in
      (done ≡ true)
      × IsJobs t'
      × Perm (due_jobs true now_ms t') (
          if not success && leb next_ms now_ms
          then record j {
            state = "queued";
            attempt_count = j.attempt_count + 1;
            next_attempt_ms = next_ms;
          }
            ∷ others
          else others)
unfolding mark_attempt
mark_attempt-due_jobs success next_ms now_ms t id j s present =
    let key : j.job_id ≡ id =
      lookup-IsKeyed (λ (j : JobRecord). j.job_id) t.jobs id j s.table.keyed present in
    rw present (
      refl,
      insert-IsJobs t id (attempted success next_ms j) key
          (λ h. ground (arith, s.bounded id h, present)) s,
      rw (← key) (
          subst
            (λ (rs : List JobRecord).
              Perm
                (due_jobs true now_ms
                  (record t { jobs = insert t.jobs j.job_id (attempted success next_ms j) }))
                rs)
            (due_after success next_ms now_ms j
              (due_jobs true now_ms (record t { jobs = remove t.jobs j.job_id })))
            (due_jobs-insert now_ms t t.last_id (attempted success next_ms j) s)),
    )
