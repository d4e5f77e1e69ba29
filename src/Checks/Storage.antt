-- ===== src/Checks/Storage.antt =====
-- The theorems on the local database at concrete inputs.
use vox_desktop.Base.{
  ◌≡◌, refl, true, false, string_eq, nat_eq, pair_eq, some, codes, List, [], ◌∷◌, arith,
}
use mathlib.Core.List.{Perm}
use vox_desktop.Base.Int.{pos}
use vox_desktop.Base.Dict.{lookup, remove}
use vox_desktop.Domain.{Message, Device, SyncRecord, text, queued, unverified}
use vox_desktop.Storage.Table.Rows.{IsTable-empty}
use vox_desktop.Storage.Messages.{MessageRow}
use vox_desktop.Storage.Messages.Listing.{IsMessages}
use vox_desktop.Storage.Jobs.{JobRecord, JobsTable, mark_attempt, due_jobs}
use vox_desktop.Storage.Jobs.Due.{IsJobs, new_job, mark_attempt-due_jobs}
use vox_desktop.Storage.SyncRecords.Listing.{IsSync, sync_key}
use vox_desktop.Storage.Devices.{DeviceRow, DevicesTable, device_row}
use vox_desktop.Storage.Devices.Identity.{upsert_all, SameIdentity, upsert_all-keeps_identity}

abbrev pub hello : Message
hello = record {
  message_id = "m1";
  conversation_id = "c1";
  sender_user_id = "me";
  sender_device_id = "d1";
  server_seq = 7;
  client_created_at_ms = 10;
  server_received_at_ms = 20;
  content_kind = text;
  ciphertext_blob = codes "x";
  plaintext_cache_ciphertext = [];
  delivery_state = queued;
  is_outgoing = true;
  reply_to_message_id = some "m0";
  sender_key_epoch = pos 2;
}

pub empty-IsMessages : IsMessages []
empty-IsMessages = IsTable-empty (λ (r : MessageRow). r.message_id)

abbrev no_jobs : JobsTable
no_jobs = record { jobs = []; last_id = 0 }

abbrev one_job : JobsTable
one_job = record { jobs = (1, new_job "send_message" (codes "x") 5 no_jobs) ∷ []; last_id = 1 }

one_job-IsJobs : IsJobs one_job
unfolding lookup
one_job-IsJobs = record {
  table = record { distinct = (refl, tt); keyed = (refl, tt) };
  bounded = λ id h. ground arith;
}

job_there : lookup one_job.jobs 1 ≡ some (new_job "send_message" (codes "x") 5 no_jobs)
unfolding lookup
job_there = refl

mark_attempt-due_jobs_example :
    let (done, t') = mark_attempt true 1 false 8 one_job in
    let others : List JobRecord =
      due_jobs true 9 (record one_job { jobs = remove one_job.jobs 1 }) in
    (done ≡ true)
    × IsJobs t'
    × Perm (due_jobs true 9 t') (
        record (new_job "send_message" (codes "x") 5 no_jobs) {
          state = "queued";
          attempt_count = 1;
          next_attempt_ms = 8;
        }
        ∷ others)
mark_attempt-due_jobs_example =
    mark_attempt-due_jobs false 8 9 one_job 1 (new_job "send_message" (codes "x") 5 no_jobs)
      one_job-IsJobs job_there

abbrev pub settings : SyncRecord
settings = record {
  collection = "settings";
  record_id = "theme";
  version = pos 2;
  ciphertext = codes "x";
  updated_at_ms = 5;
  tombstone = true;
}

pub no_records-IsSync : IsSync []
no_records-IsSync = IsTable-empty sync_key

abbrev phone : Device
phone = record {
  device_id = "d1";
  user_id = "u1";
  server_id = "default";
  label = "Phone";
  identity_sign_pub = codes "s";
  identity_dh_pub = codes "d";
  trust_level = unverified;
  last_seen = 5;
}

abbrev one_device : DevicesTable
one_device = ("d1", device_row phone) ∷ []

phone_there : lookup one_device "d1" ≡ some (device_row phone)
unfolding lookup
phone_there = refl

upsert_all-keeps_identity_example :
    (now : DeviceRow) × (lookup
        (upsert_all ((true, record phone { identity_dh_pub = codes "e" }) ∷ []) one_device)
        "d1"
      ≡ some now)
    × SameIdentity now (device_row phone)
upsert_all-keeps_identity_example =
    upsert_all-keeps_identity ((true, record phone { identity_dh_pub = codes "e" }) ∷ []) one_device
      "d1" (device_row phone) phone_there
