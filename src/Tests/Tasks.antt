-- ===== src/Tests/Tasks.antt =====
-- The pipelines, and an upload.
use cf_redis_broker.Base.{String, Option, none, List, Error}
use cf_redis_broker.Redis.Repository.Listing.Count.{view}
use cf_redis_broker.Recovery.Upload.{new_s3_upload, create_bucket, upload_to_bucket, run_upload}
use cf_redis_broker.Recovery.Upload.Uploaded.{HasBucket, Ran, uploaded}
use cf_redis_broker.S3.Bucket.{upload, upload_environ, after_upload}
use cf_redis_broker.S3.Client.{
  Region, PutReply, api_error, get_region, new_client, after_put, get_or_create_bucket,
}
use cf_redis_broker.Base.{◌≡◌, refl, ◌<>◌, [], ◌∷◌, ◌++◌, ok, err, message}
use cf_redis_broker.Os.{World}
use cf_redis_broker.Recovery.Pipeline.{Task, run_task, run_tasks}
use cf_redis_broker.Recovery.Pipeline.Laws.{run_tasks_failed}
use cf_redis_broker.Tests.Data.{empty_disk}

abbrev copy : Task
copy = record { name = "copy"; run = λ a w. (ok (a <> ".copy"), w) }

abbrev broken : Task
broken = record { name = "broken"; run = λ a w. (err (message "broken"), w) }

abbrev copied : World
copied = (run_tasks "backup" (copy ∷ []) "dump" empty_disk).1

abbrev failed : World
failed = (run_task "backup" broken "dump.copy" copied).1

copied_ok : run_tasks "backup" (copy ∷ []) "dump" empty_disk ≡ (ok "dump.copy", copied)
unfolding run_tasks run_task
copied_ok = refl

failed_err : run_task "backup" broken "dump.copy" copied ≡ (err (message "broken"), failed)
unfolding run_task
failed_err = refl

run_tasks_failed_example :
    run_tasks "backup" ((copy ∷ []) ++ broken ∷ copy ∷ []) "dump" empty_disk
    ≡ (err (message "broken"), failed)
run_tasks_failed_example =
    run_tasks_failed "backup" (copy ∷ []) (copy ∷ []) broken "dump" "dump.copy" empty_disk copied
      failed (message "broken") copied_ok failed_err

-- A store that has the bucket, and a command that succeeds.
abbrev put_bucket : String → String → Region → String → World → PutReply × World
put_bucket key secret region name w = (api_error 409 (message "BucketAlreadyOwnedByYou"), w)

abbrev exec_command : String → List String → List String → World → (String × Option Error) × World
exec_command program environ args w = (("", none), w)

abbrev upload_task : Task
upload_task =
    new_s3_upload (new_client [] put_bucket ("HOME=/root" ∷ []) exec_command) "backups" "dump.rdb"
      "https://s3" "key" "secret" []

abbrev sent : World
sent = (upload_task.run "/tmp/dump" empty_disk).1

sent_ok : upload_task.run "/tmp/dump" empty_disk ≡ (ok "/tmp/dump", sent)
unfolding run_upload create_bucket upload_to_bucket upload upload_environ after_upload
    get_or_create_bucket after_put new_client
sent_ok = refl

uploaded_example :
    (v v' : World) × (view v ≡ view empty_disk)
    × HasBucket (put_bucket "key" "secret" (get_region [] "https://s3") "backups" v).0
    × (view v' ≡ view (put_bucket "key" "secret" (get_region [] "https://s3") "backups" v).1)
    × Ran (
        exec_command "aws"
          ("HOME=/root" ∷ "AWS_ACCESS_KEY_ID=key" ∷ "AWS_SECRET_ACCESS_KEY=secret" ∷ [])
          ("s3" ∷ "cp" ∷ "/tmp/dump" ∷ "s3://backups/dump.rdb" ∷ "--endpoint-url" ∷ "https://s3"
            ∷ [])
          v')
    × (◌≡◌ {A = String} "/tmp/dump" "/tmp/dump")
uploaded_example =
    uploaded [] put_bucket ("HOME=/root" ∷ []) exec_command "backups" "dump.rdb" "https://s3" "key"
      "secret" "/tmp/dump" "/tmp/dump" empty_disk sent sent_ok
