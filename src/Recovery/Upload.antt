-- ===== src/Recovery/Upload.antt =====
-- recovery/task/s3_upload.go: the task that puts an artifact into a bucket.
pub mod Uploaded
use cf_redis_broker.Base.{String, ◌<>◌, ◌==◌, if◌then◌else◌, some, List, [], ◌∷◌, Error}
use cf_redis_broker.Base.Act.{Act, on_error, pure, ◌>>=◌, ◌>>◌}
use cf_redis_broker.Os.{World, log_info, log_error, always}
use cf_redis_broker.S3.Bucket.{S3Bucket, LogData, with_event, upload}
use cf_redis_broker.S3.Client.{S3Client, get_or_create_bucket}
use cf_redis_broker.Recovery.Pipeline.{Artifact, Task}

-- Less the endpoint and the keys, which only go into the client.
pub record S3Upload : Type 0 where
  pub client : S3Client
  pub bucket_name : String
  pub target_path : String

abbrev pub log_action : String → String
log_action sub_action = if sub_action == "" then "s3upload" else "s3upload" <> "." <> sub_action

abbrev pub log_step : String → String → LogData → Act World (Unit {0})
log_step sub_action event details =
    always (log_info (log_action sub_action) (with_event event details))

abbrev pub log_failure : String → LogData → Error → World → World
log_failure sub_action details e =
    log_error (log_action sub_action) (some e) (with_event "failed" details)

module _ (u : S3Upload) where
  abbrev create_data : LogData
  create_data = ("bucket", u.bucket_name) ∷ []

  abbrev upload_data : Artifact → LogData
  upload_data source_path =
      ("source_path", source_path) ∷ ("target_path", u.target_path) ∷ ("bucket", u.bucket_name) ∷ []

  unfoldable pub create_bucket : Act World S3Bucket
  create_bucket = do
    log_step "create-bucket" "starting" create_data
    bucket ←
        on_error (get_or_create_bucket u.client u.bucket_name)
          (log_failure "create-bucket" create_data)
    log_step "create-bucket" "done" create_data
    pure bucket

  unfoldable pub upload_to_bucket : S3Bucket → Artifact → Act World (Unit {0})
  upload_to_bucket bucket source_path = do
    log_step "upload" "starting" (upload_data source_path)
    on_error (upload bucket source_path u.target_path)
        (log_failure "upload" (upload_data source_path))
    log_step "upload" "done" (upload_data source_path)

  unfoldable pub run_upload : Artifact → Act World Artifact
  run_upload artifact = do
    log_step "" "starting" (upload_data artifact)
    bucket ← on_error create_bucket (log_failure "" (upload_data artifact))
    on_error (upload_to_bucket bucket artifact) (log_failure "" (upload_data artifact))
    log_step "" "done" (upload_data artifact)
    pure artifact

  abbrev pub as_task : Task
  as_task = record { name = "s3upload"; run = run_upload }

-- The injectors, which the tests use to put another client in, are functions on the upload.
module _ (make_client : String → String → String → S3Client) where
  abbrev inject : List (S3Upload → S3Upload) → S3Upload → S3Upload
  inject [] u = u
  inject (injector ∷ injectors) u = inject injectors (injector u)

  abbrev pub new_s3_upload :
      String → String → String → String → String → List (S3Upload → S3Upload) → Task
  new_s3_upload bucket_name target_path endpoint key secret injectors = as_task (
      inject injectors (record {
        client = make_client endpoint key secret;
        bucket_name = bucket_name;
        target_path = target_path;
      }))
