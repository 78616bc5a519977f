-- ===== src/Recovery/Upload/Uploaded.antt =====
-- recovery/task/s3_upload.go, s3/client.go and s3/bucket.go: what an upload that succeeds has done.
use cf_redis_broker.Base.{
  ◌≡◌, refl, ◌∙◌, String, ◌<>◌, Option, none, List, [], ◌∷◌, ◌++◌, arith, subst, pair_path, Error,
  Result-cases, ok, inl, inr,
}
use cf_redis_broker.Os.{World, log_info}
use cf_redis_broker.Redis.Repository.Listing.Count.{view}
use cf_redis_broker.Recovery.Pipeline.{Artifact}
use cf_redis_broker.Recovery.Upload.{
  S3Upload, new_s3_upload, create_bucket, upload_to_bucket, run_upload, log_step, create_data,
}
use cf_redis_broker.Recovery.Upload
use cf_redis_broker.S3.Bucket.{
  S3Bucket, LogData, upload_action, upload_data, with_event, upload, upload_environ, after_upload,
}
use cf_redis_broker.S3.Client.{
  S3Client, Region, PutReply, done, api_error, other_error, get_region, new_client, after_put,
  bucket_named, get_or_create_bucket, log_bucket,
}

-- The store's reply says that there is such a bucket now: it made it, or answered with a conflict.
abbrev pub HasBucket : PutReply → Type 0
HasBucket done = Unit
HasBucket (api_error status e) = status ≡ 409
HasBucket (other_error e) = ⊥

-- The command ran without an error.
abbrev pub Ran : ((String × Option Error) × World) → Type 0
Ran outcome = outcome.0.1 ≡ none

abbrev Sent : S3Bucket → String → String → World → Type 0
Sent bucket source target v = Ran (
    bucket.run_command bucket.aws_cli_path
      (bucket.environ
        ++ ("AWS_ACCESS_KEY_ID=" <> bucket.key) ∷ ("AWS_SECRET_ACCESS_KEY=" <> bucket.secret) ∷ [])
      ("s3"
        ∷ "cp"
        ∷ source
        ∷ ("s3://" <> bucket.name <> "/" <> target)
        ∷ "--endpoint-url"
        ∷ bucket.endpoint
        ∷ [])
      v)

module _ (c : S3Client) (name : String) where
  reply_steps :
      (reply : PutReply) (b : S3Bucket) (w w' : World)
      → after_put c name reply w ≡ (ok b, w')
      → HasBucket reply × (view w' ≡ view w) × (b ≡ bucket_named c name)
  unfolding after_put
  reply_steps done b w w' h = ground arith
  reply_steps (api_error status e) b w w' h = ground arith
  reply_steps (other_error e) b w w' h = absurd (ground arith)

  bucket_steps :
      (b : S3Bucket) (w w' : World)
      → get_or_create_bucket c name w ≡ (ok b, w')
      → (v : World) × (view v ≡ view w)
        × HasBucket (c.put_bucket name v).0
        × (view w' ≡ view (c.put_bucket name v).1)
        × (b ≡ bucket_named c name)
  unfolding get_or_create_bucket
  bucket_steps b w w' h =
      let v : World = log_bucket c name "starting" w in
      let (has, kept, named) = reply_steps (c.put_bucket name v).0 b (c.put_bucket name v).1 w' h in
      (v, refl, has, kept, named)

module _ (bucket : S3Bucket) (source target : String) where
  upload_steps :
      (w w' : World)
      → upload bucket source target w ≡ (ok tt, w')
      → (v : World) × (view v ≡ view w) × Sent bucket source target v
  unfolding upload upload_environ after_upload
  upload_steps w w' h =
      let details : LogData = upload_data bucket source target in
      let v : World =
        log_info upload_action (with_event "shelling-out" details)
          (log_info upload_action (with_event "creating-command" details) w) in
      (v, refl, ground arith)

module _ (u : S3Upload) where
  -- The bucket that an upload that succeeds works with, and what it does in between.
  create_steps :
      (b : S3Bucket) (w w' : World)
      → create_bucket u w ≡ (ok b, w')
      → (x y : World) × (view x ≡ view w)
        × (get_or_create_bucket u.client u.bucket_name x ≡ (ok b, y))
        × (view w' ≡ view y)
  unfolding create_bucket
  create_steps b w w' h =
      let x : World = (log_step "create-bucket" "starting" (create_data u) w).1 in
      elim (Result-cases (get_or_create_bucket u.client u.bucket_name x).0) [
        | inl (e, bad) ↦ absurd (ground arith)
        | inr (c, good) ↦
            (x, (get_or_create_bucket u.client u.bucket_name x).1, refl, ground arith, ground arith)
      ]

  run_steps :
      (artifact artifact' : Artifact) (w w' : World)
      → run_upload u artifact w ≡ (ok artifact', w')
      → (b : S3Bucket) × (x y z z' : World) × (view x ≡ view w)
        × (get_or_create_bucket u.client u.bucket_name x ≡ (ok b, y))
        × (view z ≡ view y)
        × (upload b artifact u.target_path z ≡ (ok tt, z'))
        × (artifact' ≡ artifact)
  unfolding run_upload upload_to_bucket
  run_steps artifact artifact' w w' h =
      let v : World = (log_step "" "starting" (Upload.upload_data u artifact) w).1 in
      elim (Result-cases (create_bucket u v).0) [
        | inl (e, bad) ↦ absurd (ground arith)
        | inr (b, good) ↦
            let v' : World = (create_bucket u v).1 in
            let (x, y, x_kept, made, y_kept) = create_steps b v v' (pair_path good refl) in
            let z : World = (log_step "upload" "starting" (Upload.upload_data u artifact) v').1 in
            elim (Result-cases (upload b artifact u.target_path z).0) [
              | inl (e, bad) ↦ absurd (ground arith)
              | inr (t, sent) ↦ (
                b,
                x,
                y,
                z,
                (upload b artifact u.target_path z).1,
                x_kept,
                made,
                y_kept,
                pair_path sent refl,
                ground arith,
              )
            ]
      ]

module _ (regions : List Region)
    (put_bucket : String → String → Region → String → World → PutReply × World)
    (environ : List String)
    (exec_command : String
      → List String
      → List String
      → World
      → (String × Option Error) × World) where
  -- If the upload task that `NewS3Upload` makes, with no injectors, succeeds on an artifact, then
  -- it returns that artifact; the store was asked, with the access key, the secret key, the
  -- region of the endpoint and the bucket's name, on the files as they were at first, and made
  -- the bucket or answered with the status 409; and on the files that this left, `aws` ran
  -- without an error, with the two keys in the variables AWS_ACCESS_KEY_ID and
  -- AWS_SECRET_ACCESS_KEY behind the program's environment, as `s3 cp` from the artifact to the
  -- target in that bucket at the endpoint.
  pub uploaded :
      (bucket target endpoint key secret : String) (artifact artifact' : Artifact) (w w' : World)
      → (new_s3_upload
            (new_client regions put_bucket environ exec_command)
            bucket
            target
            endpoint
            key
            secret
            []).run
          artifact w
        ≡ (ok artifact', w')
      → (v v' : World) × (view v ≡ view w)
        × HasBucket (put_bucket key secret (get_region regions endpoint) bucket v).0
        × (view v' ≡ view (put_bucket key secret (get_region regions endpoint) bucket v).1)
        × Ran (
            exec_command "aws"
              (environ ++ ("AWS_ACCESS_KEY_ID=" <> key) ∷ ("AWS_SECRET_ACCESS_KEY=" <> secret) ∷ [])
              ("s3"
                ∷ "cp"
                ∷ artifact
                ∷ ("s3://" <> bucket <> "/" <> target)
                ∷ "--endpoint-url"
                ∷ endpoint
                ∷ [])
              v')
        × (artifact' ≡ artifact)
  unfolding run_upload create_bucket upload_to_bucket new_client
  uploaded bucket target endpoint key secret artifact artifact' w w' h =
      let u : S3Upload = record {
        client = new_client regions put_bucket environ exec_command endpoint key secret;
        bucket_name = bucket;
        target_path = target;
      } in
      let (b, x, y, z, z', x_kept, made, y_kept, sent, same) =
        run_steps u artifact artifact' w w' h in
      let (v, v_kept, has, put_kept, named) = bucket_steps u.client bucket b x y made in
      let (v', v'_kept, ran) = upload_steps b artifact target z z' sent in
      (
        v,
        v',
        v_kept ∙ x_kept,
        has,
        v'_kept ∙ y_kept ∙ put_kept,
        subst (λ b. Sent b artifact target v') named ran,
        same,
      )
