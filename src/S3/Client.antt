-- ===== src/S3/Client.antt =====
-- s3/client.go: buckets of a store. The store's package is a parameter: what it answers to the
-- request for a new bucket, and the regions that it knows.
use cf_redis_broker.Base.{
  ℕ, String, Bool, true, eqb, ◌==◌, if◌then◌else◌, Option, some, List, [], ◌∷◌, Error, Result, ok,
  err,
}
use cf_redis_broker.Base.Act.{Act}
use cf_redis_broker.Os.{World, log_info, log_error}
use cf_redis_broker.S3.Bucket.{S3Bucket, LogData, with_event, new_bucket}

-- What `PutBucket` returns: nil, an error of the store's API with its status code, or another error.
pub data PutReply : Type 0 where
  done : PutReply
  api_error : ℕ → Error → PutReply
  other_error : Error → PutReply

pub record Region : Type 0 where
  pub name : String
  pub s3_endpoint : String
  pub s3_location_constraint : Bool

abbrev pub custom_region : String → Region
custom_region endpoint_url = record {
  name = "custom-region";
  s3_endpoint = endpoint_url;
  s3_location_constraint = true;
}

-- The map of known regions is a list in the order in which a run visits them.
unfoldable pub get_region : List Region → String → Region
get_region [] endpoint_url = custom_region endpoint_url
get_region (r ∷ rs) endpoint_url =
    if endpoint_url == r.s3_endpoint then r else get_region rs endpoint_url

pub record S3Client : Type 0 where
  pub endpoint : String
  pub access_key : String
  pub secret_key : String
  pub region : Region
  pub put_bucket : String → World → PutReply × World
  pub environ : List String
  pub run_command : String → List String → List String → World → (String × Option Error) × World

-- `put_bucket` is the call of the store's package, which has the keys and the region.
module _ (regions : List Region)
    (put_bucket : String → String → Region → String → World → PutReply × World)
    (environ : List String)
    (exec_command : String
      → List String
      → List String
      → World
      → (String × Option Error) × World) where
  unfoldable pub new_client : String → String → String → S3Client
  new_client endpoint access_key secret_key = record {
    endpoint = endpoint;
    access_key = access_key;
    secret_key = secret_key;
    region = get_region regions endpoint;
    put_bucket = put_bucket access_key secret_key (get_region regions endpoint);
    environ = environ;
    run_command = exec_command;
  }

abbrev pub get_or_create_action : String
get_or_create_action = "s3client.get-or-create-bucket"

module _ (c : S3Client) where
  abbrev pub bucket_named : String → S3Bucket
  bucket_named name =
      new_bucket c.environ c.run_command name c.endpoint c.access_key c.secret_key []

  abbrev bucket_data : String → LogData
  bucket_data bucket_name = ("bucket_name", bucket_name) ∷ []

  abbrev pub log_bucket : String → String → World → World
  log_bucket bucket_name event =
      log_info get_or_create_action (with_event event (bucket_data bucket_name))

  abbrev pub failed : String → Error → World → Result S3Bucket × World
  failed bucket_name e w = (
    err e,
    log_error get_or_create_action (some e) (with_event "failed" (bucket_data bucket_name)) w,
  )

  abbrev pub created : String → World → Result S3Bucket × World
  created bucket_name w = (ok (bucket_named bucket_name), log_bucket bucket_name "done" w)

  -- A conflict, status 409, says that the bucket is there.
  unfoldable pub after_put : String → PutReply → World → Result S3Bucket × World
  after_put bucket_name done w = created bucket_name w
  after_put bucket_name (api_error status e) w =
      if eqb status 409
      then created bucket_name (log_bucket bucket_name "already-exists" w)
      else failed bucket_name e w
  after_put bucket_name (other_error e) w = failed bucket_name e w

  unfoldable pub get_or_create_bucket : String → Act World S3Bucket
  get_or_create_bucket bucket_name w =
      let (reply, w') = c.put_bucket bucket_name (log_bucket bucket_name "starting" w) in
      after_put bucket_name reply w'
