-- ===== src/S3/Bucket.antt =====
-- s3/bucket.go: uploads with the command line client of AWS. The command is a parameter.
pub mod Obfuscated
use Prim.Native.Char.{char}
use cf_redis_broker.Base.{
  ℕ, suc, ◌+◌, ◌-◌, ◌/◌, String, ◌<>◌, Char, Bool, true, false, ◌&&◌, leb, ltb, if◌then◌else◌,
  Option, none, some, List, [], ◌∷◌, ◌++◌, Error, Result, ok, err, size,
}
use cf_redis_broker.Base.Act.{Act, ◌>>◌}
use cf_redis_broker.Os.{World, log_info, log_error, always}
use cf_redis_broker.Redisconf.{put_alias}

abbrev pub LogData : Type 0
LogData = List (String × String)

-- `data["event"] = event`
abbrev pub with_event : String → LogData → LogData
with_event event details = put_alias "event" event details

-- A command's combined output stands beside its error. `run_command` takes the name, the environment
-- and the arguments.
pub record S3Bucket : Type 0 where
  pub aws_cli_path : String
  pub name : String
  pub endpoint : String
  pub key : String
  pub secret : String
  pub environ : List String
  pub run_command : String → List String → List String → World → (String × Option Error) × World

-- The options of a new bucket.
abbrev pub BucketOption : Type 0
BucketOption = S3Bucket → S3Bucket

abbrev pub with_aws_cli_path : String → BucketOption
with_aws_cli_path path b = record b { aws_cli_path = path }

abbrev pub with_command_factory :
    (String → List String → List String → World → (String × Option Error) × World) → BucketOption
with_command_factory factory b = record b { run_command = factory }

abbrev apply_options : List BucketOption → S3Bucket → S3Bucket
apply_options [] b = b
apply_options (option ∷ options) b = apply_options options (option b)

-- `environ` is `os.Environ()`, and `exec_command` runs a command of the system.
module _ (environ : List String)
    (exec_command : String
      → List String
      → List String
      → World
      → (String × Option Error) × World) where
  abbrev pub new_bucket : String → String → String → String → List BucketOption → S3Bucket
  new_bucket name endpoint key secret options = apply_options options (record {
    aws_cli_path = "aws";
    name = name;
    endpoint = endpoint;
    key = key;
    secret = secret;
    environ = environ;
    run_command = exec_command;
  })

-- `int(math.Min(float64(n)/4.0, 4.0))`
abbrev pub shown_bytes : ℕ → ℕ
shown_bytes n = if ltb (n / 4) 4 then n / 4 else 4

-- The bytes from `i` on.
unfoldable pub obfuscate_from : ℕ → ℕ → String → String
obfuscate_from cutoff i String.[] = ""
obfuscate_from cutoff i (String.◌∷◌ c s) =
    String.◌∷◌ (if ltb 0 cutoff && leb cutoff i then c else char 42 tt)
      (obfuscate_from cutoff (i + 1) s)

unfoldable pub obfuscate : String → String
obfuscate txt = obfuscate_from (size txt - shown_bytes (size txt)) 0 txt

abbrev pub upload_action : String
upload_action = "s3bucket.upload"

module _ (bucket : S3Bucket) where
  abbrev pub bucket_path : String → String
  bucket_path target = "s3://" <> bucket.name <> "/" <> target

  unfoldable pub upload_data : String → String → LogData
  upload_data source target =
      ("cli_path", bucket.aws_cli_path)
      ∷ ("source_path", source)
      ∷ ("bucket_path", bucket_path target)
      ∷ ("endpoint", bucket.endpoint)
      ∷ ("aws_access_key", bucket.key)
      ∷ ("aws_secret_key", obfuscate bucket.secret)
      ∷ []

  unfoldable pub upload_environ : List String
  upload_environ =
      bucket.environ
      ++ ("AWS_ACCESS_KEY_ID=" <> bucket.key) ∷ ("AWS_SECRET_ACCESS_KEY=" <> bucket.secret) ∷ []

  -- From the end of the command on.
  unfoldable pub after_upload : LogData → String × Option Error → Act World (Unit {0})
  after_upload details (output, some e) w = (
    err e,
    log_error upload_action (some e) (with_event "failed" (put_alias "cli_output" output details))
        w,
  )
  after_upload details (output, none) w =
      (ok tt, log_info upload_action (with_event "done" details) w)

  unfoldable pub upload : String → String → Act World (Unit {0})
  upload source target w =
      let details = upload_data source target in
      let w₁ = log_info upload_action (with_event "creating-command" details) w in
      let w₂ = log_info upload_action (with_event "shelling-out" details) w₁ in
      let (outcome, w₃) =
        bucket.run_command bucket.aws_cli_path upload_environ
          ("s3" ∷ "cp" ∷ source ∷ bucket_path target ∷ "--endpoint-url" ∷ bucket.endpoint ∷ [])
          w₂ in
      after_upload (with_event "shelling-out" details) outcome w₃
