-- ===== src/Redis/Repository/Listing.antt =====
-- redis/local_repository.go: the loop over the data directory.
pub mod Count
pub mod Found
use cf_redis_broker.Base.{
  ℕ, String, ◌<>◌, Bool, true, false, eqb, if◌then◌else◌, some, List, [], ◌∷◌, ◌++◌, length, pos,
  itoa, Error, Result, ok, err,
}
use cf_redis_broker.Os.{World, os_read_dir, log_info, log_error}
use cf_redis_broker.Redis.Instance.{Instance}
use cf_redis_broker.Redis.Repository.{LocalRepository, find_by_id, data_directory}

-- What the functions of this file return: instances, and the errors met on the way.
pub record Listing : Type 0 where
  pub instances : List Instance
  pub errs : List Error

abbrev message_only : String → List (String × String)
message_only text = ("message", text) ∷ []

unfoldable pub verbosely : Bool → String → World → World
verbosely verbose text w = if verbose then log_info "all-instances" (message_only text) w else w

plural : ℕ → String
plural n = if eqb n 1 then "instance" else "instances"

module _ (repo : LocalRepository) (verbose : Bool) where
  -- One round: what `find_by_id` returned is filed, and logged.
  unfoldable pub file_result : String → Result Instance → Listing × World → Listing × World
  file_result name (err e) (l, w) = (
    record l { errs = l.errs ++ e ∷ [] },
    log_error "all-instances" (some e)
        (message_only ("Error getting instance details for instance ID: " <> name)) w,
  )
  file_result name (ok found) (l, w) = (
    record l { instances = l.instances ++ found ∷ [] },
    verbosely verbose ("Found shared instance: " <> found.id) w,
  )

  unfoldable pub collect : List String → Listing × World → Listing × World
  collect [] (l, w) = (l, w)
  collect (name ∷ names) (l, w) =
      let (r, w') = find_by_id repo name w in collect names (file_result name r (l, w'))

  unfoldable pub list_names : Result (List String) → World → Listing × World
  unfolding plural
  list_names (err e) w = (
    record { instances = []; errs = e ∷ [] },
    log_error "all-instances" (some e)
        (("message", "Error finding shared instances")
          ∷ ("data-directory", repo.redis_conf.instance_data_directory)
          ∷ [])
        w,
  )
  list_names (ok names) w = collect names (
    record { instances = []; errs = [] },
    verbosely verbose
        (itoa (pos (length names)) <> " shared Redis " <> plural (length names) <> " found") w,
  )

  unfoldable pub announced : World → World
  announced = verbosely verbose (
      "Starting shared instance lookup in data directory: "
      <> repo.redis_conf.instance_data_directory)

  unfoldable pub all_instances_with : World → Listing × World
  all_instances_with w =
      let (r, w') = os_read_dir (data_directory repo) (announced w) in list_names r w'

module _ (repo : LocalRepository) where
  unfoldable pub all_instances_verbose : World → Listing × World
  unfolding all_instances_with
  all_instances_verbose = all_instances_with repo true

  unfoldable pub all_instances : World → Listing × World
  unfolding all_instances_with
  all_instances = all_instances_with repo false

  unfoldable pub instance_count : World → (ℕ × List Error) × World
  unfolding all_instances
  instance_count w = let (l, w') = all_instances w in ((length l.instances, l.errs), w')
