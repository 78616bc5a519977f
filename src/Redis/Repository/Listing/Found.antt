-- ===== src/Redis/Repository/Listing/Found.antt =====
-- redis/local_repository.go: the instances of a listing are those that `FindByID` finds.
use cf_redis_broker.Base.{
  ◌≡◌, sym, subst, String, List, [], ◌∷◌, All, arith, map, inl, inr, Result, Result-cases, ok, err,
  Bool,
}
use cf_redis_broker.Os.{World, os_read_dir}
use cf_redis_broker.Redis.Instance.{Instance}
use cf_redis_broker.Redis.Repository.{LocalRepository, find_by_id, data_directory}
use cf_redis_broker.Redis.Repository.Listing.{all_instances_with}
use cf_redis_broker.Redis.Repository.Listing.Count.{
  values, found, listing_of, all_instances_with_lem,
}

module _ (repo : LocalRepository) (w : World) where
  pub find_by_id-id :
      (name : String) (j : Instance) → (find_by_id repo name w).0 ≡ ok j → j.id ≡ name
  unfolding find_by_id
  find_by_id-id name j h = ground arith

  pub find_by_id-host :
      (name : String) (j : Instance)
      → (find_by_id repo name w).0 ≡ ok j
      → record j { host = repo.redis_conf.host } ≡ j
  unfolding find_by_id
  find_by_id-host name j h = ground arith

  -- What holds of all that is found under its own ID holds of all that is listed.
  module _ (P : Instance → Type 0)
      (each : (j : Instance) → (find_by_id repo j.id w).0 ≡ ok j → P j) where
    All-values : (names : List String) → All P (values (map (found repo w) names))
    All-values [] = tt
    All-values (name ∷ names) = elim (Result-cases (found repo w name)) [
      | inl (e, bad) ↦ rw bad (All-values names)
      | inr (j, good) ↦ rw good (
        each j (subst (λ n. (find_by_id repo n w).0 ≡ ok j) (sym (find_by_id-id name j good)) good),
        All-values names,
      )
    ]

    All-listing_of : (r : Result (List String)) → All P (listing_of repo w r).instances
    All-listing_of (err e) = tt
    All-listing_of (ok names) = All-values names

    pub All-all_instances_with :
        (verbose : Bool) → All P (all_instances_with repo verbose w).0.instances
    All-all_instances_with verbose =
        rw (all_instances_with_lem repo verbose w)
          (All-listing_of (os_read_dir (data_directory repo) w).0)
