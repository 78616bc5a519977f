-- ===== src/Redis/Repository/Listing/Count.antt =====
-- redis/local_repository.go: what `AllInstances`, `AllInstancesVerbose` and `InstanceCount` return.
use mathlib.Core.List.{append-nil, append_assoc}
use cf_redis_broker.Base.{
  suc, ◌+◌, ◌≡◌, refl, ◌∙◌, ap, String, Bool, false, Option, List, [], ◌∷◌, ◌++◌, arith, length,
  map, Error, Result, ok, err,
}
use cf_redis_broker.Os.{World, Call, os_read_dir}
use cf_redis_broker.Os.Paths.{FilePath}
use cf_redis_broker.Os.Files.{Tree}
use cf_redis_broker.Redis.Instance.{Instance}
use cf_redis_broker.Redis.Repository.{LocalRepository, find_by_id, data_directory}
use cf_redis_broker.Redis.Repository.Reading.{find_by_id_reads}
use cf_redis_broker.Redis.Repository.Listing.{
  Listing, collect, file_result, list_names, verbosely, announced, all_instances_with,
  instance_count,
}

-- The tree and the system's refusals: all that a read depends on.
abbrev pub view : World → Tree × (Call → Option Error)
view w = (w.tree, w.refuses)

-- Logging changes no result.
pub find_by_id-view :
    (repo : LocalRepository) (name : String) (v w : World)
    → view v ≡ view w
    → (find_by_id repo name v).0 ≡ (find_by_id repo name w).0
unfolding find_by_id
find_by_id-view repo name v w same = ground arith

pub read_dir_reads : (p : FilePath) (w : World) → (os_read_dir p w).1 ≡ w
unfolding os_read_dir
read_dir_reads p w = ground arith

pub read_dir-view :
    (p : FilePath) (v w : World) → view v ≡ view w → (os_read_dir p v).0 ≡ (os_read_dir p w).0
unfolding os_read_dir
read_dir-view p v w same = ground arith

view-verbosely :
    (verbose : Bool) (text : String) (w : World) → view (verbosely verbose text w) ≡ view w
unfolding verbosely
view-verbosely verbose text w = ground arith

-- The values, and the errors, of a list of results.
abbrev pub values {ℓ} : {A : Type ℓ} → List (Result A) → List A
values [] = []
values (ok a ∷ rs) = a ∷ values rs
values (err e ∷ rs) = values rs

abbrev pub errors {ℓ} : {A : Type ℓ} → List (Result A) → List Error
errors [] = []
errors (ok a ∷ rs) = errors rs
errors (err e ∷ rs) = e ∷ errors rs

module _ (repo : LocalRepository) (w : World) where
  abbrev pub found : String → Result Instance
  found name = (find_by_id repo name w).0

  -- What a lookup returns, from what the data directory and the instances' files hold.
  abbrev pub listing_of : Result (List String) → Listing
  listing_of (err e) = record { instances = []; errs = e ∷ [] }
  listing_of (ok names) = record {
    instances = values (map found names);
    errs = errors (map found names);
  }

module _ (repo : LocalRepository) (verbose : Bool) (w : World) where
  abbrev filed : Result Instance → Listing → Listing
  filed (ok i) l = record l { instances = l.instances ++ i ∷ [] }
  filed (err e) l = record l { errs = l.errs ++ e ∷ [] }

  file_result-filed :
      (name : String) (r : Result Instance) (l : Listing) (v : World)
      → (file_result repo verbose name r (l, v)).0 ≡ filed r l
  unfolding file_result
  file_result-filed name (ok i) l v = refl
  file_result-filed name (err e) l v = refl

  view-file_result :
      (name : String) (r : Result Instance) (l : Listing) (v : World)
      → view (file_result repo verbose name r (l, v)).1 ≡ view v
  unfolding file_result verbosely
  view-file_result name (ok i) l v = ground arith
  view-file_result name (err e) l v = refl

  collect-cons :
      (name : String) (names : List String) (l : Listing) (v : World)
      → collect repo verbose (name ∷ names) (l, v)
        ≡ collect repo verbose names
            (file_result repo verbose name (find_by_id repo name v).0 (l, v))
  unfolding collect
  collect-cons name names l v = rw find_by_id_reads

  -- The rounds so far, and what is still to be read.
  extended : Listing → List (Result Instance) → Listing
  extended l rs = record { instances = l.instances ++ values rs; errs = l.errs ++ errors rs }

  extended-filed :
      (r : Result Instance) (rs : List (Result Instance)) (l : Listing)
      → extended (filed r l) rs ≡ extended l (r ∷ rs)
  unfolding extended
  extended-filed (ok i) rs l = simp append_assoc
  extended-filed (err e) rs l = simp append_assoc

  collect_lem :
      (names : List String) (l : Listing) (v : World)
      → view v ≡ view w
      → (collect repo verbose names (l, v)).0 ≡ extended l (map (found repo w) names)
  collect_lem [] l v same = unfold extended collect in simp append-nil
  collect_lem (name ∷ names) l v same =
      let r : Result Instance = (find_by_id repo name v).0 in
      rw (collect-cons name names l v) (
        collect_lem names (file_result repo verbose name r (l, v)).0
          (file_result repo verbose name r (l, v)).1 (view-file_result name r l v ∙ same)
        ∙ rw (file_result-filed name r l v, find_by_id-view repo name v w same)
            (extended-filed (found repo w name) (map (found repo w) names) l))

  list_names_lem :
      (r : Result (List String)) (v : World)
      → view v ≡ view w
      → (list_names repo verbose r v).0 ≡ listing_of repo w r
  unfolding list_names
  list_names_lem (err e) v same = refl
  list_names_lem (ok names) v same =
      collect_lem names _ _ (view-verbosely verbose _ v ∙ same) ∙ unfold extended in refl

  -- Verbose or not, a lookup returns the instances whose configuration can be read, in the order
  -- of the directory, and one error for each of the others; where the directory cannot be read,
  -- it returns no instance and that error.
  pub all_instances_with_lem :
      (all_instances_with repo verbose w).0
      ≡ listing_of repo w (os_read_dir (data_directory repo) w).0
  unfolding all_instances_with
  all_instances_with_lem =
      let v : World = announced repo verbose w in
      let same : view v ≡ view w = unfold announced in view-verbosely verbose _ w in
      rw (read_dir_reads (data_directory repo) v, read_dir-view (data_directory repo) v w same)
        (list_names_lem (os_read_dir (data_directory repo) w).0 v same)

  view-collect :
      (names : List String) (l : Listing) (v : World)
      → view (collect repo verbose names (l, v)).1 ≡ view v
  view-collect [] l v = unfold collect in refl
  view-collect (name ∷ names) l v =
      let r : Result Instance = (find_by_id repo name v).0 in
      rw (collect-cons name names l v) (
        view-collect names (file_result repo verbose name r (l, v)).0
          (file_result repo verbose name r (l, v)).1
        ∙ view-file_result name r l v)

  view-list_names :
      (r : Result (List String)) (v : World) → view (list_names repo verbose r v).1 ≡ view v
  unfolding list_names
  view-list_names (err e) v = refl
  view-list_names (ok names) v = view-collect names _ _ ∙ view-verbosely verbose _ v

  -- A lookup changes nothing but the log.
  pub view-all_instances_with : view (all_instances_with repo verbose w).1 ≡ view w
  unfolding all_instances_with
  view-all_instances_with =
      let v : World = announced repo verbose w in
      rw (read_dir_reads (data_directory repo) v) (
        view-list_names (os_read_dir (data_directory repo) v).0 v
        ∙ unfold announced in view-verbosely verbose _ w)

length-values-errors {ℓ} :
    {A : Type ℓ} (rs : List (Result A)) → length (values rs) + length (errors rs) ≡ length rs
length-values-errors [] = refl
length-values-errors (ok a ∷ rs) = omega (arith, length-values-errors rs)
length-values-errors (err e ∷ rs) = omega (arith, length-values-errors rs)

length-map {ℓ κ} :
    {A : Type ℓ} {B : Type κ} (f : A → B) (xs : List A) → length (map f xs) ≡ length xs
length-map f [] = refl
length-map f (x ∷ xs) = ap suc (length-map f xs)

-- Where the data directory can be read, the count of instances and the number of errors make up
-- the number of its names.
pub instance_count_lem :
    (repo : LocalRepository) (w : World) (names : List String)
    → (os_read_dir (data_directory repo) w).0 ≡ ok names
    → (instance_count repo w).0.0 + length (instance_count repo w).0.1 ≡ length names
unfolding instance_count
instance_count_lem repo w names h =
    rw (all_instances_with_lem repo false w, h)
      (length-values-errors (map (found repo w) names) ∙ length-map (found repo w) names)
