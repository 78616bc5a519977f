-- ===== src/Redis/Repository/Removing.antt =====
-- redis/local_repository.go: what `Delete` leaves on the disk.
use cf_redis_broker.Base.{
  true, ◌∷◌, ◌≡◌, refl, sym, ap, false, pair_path, ◌∙◌, ◌⊎◌, inl, inr, Bool-cases, String, Option,
  none, arith, ok, if◌then◌else◌, ◌||◌,
}
use cf_redis_broker.Os.{World, os_remove, os_remove_all, stat, node_at}
use cf_redis_broker.Os.Paths.{FilePath, same, same_iff, is_under, is_under_self, IsName, join_name}
use cf_redis_broker.Os.Files.{Node, Tree, lookup, erase_under, lookup-erase, lookup-erase_under}
use cf_redis_broker.Os.Laws.{remove_all_ok, remove_effect, node_at-none}
use cf_redis_broker.Redis.Repository.{
  LocalRepository, instance_base_dir, instance_log_dir, instance_pid_file_path, delete,
  deprovisioned, instance_exists, data_directory,
}
use cf_redis_broker.Redis.Repository.Reading.{instance_exists_reads, instance_exists_lem, is_there}

module _ (repo : LocalRepository) (id : String) where
  -- What is at a path after the three removals.
  abbrev pub kept : FilePath → World → Option Node
  kept q w =
      if is_under (instance_base_dir repo id) q || is_under (instance_log_dir repo id) q
      then none
      else lookup q w.tree

  delete_steps :
      (w w' : World)
      → delete repo id w ≡ (ok tt, w')
      → (w₁ : World) × (w₂ : World) × (os_remove_all (instance_base_dir repo id) w ≡ (ok tt, w₁))
        × (os_remove_all (instance_log_dir repo id) w₁ ≡ (ok tt, w₂))
        × (w'.tree ≡ (os_remove (instance_pid_file_path repo id) w₂).1.tree)
        × (w'.refuses ≡ (os_remove (instance_pid_file_path repo id) w₂).1.refuses)
  unfolding delete deprovisioned
  delete_steps w w' h =
      let w₁ : World = (os_remove_all (instance_base_dir repo id) w).1 in
      let w₂ : World = (os_remove_all (instance_log_dir repo id) w₁).1 in
      (w₁, w₂, ground arith, ground arith, ground arith, ground arith)

  kept_after :
      (q : FilePath) (w w₁ w₂ : World)
      → w₁ ≡ record w { tree = erase_under (instance_base_dir repo id) w.tree }
      → w₂ ≡ record w₁ { tree = erase_under (instance_log_dir repo id) w₁.tree }
      → lookup q w₂.tree ≡ kept q w
  kept_after q w w₁ w₂ e₁ e₂ =
      ap (λ (v : World). lookup q v.tree) e₂
      ∙ lookup-erase_under (instance_log_dir repo id) q w₁.tree
      ∙ rw
          (
            ap (λ (v : World). lookup q v.tree) e₁,
            lookup-erase_under (instance_base_dir repo id) q w.tree,
          )
          (ground arith)

  after_pidfile :
      (q : FilePath) (w₂ : World)
      → let t : Tree = (os_remove (instance_pid_file_path repo id) w₂).1.tree in
        (lookup q t ≡ lookup q w₂.tree)
        ⊎ ((q ≡ instance_pid_file_path repo id) × (lookup q t ≡ none))
  after_pidfile q w₂ = elim (remove_effect (instance_pid_file_path repo id) w₂) [
    | inl e ↦ inl (ap (λ (v : World). lookup q v.tree) e)
    | inr e ↦
        let gone : _ =
          ap (λ (v : World). lookup q v.tree) e
          ∙ lookup-erase (instance_pid_file_path repo id) q w₂.tree in
        elim (Bool-cases (same (instance_pid_file_path repo id) q)) [
          | inl s ↦ inr (sym ((same_iff (instance_pid_file_path repo id) q).0 s), gone ∙ rw s)
          | inr s ↦ inl (gone ∙ rw s)
        ]
  ]

  -- After a `Delete` that succeeds: nothing is left at or below the instance's two directories,
  -- and any other path is as it was; or the path is the instance's pidfile and nothing is there.
  pub lookup-delete :
      (q : FilePath) (w w' : World)
      → delete repo id w ≡ (ok tt, w')
      → (lookup q w'.tree ≡ kept q w)
        ⊎ ((q ≡ instance_pid_file_path repo id) × (lookup q w'.tree ≡ none))
  lookup-delete q w w' h =
      let (w₁, w₂, base, log, tree, refuses) = delete_steps w w' h in
      let p : FilePath = instance_pid_file_path repo id in
      let e₁ : w₁ ≡ record w { tree = erase_under (instance_base_dir repo id) w.tree } =
        remove_all_ok (instance_base_dir repo id) w w₁ base in
      let e₂ : w₂ ≡ record w₁ { tree = erase_under (instance_log_dir repo id) w₁.tree } =
        remove_all_ok (instance_log_dir repo id) w₁ w₂ log in
      elim (after_pidfile q w₂) [
        | inl e ↦ inl (ap (lookup q) tree ∙ e ∙ kept_after q w w₁ w₂ e₁ e₂)
        | inr (at, gone) ↦ inr (at, ap (lookup q) tree ∙ gone)
      ]

  pub below_gone :
      (q : FilePath) (w w' : World)
      → is_under (instance_base_dir repo id) q ≡ true
      → delete repo id w ≡ (ok tt, w')
      → lookup q w'.tree ≡ none
  below_gone q w w' below h = elim (lookup-delete q w w' h) [
    | inl e ↦ e ∙ rw below refl
    | inr (at, gone) ↦ gone
  ]

  -- After a `Delete` that succeeds, where the ID is a plain name and the system lets
  -- `InstanceExists` look, the instance does not exist, and looking changes nothing.
  pub instance_exists-delete :
      (w w' : World)
      → IsName id
      → w'.refuses (stat (instance_base_dir repo id)) ≡ none
      → delete repo id w ≡ (ok tt, w')
      → instance_exists repo id w' ≡ (ok false, w')
  instance_exists-delete w w' name free h =
      let at : instance_base_dir repo id ≡ id ∷ data_directory repo =
        join_name (data_directory repo) id name in
      let gone : node_at (instance_base_dir repo id) w'.tree ≡ none = rw at (
        node_at-none id (data_directory repo) w'.tree (
          rw (sym at) (
            below_gone (instance_base_dir repo id) w w' (is_under_self (instance_base_dir repo id))
              h))) in
      pair_path (instance_exists_lem repo id w' free ∙ ap (λ n. ok (is_there n)) gone)
        (instance_exists_reads repo id w')
