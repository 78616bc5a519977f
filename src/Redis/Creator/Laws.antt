-- ===== src/Redis/Creator/Laws.antt =====
-- redis/local_instance_creator.go: what `Create` and `Destroy` do, over any repository and any
-- process controller.
use cf_redis_broker.Base.{
  ℕ, ◌≡◌, ◌↔◌, refl, inl, inr, String, false, List, [], ◌∷◌, arith, ℤ, pos, leb_ℤ, Error,
  Result-cases, ok,
}
use cf_redis_broker.Base.Act.{Act, ◌>>◌}
use cf_redis_broker.Redis.Instance.{Instance}
use cf_redis_broker.Redis.Creator.{
  LocalInstanceCreator, start_local_instance, create_new, create_counted, create, destroy,
}

module _ {S : Type 0} (creator : LocalInstanceCreator S) (instance_id : String) where
  open creator use {repository, process_controller, redis_configuration}

  -- The instance that is made from a port and a password.
  abbrev pub new_instance : ℤ → String → Instance
  new_instance port password = record {
    id = instance_id;
    host = redis_configuration.host;
    port = port;
    password = password;
  }

  -- The steps of a creation that succeeded, in their order, all about one instance.
  pub record Creation (s s' : S) : Type 0 where
    pub counted : S
    pub port : ℤ
    pub with_port : S
    pub password : String
    pub with_password : S
    pub set_up : S
    pub started : S
    pub count_ok : (repository.instance_count s).1 ≡ counted
    pub no_errors : (repository.instance_count s).0.1 ≡ []
    pub below_limit :
        leb_ℤ redis_configuration.service_instance_limit (pos (repository.instance_count s).0.0)
        ≡ false
    pub port_ok : creator.find_free_port counted ≡ (ok port, with_port)
    pub password_ok : creator.new_password with_port ≡ (password, with_password)
    pub setup_ok : repository.setup (new_instance port password) with_password ≡ (ok tt, set_up)
    pub start_ok :
        start_local_instance creator (new_instance port password) set_up ≡ (ok tt, started)
    pub unlock_ok : repository.unlock (new_instance port password) started ≡ (ok tt, s')

  counted_steps :
      (n : ℕ) (errs : List Error) (s s' : S)
      → create_counted creator (n, errs) instance_id s ≡ (ok tt, s')
      → (errs ≡ [])
        × (leb_ℤ redis_configuration.service_instance_limit (pos n) ≡ false)
        × (create_new creator instance_id s ≡ (ok tt, s'))
  unfolding create_counted
  counted_steps n [] s s' h = ground arith
  counted_steps n (e ∷ es) s s' h = cc

  -- What follows the choice of a port and of a password.
  run_instance : Instance → Act S (Unit {0})
  run_instance i = do repository.setup i; start_local_instance creator i; repository.unlock i

  port_steps :
      (s s' : S)
      → create_new creator instance_id s ≡ (ok tt, s')
      → (port : ℤ) × (with_port : S) × (creator.find_free_port s ≡ (ok port, with_port))
        × (let (password, next) = creator.new_password with_port in
            run_instance (new_instance port password) next ≡ (ok tt, s'))
  unfolding create_new run_instance
  port_steps s s' h = elim (Result-cases (creator.find_free_port s).0) [
    | inl (e, bad) ↦ absurd (ground arith)
    | inr (port, good) ↦ (port, (creator.find_free_port s).1, ground arith, ground arith)
  ]

  instance_steps :
      (i : Instance) (s s' : S)
      → run_instance i s ≡ (ok tt, s')
      → (set_up : S) × (started : S) × (repository.setup i s ≡ (ok tt, set_up))
        × (start_local_instance creator i set_up ≡ (ok tt, started))
        × (repository.unlock i started ≡ (ok tt, s'))
  unfolding run_instance
  instance_steps i s s' h =
      let set_up : S = (repository.setup i s).1 in
      let started : S = (start_local_instance creator i set_up).1 in
      (set_up, started, ground arith, ground arith, ground arith)

  create_counted_steps :
      (s s' : S)
      → create creator instance_id s ≡ (ok tt, s')
      → ((repository.instance_count s).0.1 ≡ [])
        × (leb_ℤ redis_configuration.service_instance_limit (pos (repository.instance_count s).0.0)
            ≡ false)
        × (create_new creator instance_id (repository.instance_count s).1 ≡ (ok tt, s'))
  unfolding create
  create_counted_steps s s' h = counted_steps _ _ _ s' h

  pub create_steps : (s s' : S) → create creator instance_id s ≡ (ok tt, s') → Creation s s'
  create_steps s s' h =
      let counted : S = (repository.instance_count s).1 in
      let (no_errors, below, made) = create_counted_steps s s' h in
      let (port, with_port, port_ok, rest) = port_steps counted s' made in
      let password : String = (creator.new_password with_port).0 in
      let with_password : S = (creator.new_password with_port).1 in
      let (set_up, started, setup_ok, start_ok, unlock_ok) =
        instance_steps (new_instance port password) with_password s' rest in
      record {
        counted = counted;
        port = port;
        with_port = with_port;
        password = password;
        with_password = with_password;
        set_up = set_up;
        started = started;
        count_ok = refl;
        no_errors = no_errors;
        below_limit = below;
        port_ok = port_ok;
        password_ok = refl;
        setup_ok = setup_ok;
        start_ok = start_ok;
        unlock_ok = unlock_ok;
      }

  -- What a `Destroy` that succeeds has done.
  abbrev pub Destruction : S → S → Type 0
  Destruction s s' =
      (i : Instance) × (s₁ : S) × (s₂ : S) × (s₃ : S) × (repository.find_by_id instance_id s
        ≡ (ok i, s₁))
      × (repository.lock i s₁ ≡ (ok tt, s₂))
      × (process_controller.kill i s₂ ≡ (ok tt, s₃))
      × (repository.delete instance_id s₃ ≡ (ok tt, s'))

  -- `Destroy` succeeds if and only if the instance is found, locked, killed and deleted with
  -- success, in this order, each step in the state that the one before it left.
  pub destroy_iff : (s s' : S) → (destroy creator instance_id s ≡ (ok tt, s')) ↔ Destruction s s'
  unfolding destroy
  destroy_iff s s' = (
    λ h. elim (Result-cases (repository.find_by_id instance_id s).0) [
      | inl (e, bad) ↦ absurd (ground arith)
      | inr (i, found) ↦
          let s₁ : S = (repository.find_by_id instance_id s).1 in
          let s₂ : S = (repository.lock i s₁).1 in
          let s₃ : S = (process_controller.kill i s₂).1 in
          (i, s₁, s₂, s₃, ground arith, ground arith, ground arith, ground arith)
    ],
    λ (i, s₁, s₂, s₃, found, locked, killed, deleted). ground arith,
  )
