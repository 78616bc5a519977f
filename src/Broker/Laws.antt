-- ===== src/Broker/Laws.antt =====
-- broker/broker.go: what the broker promises, over any creators and binders.
use cf_redis_broker.Base.{
  ◌≡◌, ◌≢◌, ◌↔◌, refl, ◌⊎◌, inl, inr, String, Bool, true, false, Bool-cases, none, some,
  Option-cases, List, [], ◌∷◌, ◌++◌, arith, All, ◌&&◌, ◌==◌, eq_iff, instance_does_not_exist, ok,
  err, if◌then◌else◌,
}
use cf_redis_broker.Base.Act.{Act}
use cf_redis_broker.Brokerconfig.{Config, shared_enabled}
use cf_redis_broker.Broker.{
  InstanceCreator, InstanceBinder, RedisServiceBroker, value_of, lookup, first_with, creator_with,
  binder_with, create_with_plan, create_with_key, provision, deprovision, bind, unbind, plan_key,
}
use cf_redis_broker.Broker.Catalog.{plans}
use cf_redis_broker.Redis.Instance.{InstanceCredentials}

module _ {S I : Type 0} (instance_exists : I → Act S Bool) where
  -- No entry has the instance.
  abbrev pub NoneHas : S → List (String × I) → Type 0
  NoneHas s = All (λ e. value_of (instance_exists e.1 s).0 ≡ false)

  -- Asking one of the entries for the instance changes nothing.
  abbrev pub OnlyReads : List (String × I) → Type 0
  OnlyReads = All (λ e. (s : S) → (instance_exists e.1 s).1 ≡ s)

  first_with-nil : (s : S) → first_with instance_exists [] s ≡ (none, s)
  unfolding first_with
  first_with-nil s = refl

  first_with-cons :
      (k : String) (i : I) (l : List (String × I)) (s : S)
      → (instance_exists i s).1 ≡ s
      → first_with instance_exists ((k, i) ∷ l) s
        ≡ (if value_of (instance_exists i s).0 then (some i, s) else first_with instance_exists l s)
  unfolding first_with
  first_with-cons k i l s reads = ground arith

  pub first_with-none :
      (l : List (String × I)) (s : S)
      → OnlyReads l
      → NoneHas s l
      → first_with instance_exists l s ≡ (none, s)
  first_with-none [] s rs h = first_with-nil s
  first_with-none ((k, i) ∷ l) s (r, rs) (hi, h) =
      rw (first_with-cons k i l s (r s), hi) (first_with-none l s rs h)

  -- Where asking the entries of a map for an instance changes nothing, an entry that has it is
  -- found if none of those in front of it in the map's order has it.
  pub first_with_unique :
      (before after : List (String × I)) (k : String) (i : I) (s : S)
      → OnlyReads (before ++ (k, i) ∷ after)
      → NoneHas s before
      → value_of (instance_exists i s).0 ≡ true
      → first_with instance_exists (before ++ (k, i) ∷ after) s ≡ (some i, s)
  first_with_unique [] after k i s (r, rs) h has = rw (first_with-cons k i after s (r s), has)
  first_with_unique ((j, x) ∷ l) after k i s (r, rs) (hx, h) has =
      rw (first_with-cons j x (l ++ (k, i) ∷ after) s (r s), hx)
        (first_with_unique l after k i s rs h has)

plan_key_cases :
    (plan_id : String) (config : Config)
    → (plan_key plan_id (plans config) ≡ "")
      ⊎ ((plan_key plan_id (plans config) ≡ "shared")
          × (shared_enabled config ≡ true)
          × (plan_id ≡ config.redis_configuration.shared_vm_plan_id))
unfolding plan_key plans
plan_key_cases plan_id config =
    elim (Bool-cases
      (shared_enabled config && config.redis_configuration.shared_vm_plan_id == plan_id)) [
        | inl e ↦ inr (
          ground arith,
          ground arith,
          ground (arith, eq_iff config.redis_configuration.shared_vm_plan_id plan_id),
        )
        | inr e ↦ inl (ground arith)
      ]

plan_key_shared :
    (plan_id : String) (config : Config)
    → shared_enabled config ≡ true
    → plan_id ≡ config.redis_configuration.shared_vm_plan_id
    → plan_key plan_id (plans config) ≡ "shared"
unfolding plan_key plans
plan_key_shared plan_id config on same =
    ground (arith, eq_iff config.redis_configuration.shared_vm_plan_id plan_id)

module _ {S : Type 0} (broker : RedisServiceBroker S) (instance_id : String) where
  abbrev pub creator_probe : InstanceCreator S → Act S Bool
  creator_probe c = c.instance_exists instance_id

  abbrev pub binder_probe : InstanceBinder S → Act S Bool
  binder_probe b = b.instance_exists instance_id

  -- For an instance that no creator and no binder has, where asking them changes nothing,
  -- `Deprovision`, `Bind` and `Unbind` return that it does not exist, and change nothing.
  pub unknown_instance :
      (binding_id : String) (s : S)
      → OnlyReads creator_probe broker.instance_creators
      → OnlyReads binder_probe broker.instance_binders
      → NoneHas creator_probe s broker.instance_creators
      → NoneHas binder_probe s broker.instance_binders
      → (deprovision broker instance_id s ≡ (err instance_does_not_exist, s))
        × (bind broker instance_id binding_id s ≡ (err instance_does_not_exist, s))
        × (unbind broker instance_id binding_id s ≡ (err instance_does_not_exist, s))
  unfolding deprovision bind unbind
  unknown_instance binding_id s rc rb hc hb =
      let c : creator_with broker instance_id s ≡ (none, s) =
        unfold creator_with in first_with-none creator_probe broker.instance_creators s rc hc in
      let b : binder_with broker instance_id s ≡ (none, s) =
        unfold binder_with in first_with-none binder_probe broker.instance_binders s rb hb in
      (ground arith, ground arith, ground arith)

  create_with_no_key : (s s' : S) → create_with_key broker instance_id "" s ≢ (ok tt, s')
  unfolding create_with_key
  create_with_no_key s s' h = cc

  create_with_shared_key :
      (s s' : S)
      → (create_with_key broker instance_id "shared" s ≡ (ok tt, s')) ↔ (
          (c : InstanceCreator S) × (lookup "shared" broker.instance_creators ≡ some c)
          × (c.create instance_id s ≡ (ok tt, s')))
  unfolding create_with_key
  create_with_shared_key s s' = (
    λ h. elim (Option-cases (lookup "shared" broker.instance_creators)) [
      | inl n ↦ absurd (ground arith)
      | inr (c, q) ↦ (c, q, ground arith)
    ],
    λ h. ground arith,
  )

  provision_steps :
      (plan_id : String) (s s' : S)
      → (provision broker instance_id plan_id s ≡ (ok tt, s')) ↔ (
          ((creator_with broker instance_id s).0 ≡ none)
          × (plan_id ≢ "")
          × (create_with_key broker instance_id
                (plan_key plan_id (plans broker.config))
                (creator_with broker instance_id s).1
              ≡ (ok tt, s')))
  unfolding provision create_with_plan
  provision_steps plan_id s s' = (
    λ h. (ground arith, ground (arith, eq_iff plan_id ""), ground arith),
    λ h. ground (arith, eq_iff plan_id ""),
  )

  -- What `Provision` has to find before it creates an instance, and the creation.
  abbrev pub Provisions : String → S → S → Type 0
  Provisions plan_id s s' =
      ((creator_with broker instance_id s).0 ≡ none)
      × (shared_enabled broker.config ≡ true)
      × (plan_id ≡ broker.config.redis_configuration.shared_vm_plan_id)
      × (plan_id ≢ "")
      × (c : InstanceCreator S) × (lookup "shared" broker.instance_creators ≡ some c)
      × (c.create instance_id (creator_with broker instance_id s).1 ≡ (ok tt, s'))

  -- `Provision` succeeds if and only if no creator has the instance, shared instances are
  -- enabled, the plan's ID is that of the shared plan and not empty, and the creator of the
  -- shared plan is there and creates the instance.
  pub provision_iff :
      (plan_id : String) (s s' : S)
      → (provision broker instance_id plan_id s ≡ (ok tt, s')) ↔ Provisions plan_id s s'
  provision_iff plan_id s s' = (
    λ h.
        let (fresh, given, created) = (provision_steps plan_id s s').0 h in
        elim (plan_key_cases plan_id broker.config) [
          | inl key ↦ absurd (create_with_no_key _ s' (rw key at created))
          | inr (key, on, same) ↦
              let (c, q, run) = (create_with_shared_key _ s').0 (rw key at created) in
              (fresh, on, same, given, c, q, run)
        ],
    λ (fresh, on, same, given, c, q, run). (provision_steps plan_id s s').1 (
      fresh,
      given,
      rw (plan_key_shared plan_id broker.config on same)
          ((create_with_shared_key _ s').1 (c, q, run)),
    ),
  )

module _ {S I : Type 0} (instance_exists : I → Act S Bool) where
  pub first_with_head :
      (key : String) (i : I) (rest : List (String × I)) (s s' : S)
      → instance_exists i s ≡ (ok true, s')
      → first_with instance_exists ((key, i) ∷ rest) s ≡ (some i, s')
  unfolding first_with
  first_with_head key i rest s s' has = ground arith

module _ {S : Type 0} (broker : RedisServiceBroker S) (instance_id : String) where
  pub binder_first :
      (key : String) (b : InstanceBinder S) (rest : List (String × InstanceBinder S)) (s s' : S)
      → broker.instance_binders ≡ (key, b) ∷ rest
      → b.instance_exists instance_id s ≡ (ok true, s')
      → binder_with broker instance_id s ≡ (some b, s')
  unfolding binder_with
  binder_first key b rest s s' at has = rw at (
      first_with_head (λ (c : InstanceBinder S). c.instance_exists instance_id) key b rest s s' has)

  pub creator_first :
      (key : String) (c : InstanceCreator S) (rest : List (String × InstanceCreator S)) (s s' : S)
      → broker.instance_creators ≡ (key, c) ∷ rest
      → c.instance_exists instance_id s ≡ (ok true, s')
      → creator_with broker instance_id s ≡ (some c, s')
  unfolding creator_with
  creator_first key c rest s s' at has = rw at (
      first_with_head (λ (c : InstanceCreator S). c.instance_exists instance_id) key c rest s s'
        has)

  pub bind_with :
      (binding_id : String) (s s₁ s₂ : S) (b : InstanceBinder S) (c : InstanceCredentials)
      → binder_with broker instance_id s ≡ (some b, s₁)
      → b.bind instance_id binding_id s₁ ≡ (ok c, s₂)
      → bind broker instance_id binding_id s ≡ (ok (record { credentials = some c }), s₂)
  unfolding bind
  bind_with binding_id s s₁ s₂ b c found bound = ground arith
