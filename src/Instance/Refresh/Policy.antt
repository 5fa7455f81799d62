-- ===== src/Instance/Refresh/Policy.antt =====
-- What a refresh leaves of a VM's policy, and what it sets.
use io_thread_controller.Base.{
  ℕ, ◌≡◌, refl, ap, ◌∙◌, Bool, true, false, Option, none, some, ◌⊎◌, inl, inr, String, is_some,
  if_keeps, elim_keeps, ltb,
}
use io_thread_controller.Float.{Float}
use io_thread_controller.Instance.{InstancePerfSample, InstanceStatus, CpuSample, CgroupSample}
use io_thread_controller.Instance.Rates.{
  Counters, update_perf_rates, counters, rate_since, set_rates, set_baselines, elapsed_since,
}
use io_thread_controller.Instance.Tasks.{update_worker_utilisation}
use io_thread_controller.Instance.Refresh.{
  ThreadPoolSnapshot, Probe, refresh_state, refresh_answer, apply_thread_pool_snapshot,
  store_snapshot, classify, copy_snapshot, update_utilisation, update_from_tasks, wall_ticks,
  push_rolling, keep_samples, backend_util, snapshot_io_count,
}

-- The fields that the controller decides by, and that no sample changes.
pub record Policy : Type 0 where
  pub classified : Option Bool
  pub cooldown : Option ℕ
  pub sticky : Bool
  pub threads : ℕ
  pub vcpus : ℕ
  pub is_alive : Bool

abbrev pub policy : {F : Type 0} → InstanceStatus F → Policy
policy s = record {
  classified = s.ownership_classification;
  cooldown = s.cooldown_until;
  sticky = s.manual_scaling_sticky;
  threads = s.thread_count;
  vcpus = s.vcpu_count;
  is_alive = s.alive;
}

module _ {F : Type 0} where
  policy-rate_since :
      (previous : Option ℕ) (k : Counters) (now : ℕ) (s : InstanceStatus F)
      → policy (rate_since previous k now s) ≡ policy s
  unfolding rate_since set_rates
  policy-rate_since none k now s = refl
  policy-rate_since (some previous) k now s =
      if_keeps (λ (s' : InstanceStatus F). policy s' ≡ policy s)
        (ltb 0 (elapsed_since now previous)) _ _ (λ _. refl) (λ _. refl)

  policy-update_perf_rates :
      (s : InstanceStatus F) (perf : Option InstancePerfSample) (now : ℕ)
      → policy (update_perf_rates s perf now) ≡ policy s
  unfolding update_perf_rates set_baselines
  policy-update_perf_rates s perf now = policy-rate_since s.previous_perf_time (counters perf) now s

module _ {F W : Type 0} (fl : Float F) (ticks : F) (probe : Probe F W) where
  policy-update_from_tasks :
      (previous current : Option CpuSample) (s : InstanceStatus F)
      → policy (update_from_tasks fl ticks probe previous current s) ≡ policy s
  unfolding update_from_tasks update_worker_utilisation
  policy-update_from_tasks none current s = refl
  policy-update_from_tasks (some previous) none s = refl
  policy-update_from_tasks (some previous) (some current) s =
      elim_keeps (λ (s' : InstanceStatus F). policy s' ≡ policy s)
        (wall_ticks fl ticks probe previous current) _ _ (λ _. refl) (λ passed _. refl)

  policy-update_utilisation :
      (util : Option F) (cpu : Option CpuSample) (s : InstanceStatus F)
      → policy (update_utilisation fl ticks probe util cpu s) ≡ policy s
  unfolding update_utilisation
  policy-update_utilisation (some util) cpu s = refl
  policy-update_utilisation none cpu s = policy-update_from_tasks s.last_cpu_sample cpu s

  policy-push_rolling :
      (util : Option F) (cpu : Option CpuSample) (now io threads : ℕ) (s : InstanceStatus F)
      → policy (push_rolling fl ticks probe util cpu now io threads s) ≡ policy s
  unfolding push_rolling
  policy-push_rolling (some util) cpu now io threads s = refl
  policy-push_rolling none (some current) now io threads s = refl
  policy-push_rolling none none now io threads s = refl

  policy-store_snapshot :
      (id : String) (snapshot : ThreadPoolSnapshot F) (cpu : Option CpuSample)
      (cgroup : Option (CgroupSample F)) (now : ℕ) (s : InstanceStatus F)
      → policy (store_snapshot fl ticks probe id snapshot cpu cgroup now s)
        ≡ record (policy (classify fl ticks probe id snapshot s)) {
          threads = snapshot.thread_count;
          vcpus = snapshot.vcpu_count;
          is_alive = true;
        }
  unfolding store_snapshot keep_samples copy_snapshot
  policy-store_snapshot id snapshot cpu cgroup now s =
      policy-push_rolling (backend_util fl ticks probe snapshot) cpu now
        (snapshot_io_count fl ticks probe snapshot) snapshot.thread_count _
      ∙ policy-update_utilisation (backend_util fl ticks probe snapshot) cpu _
      ∙ ap
          (λ (p : Policy). record p {
            threads = snapshot.thread_count;
            vcpus = snapshot.vcpu_count;
            is_alive = true;
          })
          (policy-update_perf_rates (classify fl ticks probe id snapshot s) snapshot.perf now)

  -- The classification of a VM: the one that it has, or else the client's judgement of its first pool.
  unfoldable pub first_judgement : String → ThreadPoolSnapshot F → Option Bool → Option Bool
  first_judgement id snapshot none =
      some (probe.initial_pool_is_managed id snapshot.thread_count snapshot.vcpu_count)
  first_judgement id snapshot (some managed) = some managed

  -- What a refresh makes of a policy, by the answer of the client.
  unfoldable pub refreshed : String → Option (ThreadPoolSnapshot F) → Policy → Policy
  refreshed id none p = record p { is_alive = false }
  refreshed id (some snapshot) p = record p {
    classified = first_judgement id snapshot p.classified;
    threads = snapshot.thread_count;
    vcpus = snapshot.vcpu_count;
    is_alive = true;
  }

  classified-judgement :
      (id : String) (snapshot : ThreadPoolSnapshot F) (own : Option Bool)
      → (elim own as (λ _. Option Bool) [
        | none ↦ some (probe.initial_pool_is_managed id snapshot.thread_count snapshot.vcpu_count)
        | some managed ↦ some managed
      ])
        ≡ first_judgement id snapshot own
  unfolding first_judgement
  classified-judgement id snapshot none = refl
  classified-judgement id snapshot (some managed) = refl

  -- `s'` is the status after a refresh of `s`, which succeeds or not.
  unfoldable pub IsRefresh : String → InstanceStatus F → W → Bool × InstanceStatus F × W → Type 0
  IsRefresh id s w (succeeded, s', w') =
      let answer = (probe.get_thread_pool_snapshot id w).0 in
      (succeeded ≡ is_some answer) × (policy s' ≡ refreshed id answer (policy s))

  refresh_answer-policy :
      (id : String) (refresh_cgroup : Bool) (s : InstanceStatus F)
      (answer : Option (ThreadPoolSnapshot F) × W)
      → let (succeeded, s', w') = refresh_answer fl ticks probe id refresh_cgroup s answer in
        (succeeded ≡ is_some answer.0) × (policy s' ≡ refreshed id answer.0 (policy s))
  unfolding refresh_answer refreshed apply_thread_pool_snapshot classify
  refresh_answer-policy id refresh_cgroup s (none, w) = (refl, refl)
  refresh_answer-policy id refresh_cgroup s (some snapshot, w) = (
    refl,
    policy-store_snapshot id snapshot _ _ _ s
        ∙ ap
            (λ own. record (policy s) {
              classified = own;
              threads = snapshot.thread_count;
              vcpus = snapshot.vcpu_count;
              is_alive = true;
            })
            (classified-judgement id snapshot s.ownership_classification),
  )

  -- A refresh succeeds exactly when the client gives a snapshot. Then the VM is alive with the
  -- snapshot's size and vCPUs, and keeps its classification, if it has one, or else gets the client's
  -- judgement of the pool of the snapshot. Else the VM is marked dead and keeps the three. Either way
  -- its cooldown and its manual override stay.
  pub refresh_state-IsRefresh :
      (id : String) (refresh_cgroup : Bool) (s : InstanceStatus F) (w : W)
      → IsRefresh id s w (refresh_state fl ticks probe id refresh_cgroup s w)
  unfolding refresh_state IsRefresh
  refresh_state-IsRefresh id refresh_cgroup s w =
      refresh_answer-policy id refresh_cgroup s (probe.get_thread_pool_snapshot id w)

  first_cases :
      (id : String) (snapshot : ThreadPoolSnapshot F) (own : Option Bool)
      → (own ≡ none) ⊎ (first_judgement id snapshot own ≡ own)
  unfolding first_judgement
  first_cases id snapshot none = inl refl
  first_cases id snapshot (some managed) = inr refl

  judgement_cases :
      (id : String) (answer : Option (ThreadPoolSnapshot F)) (p : Policy)
      → (p.classified ≡ none) ⊎ ((refreshed id answer p).classified ≡ p.classified)
  unfolding refreshed
  judgement_cases id none p = inr refl
  judgement_cases id (some snapshot) p = first_cases id snapshot p.classified

  -- A refresh judges only a VM that has no classification.
  pub refresh_state-classified :
      (id : String) (refresh_cgroup : Bool) (s : InstanceStatus F) (w : W)
      → let (succeeded, s', w') = refresh_state fl ticks probe id refresh_cgroup s w in
        (s.ownership_classification ≡ none)
        ⊎ (s'.ownership_classification ≡ s.ownership_classification)
  unfolding IsRefresh
  refresh_state-classified id refresh_cgroup s w =
      let by =
        ap (λ (p : Policy). p.classified) (refresh_state-IsRefresh id refresh_cgroup s w).1 in
      elim (judgement_cases id (probe.get_thread_pool_snapshot id w).0 (policy s)) [
        | inl unclassified ↦ inl unclassified
        | inr same ↦ inr (by ∙ same)
      ]
