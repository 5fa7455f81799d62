-- ===== src/Controller/Tick/Soundness.antt =====
-- A tick keeps the registry and the inventory in agreement, and stops only when the disk or
-- the encoding of the registry does.
use io_thread_controller.Base.{
  ℕ, ◌+◌, ◌%◌, ◌≡◌, refl, ap, ◌∙◌, Bool, true, false, ◌||◌, Option, none, some, ◌⊎◌, inl, inr, List,
  [], ◌∷◌, String, arith,
}
use io_thread_controller.Base.Sorting.{Distinct}
use io_thread_controller.Base.Table.{keys, contains_id, same_id}
use io_thread_controller.Engines.{EngineTickContext}
use io_thread_controller.State.{
  io, serde_json, already_classified, overlap, ok, VmOwnership, validate, Codec, Disk, VmStateStore,
  save, classification,
}
use io_thread_controller.Instance.{InstanceStatus}
use io_thread_controller.Instance.Refresh.{refresh_state}
use io_thread_controller.Instance.Refresh.Policy.{refresh_state-classified}
use io_thread_controller.Controller.{Controller}
use io_thread_controller.Controller.HostCpu.{CpuTime}
use io_thread_controller.Controller.Sound.{
  Agrees, Follows, IsTracked, remove-IsTracked, update-IsTracked,
}
use io_thread_controller.Controller.Registry.{
  RegistryError, ownership_changed, state, Progress, going, stopped, saved, finish_persist,
  persist_all, persist_new_classifications,
}
use io_thread_controller.Controller.Registry.Agreement.{AllRecorded, persist_all-AllRecorded}
use io_thread_controller.Controller.Actuation.Safety.{Steps}
use io_thread_controller.Controller.Plan.{act_on, plan}
use io_thread_controller.Controller.Plan.Limits.{apply_plan_keeps}
use io_thread_controller.Controller.Tick.{
  Environment, sample_host, refresh_all, drop_failed, tick_context, evaluate_and_act, after_persist,
  refresh_and_act, tick,
}

-- The inventory follows a registry that classifies no VM both ways.
unfoldable pub IsSound : {F E : Type 0} → Controller F E → Type 0
IsSound c = IsTracked c.vm_ownership c.instances × (validate c.vm_ownership ≡ ok tt)

-- No error, or one of a call on the disk or of the encoding of the registry.
unfoldable pub IsDiskError : Option RegistryError → Type 0
IsDiskError none = Unit
IsDiskError (some (ownership_changed id)) = ⊥
IsDiskError (some (state (io message))) = Unit
IsDiskError (some (state serde_json)) = Unit
IsDiskError (some (state (already_classified id))) = ⊥
IsDiskError (some (state overlap)) = ⊥

module _ {D : Type 0} (fs : Disk D) (json : Codec) (store : VmStateStore) where
  -- A valid registry is not refused.
  save-IsDiskError :
      (own : VmOwnership) (d : D)
      → validate own ≡ ok tt
      → IsDiskError (saved fs json store (save fs json store own d)).0
  unfolding save saved IsDiskError
  save-IsDiskError own d valid = ground (arith, valid)

  finish_persist-IsDiskError :
      (own : VmOwnership) (changed : Bool) (d : D)
      → validate own ≡ ok tt
      → IsDiskError (finish_persist fs json store own (going changed) d).0
  unfolding finish_persist IsDiskError
  finish_persist-IsDiskError own false d valid = tt
  finish_persist-IsDiskError own true d valid = save-IsDiskError own d valid

  -- The error and the controller after the persistence.
  persisted :
      {F E : Type 0} (c : Controller F E) (d : D) (r : VmOwnership × Progress)
      → validate c.vm_ownership ≡ ok tt
      → Distinct (keys c.instances)
      → AllRecorded c.vm_ownership c.instances r
      → IsDiskError (finish_persist fs json store r.0 r.1 d).0
        × IsSound (record c { vm_ownership = r.0 })
  unfolding AllRecorded IsSound IsTracked
  persisted c d (own, stopped e) valid distinct held = absurd held
  persisted c d (own, going changed) valid distinct (all, kept, same) =
      (finish_persist-IsDiskError own changed d (same ∙ valid), ((all, distinct), same ∙ valid))

  persist-IsSound :
      {F E : Type 0} (c : Controller F E) (d : D)
      → IsSound c
      → let (error, c', d') = persist_new_classifications fs json store c c.instances d in
        IsDiskError error × IsSound c'
  unfolding persist_new_classifications IsSound IsTracked
  persist-IsSound c d ((all, distinct), valid) =
      persisted c d (persist_all c.vm_ownership false c.instances) valid distinct
        (persist_all-AllRecorded c.vm_ownership false c.instances (all, distinct))

-- A refresh makes no judgement of a VM that the registry has.
Agrees-judgement :
    (known own own' : Option Bool)
    → Agrees known own
    → (own ≡ none) ⊎ (own' ≡ own)
    → Agrees known own'
unfolding Agrees
Agrees-judgement none own own' agrees kept = tt
Agrees-judgement (some managed) own own' agrees (inl unclassified) =
    absurd (ground (arith, agrees, unclassified))
Agrees-judgement (some managed) own own' agrees (inr same) = same ∙ agrees

module _ {F E W D : Type 0} (env : Environment F E W D) where
  contains_id-refresh_all :
      (j : String) (refresh_cgroup : Bool) (vms : List (String × InstanceStatus F)) (w : W)
      → contains_id j (keys (refresh_all env refresh_cgroup vms w).0) ≡ contains_id j (keys vms)
  unfolding refresh_all contains_id
  contains_id-refresh_all j refresh_cgroup [] w = refl
  contains_id-refresh_all j refresh_cgroup (vm ∷ vms) w =
      ap (λ held. same_id vm.0 j || held) (contains_id-refresh_all j refresh_cgroup vms _)

  refresh_all-IsTracked :
      (own : VmOwnership) (refresh_cgroup : Bool) (vms : List (String × InstanceStatus F)) (w : W)
      → IsTracked own vms
      → IsTracked own (refresh_all env refresh_cgroup vms w).0
  unfolding refresh_all IsTracked Follows Distinct
  refresh_all-IsTracked own refresh_cgroup [] w tracked = tracked
  refresh_all-IsTracked own refresh_cgroup (vm ∷ vms) w ((head, tail), (absent, distinct)) =
      let (done, s', w') = refresh_state env.fl env.ticks env.probe vm.0 refresh_cgroup vm.1 w in
      let (all, apart) = refresh_all-IsTracked own refresh_cgroup vms w' (tail, distinct) in
      (
        (
          Agrees-judgement (classification own vm.0) vm.1.ownership_classification _ head
              (refresh_state-classified env.fl env.ticks env.probe vm.0 refresh_cgroup vm.1 w),
          all,
        ),
        (contains_id-refresh_all vm.0 refresh_cgroup vms w' ∙ absent, apart),
      )

  drop_failed-IsSound :
      (failed : List String) (c : Controller F E) → IsSound c → IsSound (drop_failed env failed c)
  unfolding drop_failed IsSound
  drop_failed-IsSound [] c sound = sound
  drop_failed-IsSound (id ∷ rest) c (tracked, valid) =
      drop_failed-IsSound rest _ (remove-IsTracked c.vm_ownership c.instances id tracked, valid)

  sound_steps : Steps env.world (λ (_ : Bool) (c : Controller F E) (w : W). IsSound c)
  unfolding IsSound
  sound_steps = record {
    read_clock = λ b c w sound. sound;
    tell_engine = λ b c e w sound. sound;
    cool_dry = λ c id status until w found (tracked, valid).
        (update-IsTracked c.vm_ownership c.instances id status _ found refl tracked, valid);
    call_failed = λ c id status t error w found permitted live e sound. sound;
    call_accepted = λ c id status t until w found permitted live e (tracked, valid).
        (update-IsTracked c.vm_ownership c.instances id status _ found refl tracked, valid);
  }

  evaluate_and_act-IsSound :
      (c : Controller F E) (context : EngineTickContext F) (w : W)
      → IsSound c
      → IsSound (evaluate_and_act env c context w).0
  unfolding evaluate_and_act act_on IsSound
  evaluate_and_act-IsSound c context w sound =
      let (decisions, engine) = env.eng.evaluate_fleet c.engine c.instances context in
      apply_plan_keeps env.fl env.eng env.world c.cfg.max_instances_adjusted_per_poll
        (λ _ c w. IsSound c) (λ _ _. sound_steps) (plan c.instances decisions)
        (0, record c { engine = engine }, w) sound

  after_persist-IsSound :
      (context : EngineTickContext F) (w : W) (r : Option RegistryError × Controller F E × D)
      → IsDiskError r.0 × IsSound r.1
      → let (error, c', d', w') = after_persist env context w r in IsDiskError error × IsSound c'
  unfolding after_persist IsDiskError
  after_persist-IsSound context w (some e, c, d) held = held
  after_persist-IsSound context w (none, c, d) (fine, sound) =
      (tt, evaluate_and_act-IsSound c context w sound)

  sample_host-IsSound :
      (c : Controller F E) (time : Option CpuTime) → IsSound c → IsSound (sample_host env c time)
  unfolding sample_host IsSound
  sample_host-IsSound c none sound = sound
  sample_host-IsSound c (some time) sound = sound

  refreshed-IsSound :
      (c : Controller F E) (w : W)
      → IsSound c
      → IsSound (record c {
        instances = (refresh_all env c.cfg.refresh_cgroup_on_each_read c.instances w).0;
      })
  unfolding IsSound
  refreshed-IsSound c w (tracked, valid) = (
    refresh_all-IsTracked c.vm_ownership c.cfg.refresh_cgroup_on_each_read c.instances w tracked,
    valid,
  )

  refresh_and_act-IsSound :
      (c : Controller F E) (context : EngineTickContext F) (d : D) (w : W)
      → IsSound c
      → let (error, c', d', w') = refresh_and_act env c context d w in
        IsDiskError error × IsSound c'
  unfolding refresh_and_act
  refresh_and_act-IsSound c context d w sound =
      let (fleet, failed, w') = refresh_all env c.cfg.refresh_cgroup_on_each_read c.instances w in
      let c' = drop_failed env failed (record c { instances = fleet }) in
      after_persist-IsSound context w'
        (persist_new_classifications env.fs env.json env.store c' c'.instances d)
        (persist-IsSound env.fs env.json env.store c' d (
          drop_failed-IsSound failed (record c { instances = fleet })
            (refreshed-IsSound c w sound)))

  counted-IsSound : (c : Controller F E) (n : ℕ) → IsSound c → IsSound (record c { tick_index = n })
  unfolding IsSound
  counted-IsSound c n sound = sound

  pub tick-IsSound :
      (c : Controller F E) (d : D) (w : W)
      → IsSound c
      → let (error, c', d', w') = tick env c d w in IsDiskError error × IsSound c'
  unfolding tick
  tick-IsSound c d w sound =
      let (time, w1) = env.host_cpu w in
      let counted = record c { tick_index = (c.tick_index + 1) % 18446744073709551616 } in
      let c' = sample_host env counted time in
      let (now, w2) = env.world.now w1 in
      refresh_and_act-IsSound c' (tick_context env c' now) d w2
        (sample_host-IsSound counted time (counted-IsSound c _ sound))
