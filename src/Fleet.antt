-- ===== src/Fleet.antt =====
-- src/engines/mod.rs: the trait `ScalingEngine`, its default evaluation of a fleet, and the threshold
-- engine as an implementation. A VM is its id with its status; an engine is its state.
use io_thread_controller.Base.{not, ◌||◌, ltb, List, [], ◌∷◌, ◌++◌, String, if◌then◌else◌}
use io_thread_controller.Float.{Float}
use io_thread_controller.Engines.{ScaleAction, EngineTickContext, InstanceDecision, AppliedOutcome}
use io_thread_controller.Instance.{InstanceStatus, io_count}
use io_thread_controller.Threshold.Validation.{Observed}
use io_thread_controller.Threshold.{
  ThresholdEngine, evaluate, on_applied, on_instance_added, on_instance_removed,
}

pub record ScalingEngine (F E : Type 0) : Type 0 where
  pub evaluate_fleet :
      E → List (String × InstanceStatus F) → EngineTickContext F → List InstanceDecision × E
  pub on_applied : E → String → AppliedOutcome → E
  pub on_instance_added : E → String → E
  pub on_instance_removed : E → String → E

module _ {F E : Type 0}
    (evaluate_one : E → EngineTickContext F → String → InstanceStatus F → ScaleAction × E)
    (context : EngineTickContext F) where
  -- The future of one VM: no decision for a sticky or backend-disabled one.
  unfoldable pub evaluate_eligible : E → String → InstanceStatus F → List InstanceDecision × E
  evaluate_eligible e id status =
      if status.manual_scaling_sticky || not status.scaling_allowed
      then ([], e)
      else (let (action, e') = evaluate_one e context id status in
          (record { instance_id = id; decision = action } ∷ [], e'))

  -- The default `evaluate_fleet`, over an engine's `evaluate`. `join_all` keeps the order of the
  -- results; the evaluations are made in that order here.
  unfoldable pub evaluate_each : E → List (String × InstanceStatus F) → List InstanceDecision × E
  evaluate_each e [] = ([], e)
  evaluate_each e (vm ∷ rest) =
      let (own, e') = evaluate_eligible e vm.0 vm.1 in
      let (others, e'') = evaluate_each e' rest in (own ++ others, e'')

module _ {F : Type 0} (fl : Float F) where
  -- What the threshold engine reads of a status.
  abbrev pub observe : InstanceStatus F → Observed F
  observe s = record {
    per_thread_util = s.per_thread_util;
    thread_count = s.thread_count;
    io_count_total = io_count s;
    throttled_recently = ltb 0 s.throttled_usec_delta;
  }

  abbrev pub threshold_engine : ScalingEngine F (ThresholdEngine F)
  threshold_engine = record {
    evaluate_fleet = λ e fleet context.
        evaluate_each (λ e context id s. evaluate fl e context id (observe s)) context e fleet;
    on_applied = on_applied fl;
    on_instance_added = on_instance_added fl;
    on_instance_removed = on_instance_removed fl;
  }
