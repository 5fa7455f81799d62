-- ===== src/Controller/Plan/Limits.antt =====
-- src/controller.rs: what the actuation of a whole plan does to the backend.
use io_thread_controller.Base.{
  ℕ, ◌+◌, Bool, false, ◌≡◌, List, [], ◌∷◌, ltb, leb, ◌&&◌, if◌then◌else◌, if_keeps,
}
use io_thread_controller.Float.{Float}
use io_thread_controller.Instance.{World}
use io_thread_controller.Fleet.{ScalingEngine}
use io_thread_controller.Controller.{Controller}
use io_thread_controller.Controller.Actuation.Safety.{Steps, apply_engine_decision_keeps}
use io_thread_controller.Controller.Plan.{Planned, apply_planned, apply_plan}

-- One more, if an action was applied.
abbrev pub tally : Bool → ℕ → ℕ
tally applied n = if applied then n + 1 else n

module _ {F E W : Type 0} (fl : Float F) (eng : ScalingEngine F E) (world : World W) (cap : ℕ)
    (Holds : ℕ → Controller F E → W → Type 0)
    (steps : (n : ℕ)
      → (ltb 0 cap && leb cap n) ≡ false
      → Steps world (λ applied. Holds (tally applied n))) where
  abbrev Kept : ℕ × Controller F E × W → Type 0
  Kept r = Holds r.0 r.1 r.2

  apply_planned_keeps :
      (item : Planned) (state : ℕ × Controller F E × W)
      → Kept state
      → Kept (apply_planned fl eng world cap item state)
  unfolding apply_planned
  apply_planned_keeps item (n, c, w) h =
      if_keeps Kept (ltb 0 cap && leb cap n) _ _ (λ _. h)
        (λ below.
          apply_engine_decision_keeps fl eng world (λ applied. Holds (tally applied n))
            (steps n below) c item.instance_id item.action w h)

  -- What the steps of every single actuation keep, with the count of the actions applied so far, the
  -- whole plan keeps.
  pub apply_plan_keeps :
      (items : List Planned) (state : ℕ × Controller F E × W)
      → Kept state
      → Kept (apply_plan fl eng world cap items state)
  unfolding apply_plan
  apply_plan_keeps [] state h = h
  apply_plan_keeps (item ∷ rest) state h =
      apply_plan_keeps rest (apply_planned fl eng world cap item state)
        (apply_planned_keeps item state h)
