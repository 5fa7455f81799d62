-- ===== src/Threshold/Isolation.antt =====
-- The engine keeps its VMs apart, so the order in which a tick evaluates them does not matter.
use io_thread_controller.Base.{◌≡◌, refl, sym, ◌≢◌, some, String, arith, if◌then◌else◌}
use io_thread_controller.Base.Table.{lookup, same_id, same_id_iff, lookup-insert}
use io_thread_controller.Float.{Float}
use io_thread_controller.Engines.{EngineTickContext}
use io_thread_controller.Threshold.Validation.{Observed}
use io_thread_controller.Threshold.{ThresholdEngine, evaluate_state, entry, evaluate}

module _ {F : Type 0} (fl : Float F) where
  -- The state that `evaluate` leaves for each VM.
  lookup-evaluate :
      (e : ThresholdEngine F) (context : EngineTickContext F) (id j : String) (seen : Observed F)
      → lookup j (evaluate fl e context id seen).1.state ≡ (
          if same_id id j
          then some (evaluate_state fl e.cfg e.polls context seen (entry fl e id)).1
          else lookup j e.state)
  unfolding evaluate
  lookup-evaluate e context id j seen = lookup-insert id j _ e.state

  entry-evaluate_ne :
      (e : ThresholdEngine F) (context : EngineTickContext F) (a b : String) (seen : Observed F)
      → a ≢ b
      → entry fl (evaluate fl e context a seen).1 b ≡ entry fl e b
  unfolding entry
  entry-evaluate_ne e context a b seen ne =
      ground (arith, lookup-evaluate e context a b seen, same_id_iff a b)

  -- Evaluations of two different VMs in one tick can be made in either order: both get the same
  -- actions, and the engine keeps the same state for every VM.
  pub evaluate_comm :
      (e : ThresholdEngine F) (context : EngineTickContext F) (a b j : String)
      (seen_a seen_b : Observed F)
      → a ≢ b
      → let first = evaluate fl e context a seen_a in
        let second = evaluate fl first.1 context b seen_b in
        let first' = evaluate fl e context b seen_b in
        let second' = evaluate fl first'.1 context a seen_a in
        (first.0 ≡ second'.0)
        × (second.0 ≡ first'.0)
        × (lookup j second.1.state ≡ lookup j second'.1.state)
  unfolding evaluate
  evaluate_comm e context a b j seen_a seen_b ne =
      let first = (evaluate fl e context a seen_a).1 in
      let first' = (evaluate fl e context b seen_b).1 in
      let same_b = entry-evaluate_ne e context a b seen_a ne in
      let same_a = entry-evaluate_ne e context b a seen_b (λ h. ne (sym h)) in
      (
        rw same_a refl,
        rw same_b refl,
        ground (
          arith,
          lookup-insert b j (evaluate_state fl e.cfg e.polls context seen_b (entry fl first b)).1
              first.state,
          lookup-evaluate e context a j seen_a,
          lookup-insert a j (evaluate_state fl e.cfg e.polls context seen_a (entry fl first' a)).1
              first'.state,
          lookup-evaluate e context b j seen_b,
          same_a,
          same_b,
          same_id_iff a b,
          same_id_iff a j,
          same_id_iff b j,
        ),
      )
