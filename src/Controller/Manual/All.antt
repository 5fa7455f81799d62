-- ===== src/Controller/Manual/All.antt =====
-- src/controller.rs: `handle_set_all_thread_counts`, the manual request for every VM.
use io_thread_controller.Base.{ℕ, ◌+◌, Bool, Option, none, some, List, [], ◌∷◌, String, length, min}
use io_thread_controller.Base.Words.{u32_max}
use io_thread_controller.Base.Sorting.{sort_names}
use io_thread_controller.Base.Table.{keys}
use io_thread_controller.Instance.{World}
use io_thread_controller.Controller.{Controller}
use io_thread_controller.Controller.Manual.{ManualError, handle_set_thread_count}

-- What the summary tells: the successes, and the failures with their errors, in order.
pub record Summary : Type 0 where
  pub succeeded : ℕ
  pub failures : List (String × ManualError)

unfoldable pub count_answer : String → Option ManualError → Summary → Summary
count_answer id none s = record s { succeeded = s.succeeded + 1 }
count_answer id (some error) s = record s { failures = (id, error) ∷ s.failures }

module _ {F E W : Type 0} (world : World W) where
  -- The loop over the identifiers.
  unfoldable pub set_each :
      ℕ → Bool → List String → Controller F E → W → Summary × Controller F E × W
  set_each threads sticky [] c w = (record { succeeded = 0; failures = [] }, c, w)
  set_each threads sticky (id ∷ ids) c w =
      let (error, c', w') = handle_set_thread_count world c id threads sticky w in
      let (summary, c'', w'') = set_each threads sticky ids c' w' in
      (count_answer id error summary, c'', w'')

  -- The number of failures as a u32, the summary, and the state after.
  unfoldable pub handle_set_all_thread_counts :
      Controller F E → ℕ → Bool → W → ℕ × Summary × Controller F E × W
  handle_set_all_thread_counts c threads sticky w =
      let (summary, c', w') = set_each threads sticky (sort_names (keys c.instances)) c w in
      (min (length summary.failures) u32_max, summary, c', w')
