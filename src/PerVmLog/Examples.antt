-- ===== src/PerVmLog/Examples.antt =====
-- The events of a test of the source, on files in memory.
use io_thread_controller.Base.{◌≡◌, refl, true, some, String, List, [], ◌∷◌}
use io_thread_controller.Base.Text.{is_empty}
use io_thread_controller.PerVmLog.{
  PerVmLog, LogFiles, is_file_char, file_name, is_disabled, record_field, record_fields, line, path,
  write_line, note_failure, append, append_record, on_event,
}
use Prim.Native.String.{◌++◌ as ◌⧺◌}

abbrev files : LogFiles (List (String × String))
files = record {
  join = λ dir name. dir ⧺ ("/" ⧺ name);
  parent = λ path. some "/logs";
  create_dir_all = λ dir written. (true, written);
  append_line = λ path text written. (true, (path, text) ∷ written);
}

abbrev enabled : PerVmLog
enabled = record { dir = some "/logs"; warned = [] }

on_event-of_vm :
    on_event files
      (("event", "scale_failed") ∷ ("vm", "vm/a") ∷ ("target", "4") ∷ ("message", "oops") ∷ [])
      enabled
      []
    ≡ (enabled, ("/logs/vm_a.log", "oops event=scale_failed target=4") ∷ [])
unfolding on_event append_record append note_failure write_line path line record_fields record_field
    is_disabled file_name is_file_char is_empty
on_event-of_vm = refl

on_event-without_vm : on_event files (("message", "no VM here") ∷ []) enabled [] ≡ (enabled, [])
unfolding on_event append_record record_fields record_field is_disabled
on_event-without_vm = refl
