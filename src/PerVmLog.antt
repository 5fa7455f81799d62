-- ===== src/PerVmLog.antt =====
-- src/per_vm_log.rs: the log files of VMs. An event is its fields in order, each with the text that its
-- visitor makes of the value. The file system is a `LogFiles`; the line on stderr is left out.
mod Examples
use io_thread_controller.Base.{
  Bool, true, false, ◌&&◌, ◌||◌, Option, none, some, is_some, not, String, List, [], ◌∷◌, leb, ◌==◌,
  if◌then◌else◌,
}
use Prim.Native.String.{◌++◌, [] as empty, ◌∷◌ as cons}
use Prim.Native.Char.{code}
use Prim.Native.Nat.{ℕ}
use io_thread_controller.Base.Table.{same_id, contains_id}
use io_thread_controller.Base.Text.{is_empty, one_char}

pub record PerVmLog : Type 0 where
  pub dir : Option String
  pub warned : List String

-- `Path::join` and `Path::parent`, the creation of directories, and a line appended behind a time.
-- The operations that write answer whether they succeed.
pub record LogFiles (W : Type 0) : Type 0 where
  pub join : String → String → String
  pub parent : String → Option String
  pub create_dir_all : String → W → Bool × W
  pub append_line : (path line : String) → W → Bool × W

-- The fields of an event, as they are told apart.
pub record Record : Type 0 where
  pub vm : Option String
  pub message : Option String
  pub fields : String

unfoldable pub set_dir : Option String → PerVmLog → PerVmLog
set_dir dir log = record log { dir = dir }

-- `is_ascii_alphanumeric`, or one of `-`, `_` and `.`.
unfoldable pub is_file_char : ℕ → Bool
is_file_char c =
    (leb 48 c && leb c 57)
    || (leb 65 c && leb c 90)
    || (leb 97 c && leb c 122)
    || c == 45
    || c == 95
    || c == 46

unfoldable pub file_name : String → String
file_name empty = ""
file_name (cons c vm) =
    let rest = file_name vm in if is_file_char (code c) then cons c rest else "_" ++ rest

unfoldable pub is_disabled : PerVmLog → Bool
is_disabled log = not (is_some log.dir)

-- `Record::record`: the last `vm` and the last `message` count.
unfoldable pub record_field : String × String → Record → Record
record_field (name, value) r =
    if same_id name "vm"
    then record r { vm = some value }
    else if same_id name "message"
    then record r { message = some value }
    else record r {
      fields = (if is_empty r.fields then "" else r.fields ++ " ") ++ (name ++ ("=" ++ value));
    }

unfoldable pub record_fields : List (String × String) → Record → Record
record_fields [] r = r
record_fields (field ∷ rest) r = record_fields rest (record_field field r)

-- `Record::line`.
unfoldable pub line : Record → String
line r = elim r.message [
  | none ↦ r.fields
  | some message ↦ if is_empty r.fields then message else message ++ (" " ++ r.fields)
]

abbrev pub empty_record : Record
empty_record = record { vm = none; message = none; fields = "" }

module _ {W : Type 0} (files : LogFiles W) where
  unfoldable pub path : PerVmLog → String → Option String
  path log vm = elim log.dir [
    | none ↦ none
    | some dir ↦ some (files.join dir (file_name vm ++ ".log"))
  ]

  -- The directory of the file, where it has one, and then the line.
  unfoldable pub write_line : (path text : String) → W → Bool × W
  write_line p text w = elim (files.parent p) [
    | none ↦ files.append_line p text w
    | some dir ↦
        let (created, w') = files.create_dir_all dir w in
        let appended : Bool × W = files.append_line p text w' in
        if created then appended else (false, w')
  ]

  -- A failure is reported once for a VM.
  unfoldable pub note_failure : String → Bool × W → PerVmLog → PerVmLog × W
  note_failure vm (true, w) log = (log, w)
  note_failure vm (false, w) log =
      (if contains_id vm log.warned then log else record log { warned = vm ∷ log.warned }, w)

  unfoldable pub append : String → String → PerVmLog → W → PerVmLog × W
  append vm text log w = elim (path log vm) [
    | none ↦ (log, w)
    | some p ↦ note_failure vm (write_line p text w) log
  ]

  unfoldable pub append_record : Record → PerVmLog → W → PerVmLog × W
  append_record r log w = elim r.vm [ none ↦ (log, w) | some vm ↦ append vm (line r) log w ]

  unfoldable pub on_event : List (String × String) → PerVmLog → W → PerVmLog × W
  on_event event log w =
      if is_disabled log then (log, w) else append_record (record_fields event empty_record) log w
