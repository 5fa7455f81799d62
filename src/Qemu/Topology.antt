-- ===== src/Qemu/Topology.antt =====
-- src/backends/qemu/helpers.rs: `QemuTopology::new`, which reads QEMU's metrics. The three regexes that
-- split a line into its labels and its value, and that of a managed name, are arguments, as is `parse`
-- of an `f64`.
use io_thread_controller.Base.{
  ℕ, ◌-◌, min, Bool, not, ◌||◌, Option, none, some, String, List, [], ◌∷◌, map, ltb, ◌==◌,
  if◌then◌else◌,
}
use Prim.Native.String.{compare}
use text.Mathlib.Text.{is_le, starts_with}
use io_thread_controller.Base.Table.{lookup, insert, same_id, keys}
use io_thread_controller.Base.Sorting.{sort_names}
use io_thread_controller.Base.Text.{
  is_empty, trim, trim_both, split, split_once, lines, parse_unsigned, parse_digits,
}
use Prim.Native.String.{[] as empty, ◌∷◌ as cons}
use Prim.Native.Char.{code}
use io_thread_controller.Base.Words.{u64_max}
use io_thread_controller.Float.{Float, zero_f}
use io_thread_controller.Qemu.{ℤ, pos, negsuc}

pub record QemuTopology : Type 0 where
  pub iothreads : List String
  pub iothread_tids : List (String × ℤ)
  pub device_path : String
  pub vq_count : ℕ
  pub vq_inflight : List ℕ

-- What a regex captures of a line: the labels and the value.
pub record Metrics (F : Type 0) : Type 0 where
  pub vq_inflight_line : String → Option (String × String)
  pub iothread_info_line : String → Option (String × String)
  pub num_queues_line : String → Option (String × String)
  pub is_managed_id : String → Bool
  pub parse_f64 : String → Option F

-- The body of the loop of `parse_qemu_labels`: 61 is `=`, and 34 is `"`.
unfoldable pub add_label : List (String × String) → String → List (String × String)
add_label labels kv = elim (split_once 61 (trim kv)) [
  | none ↦ labels
  | some (k, v) ↦ insert (trim k) (trim_both (λ c. c == 34) (trim v)) labels
]

unfoldable pub add_labels : List (String × String) → List String → List (String × String)
add_labels labels [] = labels
add_labels labels (kv ∷ rest) = add_labels (add_label labels kv) rest

-- 44 is `,`. A part that is empty has no `=`.
unfoldable pub parse_qemu_labels : String → List (String × String)
parse_qemu_labels labels = add_labels [] (split 44 labels)

-- `parse::<i32>()`: 45 is `-`.
unfoldable pub negated : Option ℕ → Option ℤ
negated none = none
negated (some n) = some (if n == 0 then pos 0 else negsuc (n - 1))

unfoldable pub positive : Option ℕ → Option ℤ
positive none = none
positive (some n) = some (pos n)

unfoldable pub parse_i32 : String → Option ℤ
parse_i32 empty = none
parse_i32 (cons c s) =
    if code c == 45
    then negated (parse_digits 2147483648 s)
    else positive (parse_unsigned 2147483647 (cons c s))

-- `get(a).or_else(|| get(b)).cloned().unwrap_or_default()`.
unfoldable pub label_or : (a b : String) → List (String × String) → String
label_or a b labels = elim (lookup a labels) [
  | some v ↦ v
  | none ↦ elim (lookup b labels) [ none ↦ "" | some v ↦ v ]
]

-- `BTreeMap<usize, u64>::insert` and `BTreeMap<String, i32>::insert`, in the order of the keys.
unfoldable pub insert_queue : ℕ → ℕ → List (ℕ × ℕ) → List (ℕ × ℕ)
insert_queue vq depth [] = (vq, depth) ∷ []
insert_queue vq depth ((q, d) ∷ rest) =
    let later = insert_queue vq depth rest in
    if q == vq
    then (vq, depth) ∷ rest
    else if ltb vq q
    then (vq, depth) ∷ (q, d) ∷ rest
    else (q, d) ∷ later

unfoldable pub insert_tid : String → ℤ → List (String × ℤ) → List (String × ℤ)
insert_tid id tid [] = (id, tid) ∷ []
insert_tid id tid ((j, t) ∷ rest) =
    let later = insert_tid id tid rest in
    if same_id j id
    then (id, tid) ∷ rest
    else if is_le (compare id j)
    then (id, tid) ∷ (j, t) ∷ rest
    else (j, t) ∷ later

-- The topology so far, and the depths by device and queue.
pub record Reading : Type 0 where
  pub topo : QemuTopology
  pub inflight : List (String × List (ℕ × ℕ))

abbrev pub no_topology : QemuTopology
no_topology = record {
  iothreads = [];
  iothread_tids = [];
  device_path = "";
  vq_count = 0;
  vq_inflight = [];
}

-- `entry(device).or_default().insert(vq, depth)`.
unfoldable pub add_depth : String → ℕ → ℕ → Reading → Reading
add_depth device vq depth r =
    let depths : List (ℕ × ℕ) = elim (lookup device r.inflight) [
      | none ↦ []
      | some known ↦ known
    ] in
    record r { inflight = insert device (insert_queue vq depth depths) r.inflight }

module _ {F : Type 0} (fl : Float F) (metrics : Metrics F) where
  -- `depth.max(0.0) as u64`: the other value when one is NaN.
  unfoldable pub depth_of : F → ℕ
  depth_of depth = if fl.lt (zero_f fl) depth then fl.as_u64 depth else 0

  -- `v as u16`, which saturates.
  unfoldable pub as_u16 : F → ℕ
  as_u16 v = min (fl.as_u32 v) 65535

  -- The line of a queue's depth: the device, its queue and the depth.
  unfoldable pub read_inflight : String × String → Reading → Reading
  read_inflight (text, value) r =
      let labels = parse_qemu_labels text in
      elim (lookup "device" labels) [
        | none ↦ r
        | some device ↦ elim (lookup "vq" labels) [
          | none ↦ r
          | some vq_text ↦ elim (parse_unsigned u64_max vq_text) [
            | none ↦ r
            | some vq ↦ elim (metrics.parse_f64 value) [
              | none ↦ r
              | some depth ↦ add_depth device vq (depth_of depth) r
            ]
          ]
        ]
      ]

  -- The line of an IOThread; one that is not managed is passed over.
  unfoldable pub read_iothread : String × String → Reading → Reading
  read_iothread (text, value) r =
      let labels = parse_qemu_labels text in
      elim (lookup "id" labels) [
        | none ↦ r
        | some id ↦
            if is_empty id || not (metrics.is_managed_id id)
            then r
            else elim (parse_i32 (label_or "tid" "thread_id" labels)) [
              | none ↦ r
              | some tid ↦ record r {
                topo = record r.topo { iothread_tids = insert_tid id tid r.topo.iothread_tids };
              }
            ]
      ]

  -- The line of a device's queues; the first device with a path and a number is the managed one.
  unfoldable pub read_device : String × String → Reading → Reading
  read_device (text, value) r =
      let path = label_or "device" "path" (parse_qemu_labels text) in
      if is_empty path then r else elim (metrics.parse_f64 value) [
        | none ↦ r
        | some v ↦ record r { topo = record r.topo { device_path = path; vq_count = as_u16 v } }
      ]

  unfoldable pub read_num_queues : String → Reading → Reading
  read_num_queues line r =
      if not (is_empty r.topo.device_path)
      then r
      else elim (metrics.num_queues_line line) [ none ↦ r | some m ↦ read_device m r ]

  -- The body of the loop over the lines.
  unfoldable pub read_line : String → Reading → Reading
  read_line line r = if starts_with line "#" then r else elim (metrics.vq_inflight_line line) [
    | some m ↦ read_inflight m r
    | none ↦ elim (metrics.iothread_info_line line) [
      | some m ↦ read_iothread m r
      | none ↦ read_num_queues line r
    ]
  ]

  unfoldable pub read_lines : List String → Reading → Reading
  read_lines [] r = r
  read_lines (line ∷ rest) r = read_lines rest (read_line line r)

  -- After the loop: the names, and the depths of the managed device.
  unfoldable pub finish_topology : Reading → QemuTopology
  finish_topology r = record r.topo {
    iothreads = sort_names (keys r.topo.iothread_tids);
    vq_inflight = elim (lookup r.topo.device_path r.inflight) [
      | none ↦ []
      | some per_vq ↦ map (λ q. q.1) per_vq
    ];
  }

  unfoldable pub parse_topology : String → QemuTopology
  parse_topology body =
      finish_topology (read_lines (lines body) (record { topo = no_topology; inflight = [] }))
