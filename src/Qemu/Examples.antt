-- ===== src/Qemu/Examples.antt =====
-- Runs of the QEMU client on a guest in memory.
use io_thread_controller.Base.{
  ℕ, ◌+◌, ◌≡◌, refl, ap, Bool, true, false, not, Option, none, some, String, List, [], ◌∷◌, leb,
  if◌then◌else◌, keep, length, arith, inl,
}
use io_thread_controller.Base.Table.{
  same_id, same_id_iff, contains_id, lookup, insert, lookup-insert_same,
}
use io_thread_controller.Qemu.{VqMapping, ℤ, pos}
use io_thread_controller.Qemu.Mapping.{round_robin_vq_mapping, assign, push_at, shares}
use io_thread_controller.Qemu.Mapping.Balance.{round_robin_vq_mapping-Balanced, Balanced}
use io_thread_controller.Qemu.Names.{
  next_qemu_iothread_id, first_free, iothread_name, extra_name, decimal, decimal_within, digit,
}
use io_thread_controller.Qemu.Names.Fresh.{IsLowest, next_qemu_iothread_id-IsLowest}
use io_thread_controller.Base.Text.{
  is_blank, is_whitespace, is_empty, trim_start, trim_end, trim_both, split_from, strip_cr,
  lines_from, split_once_from, digits_from, parse_digits, parse_unsigned,
}
use io_thread_controller.Qemu.Topology.{
  Metrics, parse_topology, read_lines, read_line, read_inflight, read_iothread, read_num_queues,
  read_device, finish_topology, add_depth, insert_queue, insert_tid, depth_of, as_u16,
  parse_qemu_labels, add_labels, add_label, label_or, parse_i32, positive,
}
use io_thread_controller.Qemu.Transport.{
  Monitor, Command, object_add, object_del, set_iothread_vq_mapping, query_blockstats_cmd,
  query_prometheus, qom_get, execute_unit, forget, field, set_fields, add_io_thread, del_io_thread,
  set_vq_mapping, send_mapping, Reply, command_name, replied, Envelope, decoded, execute,
  read_reply, parse_qmp_envelope, open_envelope,
}
use io_thread_controller.Base.Sorting.{Distinct, sort_names, insert_name}
use io_thread_controller.Qemu.Client.{
  Inner, fresh_inner, Session, scale_up, reshard_up, finish_up, scale_down, scale_down_from,
  delete_down, finish_down, split_last,
}
use io_thread_controller.Float.{Micro, micro_float}
use io_thread_controller.Controller.Plan.{act_on}
use io_thread_controller.Engines.{up, InstanceDecision}
use io_thread_controller.Controller.{Controller}
use io_thread_controller.Controller.Plan.View.{logged, IsConsistent, act_on-IsConsistent}
use io_thread_controller.Qemu.Backend.View.{
  pool_of, now_pools, resize_pool-others, resize_pool-accepted,
}
use io_thread_controller.Controller.Examples.{counter, fleet, decisions, decide, status}
use io_thread_controller.Qemu.{
  BackendClientError, client_error, from_transport_io, is_peer_disconnect_kind,
}
use io_thread_controller.Qemu.Client.Loops.{
  set_thread_count, resize, grow, shrink, then_shrink, repeat_step, after_step, request_error,
}
use io_thread_controller.Qemu.Client.Resize.{Resized, set_thread_count-Resized}
use io_thread_controller.Qemu.Client.Safety.{IsSafe, AllExist, NamesPool}
use io_thread_controller.Qemu.Client.Request.{IsCounted, Served, set_thread_count-Served}
use io_thread_controller.Qemu.Backend.{Host, qemu_world}
use io_thread_controller.Qemu.Backend.Safety.{AllSafe, act_on-AllSafe}
use io_thread_controller.Qemu.Client.Guest.{
  GuestView, Effect, Answers, Obeys, SameObjects, SameMappings,
}

-- A guest that takes at most three IOThreads.
record Guest : Type 0 where
  objects : List String
  mappings : List (String × List VqMapping)

abbrev accepted : Guest → Reply × Guest
accepted q = (replied "done", q)

abbrev admit : Bool → String → Guest → Reply × Guest
admit true id q = (replied "refused", q)
admit false id q = accepted (record q { objects = id ∷ q.objects })

abbrev obey : Command → Guest → Reply × Guest
obey (object_add id fields) q = admit (leb 3 (length q.objects)) id q
obey (object_del id) q = accepted (record q { objects = keep (λ j. not (same_id id j)) q.objects })
obey (set_iothread_vq_mapping path mapping) q =
    accepted (record q { mappings = insert path mapping q.mappings })
obey query_blockstats_cmd q = accepted q
obey query_prometheus q = accepted q
obey (qom_get path property) q = accepted q

abbrev envelope : String → Envelope
envelope body = if same_id body "done" then record { ret = some "{}"; error = none } else record {
  ret = none;
  error = some (record { class = "GenericError"; desc = "too many objects" });
}

abbrev monitor : Monitor Guest
monitor = record {
  monitor_command = obey;
  decode_envelope = λ body. decoded (envelope body);
  decode_blockstats = λ body. decoded [];
  decode_mapping = λ body. decoded [];
  decode_metrics = λ body. decoded "";
}

abbrev view : GuestView Guest
view = record {
  has_object = λ q j. contains_id j q.objects;
  mapping_of = λ q path. elim (lookup path q.mappings) [ none ↦ [] | some mapping ↦ mapping ];
}

contains_id-keep :
    (id j : String) (ids : List String)
    → contains_id j (keep (λ k. not (same_id id k)) ids)
      ≡ (if same_id id j then false else contains_id j ids)
unfolding contains_id
contains_id-keep id j [] = ground arith
contains_id-keep id j (k ∷ ks) =
    ground (arith, contains_id-keep id j ks, same_id_iff id k, same_id_iff k j, same_id_iff id j)

admit-Answers :
    (full : Bool) (id : String) (fields : List (String × ℤ)) (q : Guest)
    → let (reply, q') = admit full id q in
      Answers view
        (Effect view (object_add id fields))
        q
        (read_reply monitor "object-add" reply, q')
unfolding Answers Effect read_reply parse_qmp_envelope open_envelope SameObjects SameMappings
    contains_id
admit-Answers true id fields q = ((λ j. refl), (λ path. refl))
admit-Answers false id fields q = ((λ j. refl), (λ path. refl))

monitor-Obeys : Obeys view monitor
unfolding Obeys Answers Effect execute command_name read_reply parse_qmp_envelope open_envelope
    SameObjects SameMappings contains_id
monitor-Obeys (object_add id fields) q = admit-Answers (leb 3 (length q.objects)) id fields q
monitor-Obeys (object_del id) q = ((λ j. contains_id-keep id j q.objects), (λ path. refl))
monitor-Obeys (set_iothread_vq_mapping path mapping) q = (
  (λ j. refl),
  ap (λ o. elim o as (λ _. List VqMapping) [ none ↦ [] | some m ↦ m ])
      (lookup-insert_same path mapping q.mappings),
)
monitor-Obeys query_blockstats_cmd q = ((λ j. refl), (λ path. refl))
monitor-Obeys query_prometheus q = ((λ j. refl), (λ path. refl))
monitor-Obeys (qom_get path property) q = ((λ j. refl), (λ path'. refl))

-- A guest with one IOThread and five queues.
abbrev topology : Inner
topology = record fresh_inner {
  iothreads = "iot0" ∷ [];
  device_path = "/machine/peripheral/scsi0";
  vq_count = 5;
}

abbrev session : Session Guest
session = record {
  inner = topology;
  guest = record { objects = "iot0" ∷ []; mappings = [] };
  extra = 0;
}

-- Growing to three IOThreads and asking for a fourth, which the guest refuses.
threads_of : Option (Option BackendClientError × Session Guest) → List String
threads_of none = []
threads_of (some (error, s)) = s.inner.iothreads

grown_to_three : threads_of (set_thread_count monitor 3 session) ≡ "iot0" ∷ "iot1" ∷ "iot2" ∷ []
unfolding threads_of set_thread_count resize then_shrink grow shrink repeat_step after_step
    request_error scale_up reshard_up finish_up scale_down scale_down_from delete_down finish_down
    add_io_thread del_io_thread set_vq_mapping send_mapping is_blank is_whitespace execute
    execute_unit forget read_reply parse_qmp_envelope open_envelope command_name set_fields field
    next_qemu_iothread_id first_free iothread_name extra_name decimal decimal_within digit
    contains_id sort_names insert_name split_last round_robin_vq_mapping assign push_at client_error
    from_transport_io is_peer_disconnect_kind
grown_to_three = refl

refused_fourth : threads_of (set_thread_count monitor 4 session) ≡ "iot0" ∷ "iot1" ∷ "iot2" ∷ []
unfolding threads_of set_thread_count resize then_shrink grow shrink repeat_step after_step
    request_error scale_up reshard_up finish_up scale_down scale_down_from delete_down finish_down
    add_io_thread del_io_thread set_vq_mapping send_mapping is_blank is_whitespace execute
    execute_unit forget read_reply parse_qmp_envelope open_envelope command_name set_fields field
    next_qemu_iothread_id first_free iothread_name extra_name decimal decimal_within digit
    contains_id sort_names insert_name split_last round_robin_vq_mapping assign push_at client_error
    from_transport_io is_peer_disconnect_kind
refused_fourth = refl

round_robin_vq_mapping-Balanced_example :
    let mapping = round_robin_vq_mapping ("iot0" ∷ "iot1" ∷ "iot2" ∷ []) 7 in
    (mapping ≡ shares 3 7 0 ("iot0" ∷ "iot1" ∷ "iot2" ∷ [])) × Balanced 3 7 0 mapping
round_robin_vq_mapping-Balanced_example =
    round_robin_vq_mapping-Balanced "iot0" ("iot1" ∷ "iot2" ∷ []) 7 (omega arith)

next_qemu_iothread_id-IsLowest_example :
    IsLowest ("iot0" ∷ "iot2" ∷ []) 0 (next_qemu_iothread_id ("iot0" ∷ "iot2" ∷ []) 0)
next_qemu_iothread_id-IsLowest_example =
    next_qemu_iothread_id-IsLowest ("iot0" ∷ "iot2" ∷ []) 0 (omega arith)

set_thread_count-Resized_example : Resized 4 1 (set_thread_count monitor 4 session)
set_thread_count-Resized_example = set_thread_count-Resized monitor 4 session (omega arith)

session-IsCounted : IsCounted view session
unfolding IsCounted IsSafe AllExist NamesPool Distinct contains_id lookup
session-IsCounted =
    (((λ j held. held), (λ j named. absurd (ground (arith, named))), (refl, tt)), omega arith)

set_thread_count-Served_example : Served view session 3 (set_thread_count monitor 3 session)
set_thread_count-Served_example =
    set_thread_count-Served view monitor monitor-Obeys session 3 (omega arith) session-IsCounted

abbrev host : Host Guest ℕ
host = record { sessions = ("a", session) ∷ ("b", session) ∷ ("c", session) ∷ []; clock = 0 }

abbrev tick_clock : ℕ → ℕ × ℕ
tick_clock at = (at, at + 1)

only_session : (id : String) (s : Session Guest) → lookup id host.sessions ≡ some s → s ≡ session
unfolding lookup
only_session id s found = ground (arith, found)

host-AllSafe : AllSafe view (λ id. monitor) tick_clock (λ id. monitor-Obeys) host
unfolding AllSafe
host-AllSafe id s found = rw (only_session id s found) session-IsCounted

act_on-AllSafe_example :
    AllSafe view
      (λ id. monitor)
      tick_clock
      (λ id. monitor-Obeys)
      (act_on micro_float counter (qemu_world (λ id. monitor) tick_clock) fleet decisions host).2
act_on-AllSafe_example =
    act_on-AllSafe view (λ id. monitor) tick_clock (λ id. monitor-Obeys) micro_float counter fleet
      decisions host (omega arith) host-AllSafe

-- A fleet of guests with one IOThread each. "b" refuses the last step of the size asked for.
abbrev small_fleet : Controller Micro ℕ
small_fleet = record fleet { instances = ("a", status 1) ∷ ("b", status 1) ∷ ("c", status 1) ∷ [] }

abbrev growths : List InstanceDecision
growths = decide "a" (up 3) ∷ decide "b" (up 4) ∷ decide "c" (up 2) ∷ []

host-IsConsistent :
    IsConsistent {W = Host Guest ℕ} pool_of small_fleet (record { outside = host; refused = [] })
unfolding IsConsistent pool_of lookup
host-IsConsistent id s found = inl (ground (arith, found))

act_on-IsConsistent_example :
    let world = logged (qemu_world (λ id. monitor) tick_clock) in
    let (adjusted, c, w) =
      act_on micro_float counter world small_fleet growths
        (record { outside = host; refused = [] }) in
    IsConsistent pool_of c w
unfolding qemu_world
act_on-IsConsistent_example =
    act_on-IsConsistent micro_float counter (qemu_world (λ id. monitor) tick_clock) pool_of
      (now_pools (λ id. monitor) tick_clock) (resize_pool-others (λ id. monitor) tick_clock)
      (resize_pool-accepted (λ id. monitor) tick_clock) small_fleet growths host (omega arith)
      host-IsConsistent

-- The metrics of a guest with one managed IOThread and a device of two queues.
abbrev metrics : Metrics ℕ
metrics = record {
  vq_inflight_line =
      λ line. if same_id line "inflight" then some ("device=\"/scsi0\",vq=\"1\"", "7") else none;
  iothread_info_line =
      λ line. if same_id line "iothread" then some ("id=\"iot0\", tid=\"123\"", "1") else none;
  num_queues_line = λ line. if same_id line "queues" then some ("path=\"/scsi0\"", "2") else none;
  is_managed_id = λ id. same_id id "iot0";
  parse_f64 = λ text. if same_id text "7" then some 7000000 else some 2000000;
}

topology_of_metrics :
    parse_topology micro_float metrics "# HELP\ninflight\niothread\r\nqueues\n" ≡ record {
      iothreads = "iot0" ∷ [];
      iothread_tids = ("iot0", pos 123) ∷ [];
      device_path = "/scsi0";
      vq_count = 2;
      vq_inflight = 7 ∷ [];
    }
unfolding parse_topology read_lines read_line read_inflight read_iothread read_num_queues
    read_device finish_topology add_depth insert_queue insert_tid depth_of as_u16 parse_qemu_labels
    add_labels add_label label_or parse_i32 positive parse_unsigned parse_digits digits_from
    split_once_from split_from lines_from strip_cr trim_both trim_end trim_start is_whitespace
    is_empty lookup insert sort_names insert_name
topology_of_metrics = refl
