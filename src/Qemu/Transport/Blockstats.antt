-- ===== src/Qemu/Transport/Blockstats.antt =====
-- src/backends/qemu/libvirt.rs: `parse_blockstats` and `query_blockstats`.
use io_thread_controller.Base.{Option, none, some, String, List, [], ◌∷◌}
use io_thread_controller.Base.Words.{sat_add64}
use Prim.Native.String.{◌++◌}
use io_thread_controller.Instance.{InstancePerfSample}
use io_thread_controller.Qemu.{Result, ok, err, parse}
use io_thread_controller.Qemu.Transport.{
  Monitor, Stats, decoded, malformed, execute, query_blockstats_cmd,
}

-- `InstancePerfSample::default()`.
abbrev pub no_perf : InstancePerfSample
no_perf = record {
  read_io_count = 0;
  write_io_count = 0;
  other_io_count = 0;
  read_bytes_total = 0;
  write_bytes_total = 0;
  read_seq_ops = 0;
  read_rand_ops = 0;
  write_seq_ops = 0;
  write_rand_ops = 0;
  small_ops = 0;
  large_ops = 0;
  read_latency_us = none;
  write_latency_us = none;
  per_vq_depth = none;
}

-- The body of the loop over the devices.
unfoldable pub add_stats : InstancePerfSample → Stats → InstancePerfSample
add_stats perf e = record perf {
  read_io_count = sat_add64 perf.read_io_count e.rd_operations;
  write_io_count = sat_add64 perf.write_io_count e.wr_operations;
  other_io_count = sat_add64 perf.other_io_count (sat_add64 e.flush_operations e.unmap_operations);
  read_bytes_total = sat_add64 perf.read_bytes_total e.rd_bytes;
  write_bytes_total = sat_add64 perf.write_bytes_total e.wr_bytes;
}

unfoldable pub add_all_stats : InstancePerfSample → List Stats → InstancePerfSample
add_all_stats perf [] = perf
add_all_stats perf (e ∷ entries) = add_all_stats (add_stats perf e) entries

-- After the decoding.
unfoldable pub sum_stats : List Stats → Option InstancePerfSample
sum_stats [] = none
sum_stats (e ∷ entries) = some (add_all_stats no_perf (e ∷ entries))

module _ {Q : Type 0} (monitor : Monitor Q) where
  unfoldable pub parse_blockstats : String → Result (Option InstancePerfSample)
  parse_blockstats body = elim (monitor.decode_blockstats body) [
    | malformed e ↦ err (parse ("decode query-blockstats: " ++ e))
    | decoded entries ↦ ok (sum_stats entries)
  ]

  unfoldable pub read_blockstats : Result String → Result (Option InstancePerfSample)
  read_blockstats (err e) = err e
  read_blockstats (ok body) = parse_blockstats body

  unfoldable pub query_blockstats : Q → Result (Option InstancePerfSample) × Q
  query_blockstats q =
      let (answer, q') = execute monitor query_blockstats_cmd q in (read_blockstats answer, q')
