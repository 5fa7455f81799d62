-- ===== src/Qemu/Client.antt =====
-- src/backends/qemu/client.rs: `QemuInstanceClient`, the client of one guest. Its lock is held by one
-- request at a time, so a request is a function from the session to the session.
pub mod Loops
pub mod Snapshot
mod Steps
pub mod Pool
pub mod Guest
pub mod Safety
pub mod Request
pub mod Resize
use io_thread_controller.Base.{
  ℕ, zero, suc, ◌+◌, ◌-◌, Bool, true, false, Option, none, some, String, List, [], ◌∷◌, ◌++◌, ◌==◌,
  ltb, leb, if◌then◌else◌, length,
}
use io_thread_controller.Base.Words.{wrap32}
use io_thread_controller.Base.Sorting.{sort_names}
use io_thread_controller.Qemu.{QemuError, ℤ, pos, parse, Result, ok, err, VqMapping}
use io_thread_controller.Qemu.Mapping.{round_robin_vq_mapping}
use io_thread_controller.Qemu.Names.{next_qemu_iothread_id}
use io_thread_controller.Qemu.Transport.{Monitor, add_io_thread, del_io_thread, set_vq_mapping}
use io_thread_controller.Qemu.Cpu.{CpuSample}

-- `Inner`.
pub record Inner : Type 0 where
  pub pid : ℤ
  pub iothreads : List String
  pub iothread_tids : List (String × ℤ)
  pub device_path : String
  pub vq_count : ℕ
  pub last_sample : Option CpuSample
  pub warned_unsupported_metrics : Bool

-- `Inner::default()`.
abbrev pub fresh_inner : Inner
fresh_inner = record {
  pid = pos 0;
  iothreads = [];
  iothread_tids = [];
  device_path = "";
  vq_count = 0;
  last_sample = none;
  warned_unsupported_metrics = false;
}

-- The client, the guest behind its monitor, and the static counter of the fallback names.
pub record Session (Q : Type 0) : Type 0 where
  pub inner : Inner
  pub guest : Q
  pub extra : ℕ

-- `last().unwrap()` and all before it, where there is one.
unfoldable pub split_last : String → List String → String × List String
split_last id [] = (id, [])
split_last id (j ∷ js) = let (last, before) = split_last j js in (last, id ∷ before)

-- `len() as u32`.
abbrev pub pool_size : {Q : Type 0} → Session Q → ℕ
pool_size s = wrap32 (length s.inner.iothreads)

abbrev pub set_iothreads : {Q : Type 0} → List String → Session Q → Session Q
set_iothreads ids s = record s { inner = record s.inner { iothreads = ids } }

abbrev pub set_guest : {Q : Type 0} → Q → Session Q → Session Q
set_guest q s = record s { guest = q }

module _ {Q : Type 0} (monitor : Monitor Q) where
  -- The answer to the new mapping; an error takes the new IOThread back, whatever that answers.
  unfoldable pub finish_up :
      String → List String → Session Q → Result Unit × Q → Result ℕ × Session Q
  finish_up new_id new_set s (ok done, q) =
      let s' = set_iothreads new_set (set_guest q s) in (ok (pool_size s'), s')
  finish_up new_id new_set s (err e, q) =
      let (answer, q') = del_io_thread monitor new_id q in (err e, set_guest q' s)

  -- The answer to the new IOThread.
  unfoldable pub reshard_up : String → Session Q → Result Unit × Q → Result ℕ × Session Q
  reshard_up new_id s (err e, q) = (err e, set_guest q s)
  reshard_up new_id s (ok done, q) =
      let new_set = sort_names (s.inner.iothreads ++ new_id ∷ []) in
      let mapping = round_robin_vq_mapping new_set s.inner.vq_count in
      finish_up new_id new_set s (set_vq_mapping monitor s.inner.device_path mapping q)

  unfoldable pub scale_up : Session Q → Result ℕ × Session Q
  scale_up s =
      let (new_id, extra') = next_qemu_iothread_id s.inner.iothreads s.extra in
      reshard_up new_id (record s { extra = extra' }) (add_io_thread monitor new_id none s.guest)

  -- The answer to the deletion.
  unfoldable pub finish_down : List String → Session Q → Result Unit × Q → Result ℕ × Session Q
  finish_down remaining s (err e, q) = (err e, set_guest q s)
  finish_down remaining s (ok done, q) =
      let s' = set_iothreads remaining (set_guest q s) in (ok (pool_size s'), s')

  -- The answer to the mapping without the last IOThread.
  unfoldable pub delete_down :
      String → List String → Session Q → Result Unit × Q → Result ℕ × Session Q
  delete_down doomed remaining s (err e, q) = (err e, set_guest q s)
  delete_down doomed remaining s (ok done, q) =
      finish_down remaining s (del_io_thread monitor doomed q)

  -- The guard of `scale_down`, by the pool; the number in the text is the length.
  unfoldable pub scale_down_from : List String → Session Q → Result ℕ × Session Q
  scale_down_from [] s = (err (parse "refusing to scale below one iothread (have 0)"), s)
  scale_down_from (id ∷ []) s = (err (parse "refusing to scale below one iothread (have 1)"), s)
  scale_down_from (id ∷ j ∷ js) s =
      let (doomed, remaining) = split_last id (j ∷ js) in
      let mapping = round_robin_vq_mapping remaining s.inner.vq_count in
      delete_down doomed remaining s (set_vq_mapping monitor s.inner.device_path mapping s.guest)

  unfoldable pub scale_down : Session Q → Result ℕ × Session Q
  scale_down s = scale_down_from s.inner.iothreads s
