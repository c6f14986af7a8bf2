-- ===== src/Ring/State.antt =====
-- The shared memory of rbtrace_private.h: `struct ring_info`, its flags, and what lies round it.
use rbtrace.Base.{ℕ, ◌-◌, ◌^◌, ◌+◌, Bool, false, List, ltb, if◌then◌else◌}
use rbtrace.Trace.{Entry}

-- `ri_flags`: the six bits RBTRACE_DO_DISK to RBTRACE_DO_FLUSH, one field each; `Ring.Flags` has the
-- word that they stand for.
pub record Flags : Type 0 where
  pub do_disk : Bool
  pub do_open : Bool
  pub do_wrap : Bool
  pub do_zap : Bool
  pub do_close : Bool
  pub do_flush : Bool

abbrev pub no_flags : Flags
no_flags = record {
  do_disk = false;
  do_open = false;
  do_wrap = false;
  do_zap = false;
  do_close = false;
  do_flush = false;
}

-- `struct ring_info`. The `int` fields `slot`, `flush` and `lost` are their 32-bit patterns.
pub record RingInfo : Type 0 where
  pub file_path : List ℕ
  pub ring : ℕ
  pub flags : Flags
  pub tflags : ℕ
  pub cir_off : ℕ
  pub alt_off : ℕ
  pub slot : ℕ
  pub flush : ℕ
  pub lost : ℕ

-- The shared memory and the semaphore: `*fsize_ptr`, `*ring_ptr`, `ri_ptr[0]` (RBTRACE_RING_MAX
-- is 1), the records at `re_base`, and the value of `*sem_ptr`.
pub record Shm : Type 0 where
  pub fsize : ℕ
  pub ring : ℕ
  pub info : RingInfo
  pub mem : ℕ → Entry
  pub sem : ℕ

-- SEM_VALUE_MAX of Linux: a post beyond it fails, and changes nothing.
abbrev pub sem_max : ℕ
sem_max = 2 ^ 31 - 1

abbrev pub sem_post : ℕ → ℕ
sem_post n = if ltb n sem_max then n + 1 else n

-- A failed `sem_post` is only reported.
unfoldable pub signal_thread : Shm → Shm
signal_thread s = record s { ring = s.info.ring; sem = sem_post s.sem }
