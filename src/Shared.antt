-- ===== src/Shared.antt =====
-- The shared memory and the semaphore of a process, rbtrace.c: the sizes, `rbt_globals`,
-- `rbtrace_globals_init`, `rbtrace_globals_cleanup`, `rbtrace_init` and `rbtrace_exit`.
pub mod Calls
pub mod Leaks
pub mod Start
pub mod Release
pub mod Layout
pub mod Started
use rbtrace.Base.{
  ℕ, ◌+◌, ◌-◌, ◌*◌, Bool, true, false, List, [], ◌∷◌, Option, none, some, u32, u64, if◌then◌else◌,
}
use rbtrace.Trace.{RingConfig, entry_size, ring_max, io_cfg}

-- `rbtrace_calc_ring_size`
abbrev pub calc_ring_size : RingConfig → ℕ
calc_ring_size cfg = u64 (u64 (cfg.size * entry_size) * 2)

-- `sizeof(struct ring_info)`: 1024 bytes of path, the ring, two flags words from byte 1032 on, five
-- `int`, and the padding.
abbrev pub ring_info_size : ℕ
ring_info_size = 1072

-- The sum over the configurations.
abbrev pub rings_size : List RingConfig → ℕ
rings_size [] = 0
rings_size (cfg ∷ cfgs) = u64 (calc_ring_size cfg + rings_size cfgs)

-- `rbtrace_calc_shm_size`: `*fsize_ptr` takes 8 bytes, `*ring_ptr` 4.
abbrev pub calc_shm_size : List RingConfig → ℕ
calc_shm_size cfgs = u64 (8 + 4 + rings_size cfgs + ring_max * ring_info_size)

-- A pointer: NULL, the failure value of `mmap` and of `sem_open`, or an address.
pub data Ptr : Type 0 where
  null : Ptr
  invalid : Ptr
  address : ℕ → Ptr

-- `struct rbtrace_global_data`. A descriptor of -1 is `none`.
pub record Globals : Type 0 where
  pub inited : Bool
  pub shm_fd : Option ℕ
  pub shm_size : ℕ
  pub shm_base : Ptr
  pub sem_ptr : Ptr
  pub fsize_ptr : Ptr
  pub ring_ptr : Ptr
  pub ri_ptr : Ptr
  pub re_base : Ptr

-- `rbt_globals` at the start.
abbrev pub blank_globals : Globals
blank_globals = record {
  inited = false;
  shm_fd = none;
  shm_size = 0;
  shm_base = invalid;
  sem_ptr = invalid;
  fsize_ptr = null;
  ring_ptr = null;
  ri_ptr = null;
  re_base = null;
}

-- `rbtrace_globals_init`. The fields follow one another, as they are, from the base on.
unfoldable pub globals_init : ℕ → ℕ → ℕ → ℕ → Globals
globals_init fd base size sem = record {
  inited = true;
  shm_fd = some fd;
  shm_size = size;
  shm_base = address base;
  sem_ptr = address sem;
  fsize_ptr = address base;
  ring_ptr = address (base + 8);
  ri_ptr = address (base + (8 + 4));
  re_base = address (base + (8 + 4 + ring_info_size * ring_max));
}

-- What a process holds of the system: open descriptors and semaphores, and mappings; and whether
-- the names of the shared memory and of the semaphore are there, and `rbt_thread.sem` is initialised.
pub record Held : Type 0 where
  pub fds : List ℕ
  pub maps : List (ℕ × ℕ)
  pub sems : List ℕ
  pub shm_name : Bool
  pub sem_name : Bool
  pub thread_sem : Bool

-- What a call of the system returns: a value, or the error.
pub data Reply : Type 0 where
  returned : ℕ → Reply
  refused : (errno : ℕ) → Reply

-- A process. `replies` is what the system will return to the calls that can fail; when they are
-- used up, the calls return 3.
pub record Process : Type 0 where
  pub globals : Globals
  pub held : Held
  pub replies : List Reply

abbrev pub reply_of : List Reply → Reply
reply_of [] = returned 3
reply_of (r ∷ rs) = r

abbrev pub rest_of : List Reply → List Reply
rest_of [] = []
rest_of (r ∷ rs) = rs

-- A call that can fail: its reply, and the process with that used up.
abbrev pub ask : Process → Reply × Process
ask p = (reply_of p.replies, record p { replies = rest_of p.replies })

-- Remove one occurrence.
abbrev pub drop_one : {A : Type 0} → (A → Bool) → List A → List A
drop_one same [] = []
drop_one same (x ∷ xs) = if same x then xs else x ∷ drop_one same xs
