-- ===== src/Trace.antt =====
-- The trace record of include/rbtracedef.h, the identifiers of include/rbtrace.h, and the ring
-- configuration of rbtrace_private.h and rbtrace.c.
use rbtrace.Base.{ℕ, ◌*◌, ◌%◌, ◌^◌, List}
use rbtrace.Text.{io_name, io_desc}

-- `struct rbtrace_entry`
pub record Entry : Type 0 where
  pub a0 : ℕ
  pub a1 : ℕ
  pub a2 : ℕ
  pub a3 : ℕ
  pub sec : ℕ
  pub nsec : ℕ
  pub cpuid : ℕ
  pub thread : ℕ
  pub traceid : ℕ

-- The arguments of `rbtrace` after the ring.
pub record Args : Type 0 where
  pub traceid : ℕ
  pub a0 : ℕ
  pub a1 : ℕ
  pub a2 : ℕ
  pub a3 : ℕ

-- What `clock_gettime`, `sched_getcpu` and `gettid` return.
pub record Stamp : Type 0 where
  pub sec : ℕ
  pub nsec : ℕ
  pub cpu : ℕ
  pub tid : ℕ

abbrev pub entry_size : ℕ
entry_size = 56

abbrev pub rbt_null : ℕ
rbt_null = 0

abbrev pub rbt_lost : ℕ
rbt_lost = 1

abbrev pub rbt_traffic_test : ℕ
rbt_traffic_test = 2

abbrev pub rbt_traffic_last : ℕ
rbt_traffic_last = 3

abbrev pub ring_max : ℕ
ring_max = 1

-- What `memset` leaves.
abbrev pub zero_entry : Entry
zero_entry = record {
  a0 = 0;
  a1 = 0;
  a2 = 0;
  a3 = 0;
  sec = 0;
  nsec = 0;
  cpuid = 0;
  thread = 0;
  traceid = 0;
}

-- A record with the stamp put in: the bit fields keep 8 bits of the CPU (cast to 16 bits first)
-- and 18 bits of the thread.
abbrev pub stamped : Stamp → Entry → Entry
stamped t e = record e {
  sec = t.sec;
  nsec = t.nsec;
  cpuid = t.cpu % 2 ^ 16 % 2 ^ 8;
  thread = t.tid % 2 ^ 18;
}

-- A record with the caller's arguments put in: the trace id keeps 6 bits.
abbrev pub filled : Args → Entry → Entry
filled c e = record e { traceid = c.traceid % 2 ^ 6; a0 = c.a0; a1 = c.a1; a2 = c.a2; a3 = c.a3 }

-- `struct ring_config`; `rc_flags` is 0 in every configuration.
pub record RingConfig : Type 0 where
  pub ring : ℕ
  pub name : List ℕ
  pub desc : List ℕ
  pub size : ℕ
  pub data_size : ℕ

abbrev pub io_ring_size : ℕ
io_ring_size = 64 * 1024

-- The one entry of `ring_cfgs`.
abbrev pub io_cfg : RingConfig
io_cfg = record {
  ring = 0;
  name = io_name;
  desc = io_desc;
  size = io_ring_size;
  data_size = io_ring_size * entry_size;
}
