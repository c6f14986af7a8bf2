-- ===== src/Lib.antt =====
-- rbtrace keeps trace records of a process in a ring buffer in shared memory. Clients call
-- `rbtrace` (rbtrace.c), which takes the next slot of the active one of two buffers. When that is
-- full, the client swaps the buffers and wakes the thread of the daemon (rbtrace_backing.c), which
-- appends the full buffer to the trace file. A control tool opens and closes the file and sets its
-- limits through `rbtrace_ctrl` (rbtrace_backing.c), by flags in the shared memory that the thread
-- serves.
--
-- Trace.antt, Text.antt: `struct rbtrace_entry`, `ring_cfgs` and the constants (include/rbtrace.h,
-- include/rbtracedef.h, rbtrace_private.h, rbtrace.c).
-- Ring.antt: `rbtrace_signal_thread`, `ringwrap_slot`, `ringwrap`, `rbtrace` and
-- `rbtrace_traffic_enabled` (rbtrace.c) as functions of the shared memory, `Shm`. Ring/Spec.antt
-- has what the double buffer promises.
-- Clients.antt: `rbtrace`, `ringwrap` and `ringwrap_slot` (rbtrace.c) by many threads at once.
-- Disk.antt: files, `pwrite` and `safe_pwrite` (rbtrace_backing.c).
-- Wire.antt: the bytes of a record. Header.antt: the trace file header, `rbtrace_format_header`.
-- Backing.antt: `rbtrace_write_header` and `rbtrace_write_data` (rbtrace_backing.c) on the state
-- `Daemon` of Backing/State.antt. Backing/Thread.antt: `rbtrace_thread_fn`.
-- Control.antt: `rbtrace_ctrl` and the handlers of `rbt_ops` (rbtrace_backing.c).
-- Shared.antt: `rbt_globals` and the sizes; Shared/Calls.antt: `rbtrace_init`, `rbtrace_exit` and
-- `rbtrace_globals_cleanup` (rbtrace.c); Shared/Start.antt: `rbtrace_daemon_init` and
-- `rbtrace_daemon_exit` (rbtrace_backing.c).
-- Parse.antt: `load_trace_page`, `parse_trace_file` and the test of the header in
-- `parse_trace_header` (prbt.c).
-- Printf.antt: the conversions of `printf`. Print.antt, Print/Describe.antt, Print/Main.antt: what
-- the printing tool writes, `trace_print_fn`, `parse_trace_header`, `print_trace_summary` and `main`
-- (prbt.c).
-- Tool.antt: the options and requests of `main` (rbt.c), and `str_to_tflags`
-- (include/rbtrace.h). Tool/Report.antt: the texts of `dump_ring_info` (rbt.c).
-- Server.antt: `main` and `create_pid_file` of rbtraced.c. Bench.antt: `do_bench` (rbtbench.c);
-- Bench/Main.antt: its `main`; Bench/Start.antt: `benchmark_thread` and the wait
-- for the start.
-- System.antt: traces, control operations and rounds of the daemon in any order.
--
-- Numbers are natural numbers; the `int` counters of the ring are kept as 32-bit patterns, and
-- every place where the code wraps says so (`u32`, `u64`). A text is the list of its bytes. A
-- descriptor is the path that was opened. What `open` and `pwrite` answer comes from a list in the
-- state, so every failure and every short write can be put there; what the clock, the CPU and the
-- thread id are comes as an argument. Where the code reads through a null pointer the model has
-- the outcome `segfault`.
--
-- A call of `rbtrace` can call `rbtrace` again to log lost traces. The model bounds the depth by 2:
-- the nested call is made behind a swap, with the flush count just raised to 1, and so finds room.
-- The loops of the printing tool have the size of the file plus 2 as fuel: each page has a byte at
-- least. The loops of `safe_pwrite` and of the thread run along the list of what the system answers.
--
-- System.antt runs a call of a client, a control operation and a round of the thread each without any
-- other in between. Clients.antt cuts the calls of `rbtrace` into steps, one for each access of the
-- shared memory, and lets the steps of any number of threads interleave, with the accesses of
-- `rbtrace_write_data` that they can meet. A schedule is a list of events; Clients/Alone.antt links
-- its steps to the calls of Ring.antt.
--
-- Not modelled: `update_coredump_filter`, the texts of usage and version, `daemonize` of
-- rbtraced.c, and the test programs.
pub mod Base
pub mod Text
pub mod Trace
pub mod Ring
pub mod Disk
pub mod Wire
pub mod Header
pub mod Backing
pub mod Clients
pub mod Control
pub mod System
pub mod Parse
pub mod Tool
pub mod Printf
pub mod Print
pub mod Shared
pub mod Server
pub mod Bench
mod Tests
