-- ===== src/Control.antt =====
-- The control operations, rbtrace_backing.c: `rbtrace_ctrl` and the handlers of `rbt_ops`. A null
-- `argp` is `none`; a result of 0 is `true`, -1 is `false`.
pub mod Traffic
use rbtrace.Base.{
  ℕ, ◌-◌, ◌^◌, Bool, true, false, not, ◌||◌, Option, none, some, List, leb, if◌then◌else◌, length,
  bit_and, bit_or, minus_one, take,
}
use rbtrace.Trace.{RingConfig, entry_size, ring_max}
use rbtrace.Ring.State.{Flags, Shm, signal_thread}
use rbtrace.Ring.Flags.{Flag, put, disk, opened, wrap, zap, closed, flushed}

abbrev pub max_path : ℕ
max_path = 1024

abbrev pub max_name : ℕ
max_name = 64

abbrev pub max_desc : ℕ
max_desc = 128

-- `struct rbtrace_op_info_arg`
pub record Info : Type 0 where
  pub ring_name : List ℕ
  pub ring_desc : List ℕ
  pub file_path : List ℕ
  pub flags : Flags
  pub tflags : ℕ
  pub file_size : ℕ
  pub trace_entry_size : ℕ

-- `rbtrace_op_t` with its argument; `other` is a number from RBTRACE_OP_MAX on.
pub data Op : Type 0 where
  open_file : Option (List ℕ) → Op
  close_file : Op
  set_size : Option ℕ → Op
  set_wrap : Option Bool → Op
  set_zap : Option Bool → Op
  set_tflags : Option (Bool × ℕ) → Op
  get_info : Bool → Op
  other : Op

abbrev pub put_flag : Flag → Bool → Shm → Shm
put_flag k b s = record s { info = record s.info { flags = put k b s.info.flags } }

-- `rbtrace_ctrl_open`
unfoldable pub ctrl_open : Option (List ℕ) → Shm → Bool × Shm
unfolding signal_thread
ctrl_open none s = (false, s)
ctrl_open (some path) s =
    if s.info.flags.do_open || s.info.flags.do_disk
    then (false, s)
    else if leb max_path (length path)
    then (false, s)
    else (let s1 = record s {
      info = record s.info { file_path = path; slot = minus_one; flush = 0; lost = 0 };
    } in
        (true, signal_thread (put_flag opened true s1)))

-- `rbtrace_ctrl_close`
unfoldable pub ctrl_close : Shm → Bool × Shm
unfolding signal_thread
ctrl_close s =
    if s.info.flags.do_disk
    then (
      true,
      signal_thread (put_flag closed true (put_flag flushed true (put_flag disk false s))),
    )
    else (false, s)

-- `rbtrace_ctrl_size`
unfoldable pub ctrl_size : Option ℕ → Shm → Bool × Shm
ctrl_size none s = (false, s)
ctrl_size (some n) s = (true, record s { fsize = n })

-- `rbtrace_ctrl_wrap`
unfoldable pub ctrl_wrap : Option Bool → Shm → Bool × Shm
ctrl_wrap none s = (false, s)
ctrl_wrap (some enable) s =
    if not s.info.flags.do_zap then (true, put_flag wrap enable s) else (false, s)

-- `rbtrace_ctrl_zap`
unfoldable pub ctrl_zap : Option Bool → Shm → Bool × Shm
ctrl_zap none s = (false, s)
ctrl_zap (some enable) s =
    if not s.info.flags.do_wrap then (true, put_flag zap enable s) else (false, s)

-- `rbtrace_ctrl_tflags`
unfoldable pub ctrl_tflags : Option (Bool × ℕ) → Shm → Bool × Shm
ctrl_tflags none s = (false, s)
ctrl_tflags (some (set, t)) s = (
  true,
  record s {
    info = record s.info {
      tflags = if set then bit_or s.info.tflags t else bit_and s.info.tflags (2 ^ 64 - 1 - t);
    };
  },
)

-- `rbtrace_ctrl_info`
unfoldable pub info_of : RingConfig → Shm → Info
info_of cfg s = record {
  ring_name = take (max_name - 1) cfg.name;
  ring_desc = take (max_desc - 1) cfg.desc;
  file_path = s.info.file_path;
  flags = s.info.flags;
  tflags = s.info.tflags;
  file_size = s.fsize;
  trace_entry_size = entry_size;
}

-- The entry of `rbt_ops`, for the ring's `ri`. `get_info` says whether there is a buffer; what it
-- is filled with is `info_of`.
unfoldable pub handler : Op → Shm → Bool × Shm
unfolding ctrl_open ctrl_close ctrl_size ctrl_wrap ctrl_zap ctrl_tflags
handler (open_file a) s = ctrl_open a s
handler close_file s = ctrl_close s
handler (set_size a) s = ctrl_size a s
handler (set_wrap a) s = ctrl_wrap a s
handler (set_zap a) s = ctrl_zap a s
handler (set_tflags a) s = ctrl_tflags a s
handler (get_info there) s = (there, s)
handler other s = (true, s)

-- `rbtrace_ctrl`: a ring or an operation out of range is reported, and the result is 0.
unfoldable pub ctrl : ℕ → Op → Shm → Bool × Shm
unfolding handler
ctrl ring op s = if leb ring_max ring then (true, s) else handler op s
