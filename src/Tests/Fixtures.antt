-- ===== src/Tests/Fixtures.antt =====
-- A ring of two records per buffer, and a daemon for it.
use rbtrace.Base.{ℕ, [], ◌∷◌, none, some, true, minus_one, ltb, if◌then◌else◌}
use rbtrace.Text.{codes}
use rbtrace.Trace.{Args, Stamp, RingConfig, Entry, zero_entry, stamped, filled, io_cfg}
use rbtrace.Disk.{Answer}
use rbtrace.Header.{Clock, blank_header}
use rbtrace.Ring.{Stamps}
use rbtrace.Ring.State.{Shm, no_flags}
use rbtrace.Backing.State.{Os, Daemon}
use rbtrace.Backing.Thread.{Env}

abbrev pub small_cfg : RingConfig
small_cfg = record io_cfg { size = 2; data_size = 112 }

abbrev pub some_stamp : Stamp
some_stamp = record { sec = 7; nsec = 8; cpu = 300; tid = 5 }

abbrev pub some_stamps : Stamps
some_stamps = record { own = some_stamp; lost = some_stamp }

abbrev pub call_of : ℕ → Args
call_of n = record { traceid = 2; a0 = n; a1 = 0; a2 = 0; a3 = 9 }

abbrev pub record_of : ℕ → Entry
record_of n = filled (call_of n) (stamped some_stamp zero_entry)

abbrev pub empty_ring : Shm
empty_ring = record {
  fsize = 2000;
  ring = 1;
  info = record {
    file_path = codes "t";
    ring = 0;
    flags = no_flags;
    tflags = 0;
    cir_off = 0;
    alt_off = 2;
    slot = minus_one;
    flush = 0;
    lost = 0;
  };
  mem = λ _. zero_entry;
  sem = 0;
}

-- Both records of the first buffer are taken, and records were lost.
abbrev pub full_ring : Shm
full_ring = record empty_ring {
  info = record empty_ring.info { slot = 1; lost = 3 };
  mem = λ j. if ltb j 2 then record_of j else zero_entry;
}

-- The first buffer waits for the daemon, one flush beside it was turned away, and the second
-- holds one record.
abbrev pub waiting_ring : Shm
waiting_ring = record empty_ring {
  info = record empty_ring.info {
    flags = record no_flags { do_disk = true };
    cir_off = 2;
    alt_off = 0;
    slot = 0;
    flush = 2;
  };
  ring = 0;
  mem = λ j. if ltb j 3 then record_of j else zero_entry;
}

abbrev pub quiet_os : Os
quiet_os = record {
  files = λ _. none;
  opens = [];
  writes = Answer.interrupted ∷ Answer.wrote 3 ∷ [];
}

abbrev pub some_clock : Clock
some_clock = record {
  sec = 100;
  nsec = 200;
  gmtoff = 3600;
  zone = codes "CET";
  mon = 1;
  mday = 2;
  hour = 3;
  min = 4;
  tm_sec = 5;
}

abbrev pub some_env : Env
some_env = record { clock = some_clock; first = some_stamps; second = some_stamps }

-- The daemon writes the ring to the file "t", and stands behind the header.
abbrev pub daemon_of : Shm → Daemon
daemon_of s = record {
  shm = s;
  fd = some (codes "t");
  seek = 512;
  hdr = blank_header;
  total_buffers = 0;
  os = quiet_os;
}
