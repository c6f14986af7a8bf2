-- ===== src/Backing/Described.antt =====
-- What a successful `rbtrace_write_header` leaves in the file, for a reader.
use rbtrace.Base.{ℕ, ◌-◌, ◌≡◌, ◌≢◌, refl, ap, ◌∙◌, true, false, none, some, List, [], arith}
use rbtrace.Trace.{RingConfig}
use rbtrace.Disk.{File}
use rbtrace.Disk.Bytes.{byte-written_inside}
use rbtrace.Header.{Clock, format_header, header_byte, header_size}
use rbtrace.Header.Roundtrip.{Describes, IsFormattable, header_at-format}
use rbtrace.Backing.{write_header, chosen_path}
use rbtrace.Backing.State.{Daemon, file_at}
use rbtrace.Backing.Calls.{IsGood, write_header-IsGood}

-- The trace file at `path` is open, its header describes the ring, and the next record goes behind
-- the header; the request to open is served.
pub record Started (cfg : RingConfig) (t : Clock) (path : List ℕ) (d : Daemon) : Type 0 where
  pub describes : Describes cfg t (file_at path d.os).byte
  pub descriptor : d.fd ≡ some path
  pub offset : d.seek ≡ header_size
  pub to_disk : d.shm.info.flags.do_disk ≡ true
  pub asked : d.shm.info.flags.do_open ≡ false

-- If no file is open and no call fails, `rbtrace_write_header` opens the file of the ring, or one
-- with a name of its own for a zap, and writes a header from which a reader gets back the magic,
-- the version, the sizes, the time, no wrap position, and the texts of the time zone, the name and
-- the description, for numbers that fit their fields and texts that fit the header.
pub write_header-Started :
    (cfg : RingConfig) (t : Clock) (d : Daemon)
    → d.fd ≡ none
    → chosen_path t d ≢ []
    → IsGood d.os
    → IsFormattable cfg t
    → Started cfg t (chosen_path t d) (write_header cfg t d)
write_header-Started cfg t d closed named g f =
    let path = chosen_path t d in
    let (os, done, good, one) = write_header-IsGood cfg t d closed named g in
    rw done (record {
      describes = header_at-format cfg t f (file_at path os).byte λ i p.
          ap (λ (g : File). g.byte i) one.here
          ∙ byte-written_inside (file_at path d.os) (header_byte (format_header cfg t)) 512 0 i
              (omega arith) (omega arith)
          ∙ ap (header_byte (format_header cfg t)) {x = i - 0} {y = i} (omega arith);
      descriptor = refl;
      offset = refl;
      to_disk = refl;
      asked = refl;
    })
