-- ===== src/Parse/Accepted.antt =====
-- The header that the daemon writes, for the printing tool.
use rbtrace.Base.{ℕ, ◌≡◌, ◌≢◌, refl, true, none, []}
use rbtrace.Trace.{RingConfig}
use rbtrace.Header.{Clock, header_at}
use rbtrace.Header.Roundtrip.{Describes, IsFormattable}
use rbtrace.Backing.{write_header, chosen_path}
use rbtrace.Backing.State.{Daemon, file_at}
use rbtrace.Backing.Calls.{IsGood}
use rbtrace.Backing.Described.{write_header-Started}
use rbtrace.Parse.{accepts_header}

Describes-accepts :
    {cfg : RingConfig} {t : Clock} (m : ℕ → ℕ)
    → Describes cfg t m
    → accepts_header (header_at m) ≡ true
unfolding accepts_header
Describes-accepts m d = rw (d.magic, d.major, d.minor) refl

-- If no file is open and no call fails, the printing tool accepts the header that
-- `rbtrace_write_header` leaves in the file that it opens, for numbers that fit their fields and
-- texts that fit the header.
pub write_header-accepted :
    (cfg : RingConfig) (t : Clock) (d : Daemon)
    → d.fd ≡ none
    → chosen_path t d ≢ []
    → IsGood d.os
    → IsFormattable cfg t
    → accepts_header (header_at (file_at (chosen_path t d) (write_header cfg t d).os).byte) ≡ true
write_header-accepted cfg t d closed named g f =
    Describes-accepts {cfg = cfg} {t = t} (file_at (chosen_path t d) (write_header cfg t d).os).byte
      (write_header-Started cfg t d closed named g f).describes
