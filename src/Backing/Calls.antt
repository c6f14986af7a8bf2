-- ===== src/Backing/Calls.antt =====
-- The system's calls and `rbtrace_write_header`, where nothing fails and where something does.
use rbtrace.Base.{
  subst, ℕ, ◌≡◌, ◌≢◌, refl, ap, ◌∙◌, Bool, true, false, Option, none, some, List, [], ◌∷◌,
  if◌then◌else◌, arith,
}
use rbtrace.Trace.{RingConfig}
use rbtrace.Disk.{File, written, safe_pwrite}
use rbtrace.Disk.Write.{NoFailure, safe_pwrite_all}
use rbtrace.Header.{Clock, format_header, header_byte, header_size}
use rbtrace.Ring.Flags.{disk, opened}
use rbtrace.Wire.{record_bytes}
use rbtrace.Backing.{
  buffer_base, buffer_bytes, is_wrapping, positioned, buffer_result, write_buffer, write_header,
  chosen_path, header_opened, header_result, header_failed,
}
use rbtrace.Backing.State.{
  Os, Daemon, set_flag, on_fd, path_eq, or_empty, file_at, put_file, open_at, os_open, os_pwrite,
}

-- The answers still to come to `open` are successes.
abbrev pub NoOpenFailure : List (Option ℕ) → Type 0
NoOpenFailure [] = Unit
NoOpenFailure (none ∷ os) = NoOpenFailure os
NoOpenFailure (some e ∷ os) = ⊥

-- No call of the system fails otherwise than by an interruption.
pub record IsGood (os : Os) : Type 0 where
  pub opens : NoOpenFailure os.opens
  pub writes : NoFailure os.writes

pub path_eq_refl : (p : List ℕ) → path_eq p p ≡ true
path_eq_refl [] = refl
path_eq_refl (x ∷ xs) = ground (arith, path_eq_refl xs)

-- The file at `path` is `f` now, and no other file has changed.
pub record OneFile (path : List ℕ) (f : File) (before after : Os) : Type 0 where
  pub here : file_at path after ≡ f
  pub there : (p : List ℕ) → path_eq path p ≡ false → after.files p ≡ before.files p

put_file-OneFile :
    (path : List ℕ) (f g : File) (os os' : Os)
    → f ≡ g
    → os'.files ≡ os.files
    → OneFile path g os (put_file path f os')
put_file-OneFile path f g os os' e same = record {
  here = ap (λ b. or_empty (if b then some f else os'.files path)) (path_eq_refl path) ∙ e;
  there = λ p q. rw q (ap (λ (h : List ℕ → Option File). h p) same);
}

-- A change of the file at `path` after a step that changed nothing in it.
OneFile-after :
    (path : List ℕ) (k : File → File) (a b c : Os)
    → OneFile path (file_at path a) a b
    → OneFile path (k (file_at path b)) b c
    → OneFile path (k (file_at path a)) a c
OneFile-after path k a b c u v = record {
  here = v.here ∙ ap k u.here;
  there = λ p e. v.there p e ∙ u.there p e;
}

-- A write to a file of a good system succeeds, and changes that file alone.
pub os_pwrite-IsGood :
    (path : List ℕ) (buf : ℕ → ℕ) (n off : ℕ) (d : Daemon)
    → IsGood d.os
    → (os : Os) × (os_pwrite path buf n off d ≡ (none, record d { os = os }))
      × IsGood os
      × OneFile path (written (file_at path d.os) buf n off) d.os os
unfolding os_pwrite
os_pwrite-IsGood path buf n off d g =
    let w = safe_pwrite d.os.writes buf n off (file_at path d.os) in
    let (rc, file, rest) = safe_pwrite_all d.os.writes buf n off (file_at path d.os) g.writes in
    let os = put_file path w.file (record d.os { writes = w.rest }) in
    (
      os,
      ap (λ r. (r, record d { os = os })) rc,
      record { opens = g.opens; writes = rest },
      put_file-OneFile path w.file _ d.os (record d.os { writes = w.rest }) file refl,
    )

-- An `open` of a path that is not empty succeeds in a good system.
module _ (c : ℕ) (cs : List ℕ) (d : Daemon) where
  open_with :
      (answers : List (Option ℕ))
      → d.os.opens ≡ answers
      → NoOpenFailure answers
      → (rest : List (Option ℕ)) × (os_open (c ∷ cs) d ≡ open_at (c ∷ cs) rest d)
        × NoOpenFailure rest
  unfolding os_open
  open_with [] e g = ([], rw (e, os_open), tt)
  open_with (none ∷ rest) e g = (rest, rw (e, os_open), g)
  open_with (some n ∷ rest) e g = absurd g

pub os_open-IsGood :
    (path : List ℕ) (d : Daemon)
    → path ≢ []
    → IsGood d.os
    → (rest : List (Option ℕ)) × (os_open path d ≡ open_at path rest d) × NoOpenFailure rest
os_open-IsGood [] d h g = absurd (h refl)
os_open-IsGood (c ∷ cs) d h g = open_with c cs d d.os.opens refl g.opens

-- What a successful `rbtrace_write_header` leaves.
abbrev pub header_done : RingConfig → Clock → Os → Daemon → Daemon
header_done cfg t os d = set_flag opened false (
    set_flag disk true (record d {
      fd = some (chosen_path t d);
      seek = header_size;
      hdr = format_header cfg t;
      os = os;
    }))

pub write_header-IsGood :
    (cfg : RingConfig) (t : Clock) (d : Daemon)
    → d.fd ≡ none
    → chosen_path t d ≢ []
    → IsGood d.os
    → (os : Os) × (write_header cfg t d ≡ header_done cfg t os d)
      × IsGood os
      × OneFile
          (chosen_path t d)
          (written
            (file_at (chosen_path t d) d.os)
            (header_byte (format_header cfg t))
            header_size
            0)
          d.os
          os
unfolding write_header
write_header-IsGood cfg t d closed named g =
    let path = chosen_path t d in
    let h = format_header cfg t in
    let (rest, opens, good) = os_open-IsGood path d named g in
    let d1 = open_at path rest d in
    let d2 = record d1 { hdr = h } in
    let (os, wrote, good', one) =
      os_pwrite-IsGood path (header_byte h) header_size 0 d2
        (record { opens = good; writes = g.writes }) in
    (
      os,
      ap (λ o. on_fd o (header_opened cfg t (os_open path d)) (λ p. header_failed d)) closed
          ∙ ap (header_opened cfg t) opens
          ∙ ap header_result wrote,
      good',
      OneFile-after path (λ f. written f (header_byte h) header_size 0) d.os d1.os os
          (put_file-OneFile path (file_at path d.os) (file_at path d.os) d.os
            (record d.os { opens = rest }) refl refl)
          one,
    )

os-positioned : (n : ℕ) (d : Daemon) → (positioned n d).os ≡ d.os
os-positioned n d = ground arith

pub shm-positioned : (n : ℕ) (d : Daemon) → (positioned n d).shm ≡ d.shm
shm-positioned n d = ground arith

pub fd-positioned : (n : ℕ) (d : Daemon) → (positioned n d).fd ≡ d.fd
fd-positioned n d = ground arith

-- In a good system `rbtrace_write_data` writes its buffer whole.
pub write_buffer-IsGood :
    (cfg : RingConfig) (t : Clock) (active : Bool) (path : List ℕ) (d : Daemon)
    → IsGood d.os
    → let base = buffer_base active d.shm in
      let n = buffer_bytes cfg active d.shm in
      (os : Os) × (write_buffer cfg t active path d
        ≡ buffer_result cfg t base n (is_wrapping d) (none, record (positioned n d) { os = os }))
      × IsGood os
      × OneFile path
          (written (file_at path d.os) (record_bytes d.shm.mem base) n (positioned n d).seek)
          d.os
          os
unfolding write_buffer
write_buffer-IsGood cfg t active path d g =
    let base = buffer_base active d.shm in
    let n = buffer_bytes cfg active d.shm in
    let (os, wrote, good, one) =
      os_pwrite-IsGood path (record_bytes d.shm.mem base) n (positioned n d).seek (positioned n d)
        (rw (os-positioned n d) g) in
    (
      os,
      ap (buffer_result cfg t base n (is_wrapping d)) wrote,
      good,
      subst
          (λ o.
            OneFile path
              (written (file_at path o) (record_bytes d.shm.mem base) n (positioned n d).seek) o os)
          (os-positioned n d) one,
    )
