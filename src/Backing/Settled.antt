-- ===== src/Backing/Settled.antt =====
-- `rbtrace_write_data` below the limit of the file size, where nothing fails, as one equation.
use rbtrace.Base.{
  ℕ, zero, suc, false≢true, ◌+◌, ◌-◌, ◌≤◌, ◌<◌, ◌≡◌, refl, ap, ◌∙◌, subst, sym, Bool, true, false,
  Option, some, List, leb, if◌then◌else◌, inr, ◌⊎◌, u64, arith,
}
use rbtrace.Trace.{RingConfig}
use rbtrace.Disk.{File, written}
use rbtrace.Disk.Bytes.{
  byte-written_inside, byte-written_outside, le-size-written, end-le-size-written,
}
use rbtrace.Header.{Header, Clock, header_byte, header_size}
use rbtrace.Wire.{record_bytes}
use rbtrace.Ring.State.{Shm}
use rbtrace.Backing.{
  at_limit, buffer_base, buffer_bytes, buffer_cleared, buffer_result, header_updated, is_wrapping,
  positioned, write_buffer,
}
use rbtrace.Backing.State.{Os, Daemon, file_at, on_fd, os_pwrite}
use rbtrace.Backing.Calls.{
  IsGood, os_pwrite-IsGood, write_buffer-IsGood, shm-positioned, fd-positioned,
}

-- The file after the header was written over, or not.
record Headed (wrapped : Bool) (h : Header) (f g : File) : Type 0 where
  body : (i : ℕ) → header_size ≤ i → i < f.size → g.byte i ≡ f.byte i
  head : wrapped ≡ true → (i : ℕ) → i < header_size → g.byte i ≡ header_byte h i
  long : wrapped ≡ false → g.size ≡ f.size

module _ (path : List ℕ) (d : Daemon) (opened : d.fd ≡ some path) (g : IsGood d.os) where
  header_updated-IsGood :
      (u : Bool)
      → (os : Os) × (header_updated (u, d) ≡ record d { os = os })
        × IsGood os
        × Headed u d.hdr (file_at path d.os) (file_at path os)
  header_updated-IsGood false = (
    d.os,
    refl,
    g,
    record { body = λ i p q. refl; head = λ h i p. ground arith; long = λ h. refl },
  )
  header_updated-IsGood true =
      let (os, wrote, good, one) = os_pwrite-IsGood path (header_byte d.hdr) header_size 0 d g in
      (
        os,
        ap (λ o. on_fd o d (λ p. (os_pwrite p (header_byte d.hdr) header_size 0 d).1)) opened
            ∙ ap (λ (r : Option ℕ × Daemon). r.1) wrote,
        good,
        record {
          body = λ i p q.
              ap (λ (f : File). f.byte i) one.here
              ∙ byte-written_outside (file_at path d.os) (header_byte d.hdr) 512 0 i q (inr p);
          head = λ h i p.
              ap (λ (f : File). f.byte i) one.here
              ∙ byte-written_inside (file_at path d.os) (header_byte d.hdr) 512 0 i (omega arith)
                  (omega arith)
              ∙ ap (header_byte d.hdr) {x = i - 0} {y = i} (omega arith);
          long = λ h. absurd (false≢true (sym h));
        },
      )

-- The file `g` after `n` bytes of `buf` were written to `f` at `off`, behind the header, and the
-- header over again if the file has wrapped round.
pub record Appended (buf : ℕ → ℕ) (n off : ℕ) (wrapped : Bool) (h : Header) (f g : File)
    : Type 0 where
  pub inside : (i : ℕ) → header_size ≤ i → off ≤ i → i < off + n → g.byte i ≡ buf (i - off)
  pub outside :
      (i : ℕ) → header_size ≤ i → i < f.size → (i < off) ⊎ (off + n ≤ i) → g.byte i ≡ f.byte i
  pub head : wrapped ≡ true → (i : ℕ) → i < header_size → g.byte i ≡ header_byte h i
  pub long : wrapped ≡ false → off ≡ f.size → g.size ≡ off + n

size-written_end :
    (f : File) (buf : ℕ → ℕ) (n off : ℕ) → off ≡ f.size → (written f buf n off).size ≡ off + n
size-written_end f buf zero off e = omega (arith, e)
size-written_end f buf (suc n) off e = omega (arith, e)

module _ (cfg : RingConfig) (t : Clock) (active : Bool) (path : List ℕ) (d : Daemon)
    (opened : d.fd ≡ some path) (g : IsGood d.os) where
  abbrev base : ℕ
  base = buffer_base active d.shm

  abbrev bytes : ℕ
  bytes = buffer_bytes cfg active d.shm

  abbrev from : ℕ
  from = (positioned bytes d).seek

  -- Below the limit the buffer is written, cleared, and the offset moves on; a wrapped file gets
  -- its new header.
  pub write_buffer_settled :
      leb d.shm.fsize (u64 (from + bytes)) ≡ false
      → (os : Os) × (write_buffer cfg t active path d
          ≡ record (buffer_cleared base bytes (positioned bytes d)) { os = os })
        × IsGood os
        × Appended
            (record_bytes d.shm.mem base)
            bytes
            from
            (is_wrapping d)
            (positioned bytes d).hdr
            (file_at path d.os)
            (file_at path os)
  unfolding buffer_result
  write_buffer_settled below =
      let (os1, wrote, good1, one) = write_buffer-IsGood cfg t active path d g in
      let d1 = buffer_cleared base bytes (record (positioned bytes d) { os = os1 }) in
      let (os2, headed, good2, h) =
        header_updated-IsGood path d1 (fd-positioned bytes d ∙ opened) good1 (is_wrapping d) in
      let under : leb d1.shm.fsize d1.seek ≡ false =
        ap (λ (s : Shm). leb s.fsize (u64 (from + bytes))) (shm-positioned bytes d) ∙ below in
      (
        os2,
        wrote
            ∙ ap
                (λ (b : Bool).
                  header_updated
                    (if b then at_limit cfg t (is_wrapping d) d1 else (is_wrapping d, d1)))
                under
            ∙ headed,
        good2,
        record {
          inside = λ i p q r.
              h.body i p (
                subst (λ (f : File). i < f.size) (sym one.here)
                  (end-le-size-written (file_at path d.os) (record_bytes d.shm.mem base) bytes from
                    i q r))
              ∙ ap (λ (f : File). f.byte i) one.here
              ∙ byte-written_inside (file_at path d.os) (record_bytes d.shm.mem base) bytes from i q
                  r;
          outside = λ i p q r.
              h.body i p (
                subst (λ (f : File). i < f.size) (sym one.here)
                  (omega (
                    arith,
                    le-size-written (file_at path d.os) (record_bytes d.shm.mem base) bytes from,
                  )))
              ∙ ap (λ (f : File). f.byte i) one.here
              ∙ byte-written_outside (file_at path d.os) (record_bytes d.shm.mem base) bytes from i
                  q r;
          head = h.head;
          long = λ w e.
              h.long w
              ∙ ap (λ (f : File). f.size) one.here
              ∙ size-written_end (file_at path d.os) (record_bytes d.shm.mem base) bytes from e;
        },
      )
