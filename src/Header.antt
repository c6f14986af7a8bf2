-- ===== src/Header.antt =====
-- The trace file header of include/rbtracedef.h, and `rbtrace_format_header` of
-- rbtrace_backing.c.
pub mod Roundtrip
use rbtrace.Base.{
  ℕ, zero, suc, ◌+◌, ◌-◌, List, [], ◌∷◌, ltb, leb, ◌==◌, if◌then◌else◌, length, get_or, update,
}
use rbtrace.Text.{header_magic}
use rbtrace.Trace.{RingConfig}
use rbtrace.Wire.{le_byte, le_read}

-- `struct rbtrace_fheader` takes 80 bytes, the last four of them padding; the padded header 512.
abbrev pub fheader_size : ℕ
fheader_size = 80

abbrev pub header_size : ℕ
header_size = 512

-- `union padded_rbtrace_fheader`: the fields, and the bytes behind the structure, by offset. The
-- magic is the text in `magic[8]`, up to its end.
pub record Header : Type 0 where
  pub magic : List ℕ
  pub major : ℕ
  pub minor : ℕ
  pub ring : ℕ
  pub wrap_pos : ℕ
  pub hdr_size : ℕ
  pub nr_records : ℕ
  pub sec : ℕ
  pub nsec : ℕ
  pub gmtoff : ℕ
  pub tz_off : ℕ
  pub name_off : ℕ
  pub desc_off : ℕ
  pub pad : ℕ → ℕ

-- What `clock_gettime` and `localtime` return. `gmtoff` is its 64-bit pattern.
pub record Clock : Type 0 where
  pub sec : ℕ
  pub nsec : ℕ
  pub gmtoff : ℕ
  pub zone : List ℕ
  pub mon : ℕ
  pub mday : ℕ
  pub hour : ℕ
  pub min : ℕ
  pub tm_sec : ℕ

-- The static `rbt_hdrs` at the start.
abbrev pub blank_header : Header
blank_header = record {
  magic = [];
  major = 0;
  minor = 0;
  ring = 0;
  wrap_pos = 0;
  hdr_size = 0;
  nr_records = 0;
  sec = 0;
  nsec = 0;
  gmtoff = 0;
  tz_off = 0;
  name_off = 0;
  desc_off = 0;
  pad = λ _. 0;
}

abbrev pub version_major : ℕ
version_major = 1

abbrev pub version_minor : ℕ
version_minor = 0

-- `strcpy`: the bytes of the text, and a zero behind them.
unfoldable pub put_text : List ℕ → ℕ → (ℕ → ℕ) → ℕ → ℕ
put_text [] at m = update m at 0
put_text (c ∷ cs) at m = put_text cs (at + 1) (update m at c)

-- `rbtrace_format_header`: the texts stand behind the structure, one after another.
unfoldable pub format_header : RingConfig → Clock → Header
unfolding put_text
format_header cfg t =
    let tz_off = fheader_size in
    let name_off = tz_off + (length t.zone + 1) in
    let desc_off = name_off + (length cfg.name + 1) in
    record {
      magic = header_magic;
      major = version_major;
      minor = version_minor;
      ring = cfg.ring;
      wrap_pos = 0;
      hdr_size = header_size;
      nr_records = cfg.size;
      sec = t.sec;
      nsec = t.nsec;
      gmtoff = t.gmtoff;
      tz_off = tz_off;
      name_off = name_off;
      desc_off = desc_off;
      pad =
          put_text cfg.desc desc_off (put_text cfg.name name_off (put_text t.zone tz_off (λ _. 0)));
    }

-- Byte `i` of the padded header.
unfoldable pub header_byte : Header → ℕ → ℕ
header_byte h i =
    if ltb i 8
    then get_or h.magic i 0
    else if ltb i 10
    then le_byte h.major (i - 8)
    else if ltb i 12
    then le_byte h.minor (i - 10)
    else if ltb i 16
    then le_byte h.ring (i - 12)
    else if ltb i 24
    then le_byte h.wrap_pos (i - 16)
    else if ltb i 32
    then le_byte h.hdr_size (i - 24)
    else if ltb i 40
    then le_byte h.nr_records (i - 32)
    else if ltb i 48
    then le_byte h.sec (i - 40)
    else if ltb i 56
    then le_byte h.nsec (i - 48)
    else if ltb i 64
    then le_byte h.gmtoff (i - 56)
    else if ltb i 68
    then le_byte h.tz_off (i - 64)
    else if ltb i 72
    then le_byte h.name_off (i - 68)
    else if ltb i 76
    then le_byte h.desc_off (i - 72)
    else if ltb i 80
    then 0
    else h.pad i

-- The text at an address, up to its terminating zero, looked for in the next `fuel` bytes.
unfoldable pub text_at : ℕ → (ℕ → ℕ) → ℕ → List ℕ
text_at zero m at = []
text_at (suc fuel) m at =
    let rest = text_at fuel m (at + 1) in if m at == 0 then [] else m at ∷ rest

-- The header in the first 512 bytes of a file.
unfoldable pub header_at : (ℕ → ℕ) → Header
unfolding text_at
header_at m = record {
  magic = text_at 8 m 0;
  major = le_read 2 m 8;
  minor = le_read 2 m 10;
  ring = le_read 4 m 12;
  wrap_pos = le_read 8 m 16;
  hdr_size = le_read 8 m 24;
  nr_records = le_read 8 m 32;
  sec = le_read 8 m 40;
  nsec = le_read 8 m 48;
  gmtoff = le_read 8 m 56;
  tz_off = le_read 4 m 64;
  name_off = le_read 4 m 68;
  desc_off = le_read 4 m 72;
  pad = m;
}
