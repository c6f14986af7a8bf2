-- ===== src/Wire.antt =====
-- The layout of a trace record in memory and in a file: little-endian, 56 bytes.
pub mod Roundtrip
use rbtrace.Base.{
  ℕ, zero, suc, ◌+◌, ◌-◌, ◌*◌, ◌/◌, ◌%◌, ◌^◌, ◌<◌, ◌≡◌, refl, ltb, if◌then◌else◌, arith,
}
use rbtrace.Trace.{Entry}

-- Byte `i` of a number.
unfoldable pub le_byte : ℕ → ℕ → ℕ
le_byte n zero = n % 256
le_byte n (suc i) = le_byte (n / 256) i

-- The number in the `k` bytes from `at` on.
unfoldable pub le_read : ℕ → (ℕ → ℕ) → ℕ → ℕ
le_read zero m at = 0
le_read (suc k) m at = m at + 256 * le_read k m (at + 1)

-- The word of the bit fields: `cpuid` from bit 0, `thread` from bit 8, `traceid` from bit 26.
abbrev pub pack_word : Entry → ℕ
pack_word e = e.cpuid + e.thread * 2 ^ 8 + e.traceid * 2 ^ 26

-- Byte `i` of a record. The last four are padding.
unfoldable pub entry_byte : Entry → ℕ → ℕ
entry_byte e i =
    if ltb i 8
    then le_byte e.a0 i
    else if ltb i 16
    then le_byte e.a1 (i - 8)
    else if ltb i 24
    then le_byte e.a2 (i - 16)
    else if ltb i 32
    then le_byte e.a3 (i - 24)
    else if ltb i 40
    then le_byte e.sec (i - 32)
    else if ltb i 48
    then le_byte e.nsec (i - 40)
    else if ltb i 52
    then le_byte (pack_word e) (i - 48)
    else 0

-- The record at an offset of a byte sequence.
unfoldable pub entry_at : (ℕ → ℕ) → ℕ → Entry
entry_at m at =
    let w = le_read 4 m (at + 48) in
    record {
      a0 = le_read 8 m at;
      a1 = le_read 8 m (at + 8);
      a2 = le_read 8 m (at + 16);
      a3 = le_read 8 m (at + 24);
      sec = le_read 8 m (at + 32);
      nsec = le_read 8 m (at + 40);
      cpuid = w % 2 ^ 8;
      thread = w / 2 ^ 8 % 2 ^ 18;
      traceid = w / 2 ^ 26 % 2 ^ 6;
    }

-- Every field fits its width.
pub record Fits (e : Entry) : Type 0 where
  pub a0 : e.a0 < 2 ^ 64
  pub a1 : e.a1 < 2 ^ 64
  pub a2 : e.a2 < 2 ^ 64
  pub a3 : e.a3 < 2 ^ 64
  pub sec : e.sec < 2 ^ 64
  pub nsec : e.nsec < 2 ^ 64
  pub cpuid : e.cpuid < 2 ^ 8
  pub thread : e.thread < 2 ^ 18
  pub traceid : e.traceid < 2 ^ 6

-- The bytes of records in memory, from record `off` on.
unfoldable pub record_bytes : (ℕ → Entry) → ℕ → ℕ → ℕ
unfolding entry_byte
record_bytes mem off i = entry_byte (mem (off + i / 56)) (i % 56)
