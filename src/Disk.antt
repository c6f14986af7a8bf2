-- ===== src/Disk.antt =====
-- Files as the daemon uses them: `pwrite`, and `safe_pwrite` of rbtrace_backing.c, which repeats it.
pub mod Write
pub mod Bytes
use rbtrace.Base.{
  ℕ, zero, suc, ◌+◌, ◌-◌, Bool, true, false, ◌&&◌, List, [], ◌∷◌, Option, none, some, ltb, leb,
  ◌==◌, if◌then◌else◌, min, max,
}

-- A file: its size, and the byte at each offset below it.
pub record File : Type 0 where
  pub size : ℕ
  pub byte : ℕ → ℕ

-- Byte `i` after `n` bytes of `buf` were written at `off`: a gap is filled with zeros.
abbrev pub byte_after : File → (ℕ → ℕ) → ℕ → ℕ → ℕ → ℕ
byte_after f buf n off i =
    if leb off i && ltb i (off + n) then buf (i - off) else if ltb i f.size then f.byte i else 0

-- The effect of a `pwrite` that writes `n` bytes of `buf` at `off`.
abbrev pub written : File → (ℕ → ℕ) → ℕ → ℕ → File
written f buf zero off = f
written f buf (suc n) off = record {
  size = max f.size (off + suc n);
  byte = byte_after f buf (suc n) off;
}

-- What the system answers to a `pwrite`: that many bytes were written, or an error.
pub data Answer : Type 0 where
  wrote : ℕ → Answer
  interrupted : Answer
  failed : (errno : ℕ) → Answer

-- `none` is the result 0, `some e` is `-errno`. `rest` are the answers not yet used up.
pub record Written : Type 0 where
  pub rc : Option ℕ
  pub file : File
  pub rest : List Answer

abbrev pub shift : (ℕ → ℕ) → ℕ → ℕ → ℕ
shift buf k i = buf (k + i)

-- `safe_pwrite`. The answers come from the system; when they are used up, it writes all that is
-- asked. A `pwrite` never writes more than it is asked.
unfoldable pub safe_pwrite : List Answer → (ℕ → ℕ) → ℕ → ℕ → File → Written
safe_pwrite [] buf count off f = record { rc = none; file = written f buf count off; rest = [] }
safe_pwrite (interrupted ∷ as') buf count off f =
    let more = safe_pwrite as' buf count off f in
    if count == 0 then (record { rc = none; file = f; rest = interrupted ∷ as' }) else more
safe_pwrite (failed e ∷ as') buf count off f =
    if count == 0
    then (record { rc = none; file = f; rest = failed e ∷ as' })
    else (record { rc = some e; file = f; rest = as' })
safe_pwrite (wrote r ∷ as') buf count off f =
    let k = min r count in
    let more = safe_pwrite as' (shift buf k) (count - k) (off + k) (written f buf k off) in
    if count == 0 then (record { rc = none; file = f; rest = wrote r ∷ as' }) else more
