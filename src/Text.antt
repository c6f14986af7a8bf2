-- ===== src/Text.antt =====
-- The texts of the program, as their bytes.
use Prim.Native.Char.{code}
use Prim.Native.String.{String}
use rbtrace.Base.{ℕ, List, [], ◌∷◌}

-- `String` has its own `[]` and `∷`. Every text of the program is ASCII.
abbrev pub codes : String → List ℕ
codes String.[] = []
codes (String.◌∷◌ c s) = code c ∷ codes s

abbrev pub io_name : List ℕ
io_name = codes "io"

abbrev pub io_desc : List ℕ
io_desc = codes "I/O traffic"

-- RBTRACE_FHEADER_MAGIC
abbrev pub header_magic : List ℕ
header_magic = codes "RBTRACE"
