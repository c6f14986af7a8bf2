-- ===== src/Tool/Report.antt =====
-- What the control tool prints, rbt.c: the names of the operations and of the flags, and
-- `dump_ring_info`; and `tflags_to_str` of include/rbtrace.h. The static buffers of 512 bytes are
-- empty at first, and each of the two functions runs once.
use rbtrace.Base.{
  ℕ, ◌+◌, ◌*◌, ◌/◌, ◌^◌, ◌≡◌, ap₂, refl, Bool, not, List, [], ◌∷◌, ◌++◌, bit_and, ◌==◌, get_or,
  if◌then◌else◌, length, map, arith,
}
use rbtrace.Text.{codes}
use rbtrace.Trace.{rbt_traffic_test}
use rbtrace.Ring.State.{Flags}
use rbtrace.Ring.Flags.{Flag, disk, opened, wrap, zap, closed, flushed, mask, get, word, flags-word}
use rbtrace.Control.{Info}
use rbtrace.Printf.{join, int_text, signed_long}
use rbtrace.Printf.Fits.{Fits, fits, Fits-append, Fits-if, Fits-le}

-- `rbtrace_op_str`, by the number of the operation.
abbrev pub op_names : List (List ℕ)
op_names =
    codes "open"
    ∷ codes "close"
    ∷ codes "size"
    ∷ codes "wrap"
    ∷ codes "traffic-flags"
    ∷ codes "zap"
    ∷ codes "info"
    ∷ []

abbrev pub op_to_str : ℕ → List ℕ
op_to_str op = get_or op_names op (codes "unknown")

-- `flg_names`, and the trace ids that `tflags_to_str` knows.
abbrev pub flag_name : Flag → List ℕ
flag_name disk = codes "DISK"
flag_name opened = codes "OPEN"
flag_name wrap = codes "WRAP"
flag_name zap = codes "ZAP"
flag_name closed = codes "CLOSE"
flag_name flushed = codes "FLUSH"

abbrev pub flags_in_order : List Flag
flags_in_order = disk ∷ opened ∷ wrap ∷ zap ∷ closed ∷ flushed ∷ []

-- The loop over names and masks: `"%s "` for each mask that the word has.
abbrev pub names_of : ℕ → List (ℕ × List ℕ) → List ℕ
names_of flags [] = []
names_of flags (n ∷ l) =
    (if not (bit_and flags n.0 == 0) then n.1 ++ codes " " else []) ++ names_of flags l

unfoldable pub flags_to_str : ℕ → List ℕ
flags_to_str flags = names_of flags (map (λ g. (mask g, flag_name g)) flags_in_order)

unfoldable pub tflags_to_str : ℕ → List ℕ
tflags_to_str tflags = names_of tflags ((2 ^ rbt_traffic_test, codes "TEST") ∷ [])

-- `dump_ring_info`
unfoldable pub dump_ring_info : Info → List ℕ
unfolding flags_to_str tflags_to_str
dump_ring_info i = join (
    codes "name             : "
    ∷ i.ring_name
    ∷ codes "\n"
    ∷ codes "desc             : "
    ∷ i.ring_desc
    ∷ codes "\n"
    ∷ codes "flags            : "
    ∷ flags_to_str (word i.flags)
    ∷ codes "\n"
    ∷ codes "tflags           : "
    ∷ tflags_to_str i.tflags
    ∷ codes "\n"
    ∷ codes "file size(MB)    : "
    ∷ signed_long (i.file_size / 2 ^ 20)
    ∷ codes "\n"
    ∷ codes "file path        : "
    ∷ i.file_path
    ∷ codes "\n"
    ∷ codes "trace entry size : "
    ∷ int_text i.trace_entry_size
    ∷ codes "\n"
    ∷ [])

-- The names of the flags that are set, in the order of their bits.
abbrev pub shown : Bool → List ℕ → List ℕ
shown b name = if b then name ++ codes " " else []

abbrev pub names_set : Flags → List ℕ
names_set f = join (
    shown f.do_disk (codes "DISK")
    ∷ shown f.do_open (codes "OPEN")
    ∷ shown f.do_wrap (codes "WRAP")
    ∷ shown f.do_zap (codes "ZAP")
    ∷ shown f.do_close (codes "CLOSE")
    ∷ shown f.do_flush (codes "FLUSH")
    ∷ [])

abbrev names_in : Flags → List Flag → List ℕ
names_in f [] = []
names_in f (g ∷ l) = shown (get g f) (flag_name g) ++ names_in f l

names_of-word :
    (f : Flags) (l : List Flag)
    → names_of (word f) (map (λ g. (mask g, flag_name g)) l) ≡ names_in f l
names_of-word f [] = refl
names_of-word f (g ∷ l) =
    ap₂ (λ (b : Bool) t. (if b then flag_name g ++ codes " " else []) ++ t) (flags-word g f).0
      (names_of-word f l)

-- One name of at most `n` characters, and the rest.
name-Fits :
    {m n : ℕ} (b : Bool) (name rest : List ℕ)
    → Fits n name
    → Fits m rest
    → Fits (n + 1 + m) ((if b then name ++ codes " " else []) ++ rest)
name-Fits b name rest h k =
    Fits-append (if b then name ++ codes " " else []) rest
      (Fits-if b (name ++ codes " ") []
        (Fits-append name (codes " ") h (fits {n = 1} (codes " ") (omega arith) (ground arith)))
        (fits [] (omega arith) tt))
      k

flag_name-Fits : (g : Flag) → Fits 5 (flag_name g)
flag_name-Fits disk = fits (codes "DISK") (omega arith) (ground arith)
flag_name-Fits opened = fits (codes "OPEN") (omega arith) (ground arith)
flag_name-Fits wrap = fits (codes "WRAP") (omega arith) (ground arith)
flag_name-Fits zap = fits (codes "ZAP") (omega arith) (ground arith)
flag_name-Fits closed = fits (codes "CLOSE") (omega arith) (ground arith)
flag_name-Fits flushed = fits (codes "FLUSH") (omega arith) (ground arith)

names_of-Fits :
    (flags : ℕ) (l : List Flag)
    → Fits (length l * 6) (names_of flags (map (λ g. (mask g, flag_name g)) l))
names_of-Fits flags [] = fits [] (omega arith) tt
names_of-Fits flags (g ∷ l) = Fits-le _ _ (omega arith) (
    name-Fits (not (bit_and flags (mask g) == 0)) (flag_name g) _ (flag_name-Fits g)
      (names_of-Fits flags l))

-- Whatever the word, the texts of `flags_to_str` and `tflags_to_str` have at most 36 and 5
-- characters, so that no name is cut at the 512 bytes of the buffers; and for the word of the flags
-- of a ring, `flags_to_str` gives DISK, OPEN, WRAP, ZAP, CLOSE and FLUSH for just those of the flags
-- that are set, in that order.
pub flags_to_str-word :
    (w : ℕ) (f : Flags)
    → Fits 36 (flags_to_str w) × Fits 5 (tflags_to_str w) × (flags_to_str (word f) ≡ names_set f)
unfolding flags_to_str tflags_to_str
flags_to_str-word w f = (
  names_of-Fits w flags_in_order,
  name-Fits {m = 0} {n = 4} (not (bit_and w (2 ^ rbt_traffic_test) == 0)) (codes "TEST") []
      (fits (codes "TEST") (omega arith) (ground arith)) (fits [] (omega arith) tt),
  names_of-word f flags_in_order,
)
