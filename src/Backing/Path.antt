-- ===== src/Backing/Path.antt =====
-- The path of a zapped trace file: the file path with the date and time behind it.
use rbtrace.Base.{
  ℕ, zero, suc, ◌+◌, ◌-◌, ◌/◌, ◌%◌, List, [], ◌∷◌, ◌++◌, ltb, if◌then◌else◌, length, replicate,
  take,
}
use rbtrace.Text.{codes}
use rbtrace.Header.{Clock}

-- The decimal digits of a number, in front of `acc`; `fuel` bounds their number.
digits_onto : ℕ → ℕ → List ℕ → List ℕ
digits_onto zero n acc = acc
digits_onto (suc fuel) n acc =
    let acc' = (b'0' + n % 10) ∷ acc in
    let more = digits_onto fuel (n / 10) acc' in if ltb n 10 then acc' else more

-- `%0wd` of a number below 10^20.
decimal : ℕ → ℕ → List ℕ
unfolding digits_onto
decimal w n = let ds = digits_onto 20 n [] in replicate (w - length ds) b'0' ++ ds

-- `"%s.%02d-%02d_%02d-%02d-%02d_%03ld"`, cut to the 2048 bytes of `path` less the zero.
unfoldable pub zap_path : List ℕ → Clock → List ℕ
unfolding decimal
zap_path path t = take 2047 (
    path
    ++ codes "."
    ++ decimal 2 (t.mon + 1)
    ++ codes "-"
    ++ decimal 2 t.mday
    ++ codes "_"
    ++ decimal 2 t.hour
    ++ codes "-"
    ++ decimal 2 t.min
    ++ codes "-"
    ++ decimal 2 t.tm_sec
    ++ codes "_"
    ++ decimal 3 (t.nsec / 1000000))
