-- ===== src/Printf.antt =====
-- The conversions of `printf` that prbt.c and include/rbtrace.h use.
pub mod Fits
use rbtrace.Base.{
  ℕ, zero, suc, ◌+◌, ◌-◌, ◌/◌, ◌%◌, ◌^◌, Bool, true, false, List, [], ◌∷◌, ◌++◌, ltb, leb, ◌==◌,
  if◌then◌else◌, length, replicate, u32,
}
use rbtrace.Text.{codes}

-- The digit of a value below 16, with the letters from `ten` on.
abbrev pub digit : ℕ → ℕ → ℕ
digit ten d = if ltb d 10 then b'0' + d else ten + (d - 10)

-- The digits of a number in front of `acc`; `fuel` bounds their number.
unfoldable pub digits_onto : ℕ → ℕ → ℕ → ℕ → List ℕ → List ℕ
digits_onto base ten zero n acc = acc
digits_onto base ten (suc fuel) n acc =
    let acc' = digit ten (n % base) ∷ acc in
    let more = digits_onto base ten fuel (n / base) acc' in if ltb n base then acc' else more

-- One piece after another.
abbrev pub join : List (List ℕ) → List ℕ
join [] = []
join (t ∷ l) = t ++ join l

-- At least `w` characters, with `c` in front.
abbrev pub pad : ℕ → ℕ → List ℕ → List ℕ
pad w c t = replicate (w - length t) c ++ t

-- `%d` of an `int` that is not negative, and of a number of 64 bits: 10 and 20 digits are enough.
unfoldable pub int_text : ℕ → List ℕ
unfolding digits_onto
int_text n = digits_onto 10 b'a' 10 n []

unfoldable pub long_text : ℕ → List ℕ
unfolding digits_onto
long_text n = digits_onto 10 b'a' 20 n []

-- `%lX`, and `%llx` with its letter for ten.
unfoldable pub hex_text : ℕ → ℕ → List ℕ
unfolding digits_onto
hex_text ten n = digits_onto 16 ten 16 n []

-- `%#llX` and `%#llx`: `x` is the letter of the prefix.
abbrev pub prefixed_hex : ℕ → ℕ → ℕ → List ℕ
prefixed_hex x ten n = if n == 0 then codes "0" else b'0' ∷ x ∷ hex_text ten n

-- `%d` and `%0wd` of an `int`, and `%ld` and `%0wld`, given as bit patterns. Zeros stand behind the
-- sign.
abbrev pub signed_int : ℕ → List ℕ
signed_int p = if leb (2 ^ 31) p then b'-' ∷ int_text (2 ^ 32 - p) else int_text p

abbrev pub signed_long : ℕ → List ℕ
signed_long p = if leb (2 ^ 63) p then b'-' ∷ long_text (2 ^ 64 - p) else long_text p

abbrev pub zeros_long : ℕ → ℕ → List ℕ
zeros_long w p =
    if leb (2 ^ 63) p
    then b'-' ∷ pad (w - 1) b'0' (long_text (2 ^ 64 - p))
    else pad w b'0' (long_text p)

-- `%02d`
abbrev pub two_digits : ℕ → List ℕ
two_digits n = pad 2 b'0' (int_text n)
