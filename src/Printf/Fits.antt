-- ===== src/Printf/Fits.antt =====
-- How long the text of a conversion can be, and that it has no percent sign.
use rbtrace.Base.{
  ℕ, zero, suc, ◌+◌, ◌-◌, ◌/◌, ◌%◌, ◌^◌, ◌≤◌, ◌<◌, ◌≢◌, Bool, true, false, List, [], ◌∷◌, ◌++◌, ltb,
  leb, ◌==◌, if◌then◌else◌, length, length-append, replicate, arith,
}
use rbtrace.Text.{codes}
use rbtrace.Printf.{
  digit, digits_onto, pad, int_text, long_text, hex_text, prefixed_hex, signed_int, signed_long,
  zeros_long, two_digits,
}

abbrev pub IsPlain : List ℕ → Type 0
IsPlain [] = Unit
IsPlain (c ∷ cs) = (c ≢ b'%') × IsPlain cs

-- At most `n` characters, none of them a percent sign.
pub record Fits (n : ℕ) (t : List ℕ) : Type 0 where
  pub len : length t ≤ n
  pub plain : IsPlain t

pub fits : {n : ℕ} (t : List ℕ) → length t ≤ n → IsPlain t → Fits n t
fits t h k = record { len = h; plain = k }

IsPlain-append : (s t : List ℕ) → IsPlain s → IsPlain t → IsPlain (s ++ t)
IsPlain-append [] t h k = k
IsPlain-append (c ∷ s) t h k = (h.0, IsPlain-append s t h.1 k)

pub Fits-append : {m n : ℕ} (s t : List ℕ) → Fits m s → Fits n t → Fits (m + n) (s ++ t)
Fits-append s t h k =
    fits (s ++ t) (omega (arith, length-append s t, h.len, k.len))
      (IsPlain-append s t h.plain k.plain)

Fits-replicate : (n c : ℕ) → c ≢ b'%' → Fits n (replicate n c)
Fits-replicate zero c h = fits [] (omega arith) tt
Fits-replicate (suc n) c h =
    let r = Fits-replicate n c h in fits (c ∷ replicate n c) (omega (arith, r.len)) (h, r.plain)

digit_ne : (ten d : ℕ) → b'%' < ten → digit ten d ≢ b'%'
digit_ne ten d h = ground arith

pub Fits-if : {n : ℕ} (b : Bool) (s t : List ℕ) → Fits n s → Fits n t → Fits n (if b then s else t)
Fits-if true s t h k = h
Fits-if false s t h k = k

pub Fits-le : {m : ℕ} (n : ℕ) (t : List ℕ) → m ≤ n → Fits m t → Fits n t
Fits-le n t l h = fits t (omega (arith, l, h.len)) h.plain

-- One more character.
pub Fits-cons : {n : ℕ} (c : ℕ) (t : List ℕ) → c ≢ b'%' → Fits n t → Fits (n + 1) (c ∷ t)
Fits-cons c t h k = fits (c ∷ t) (omega (arith, k.len)) (h, k.plain)

digits_onto-Fits :
    (base ten fuel n : ℕ) {m : ℕ} (acc : List ℕ)
    → b'%' < ten
    → Fits m acc
    → Fits (fuel + m) (digits_onto base ten fuel n acc)
unfolding digits_onto
digits_onto-Fits base ten zero n acc big h = Fits-le _ acc (omega arith) h
digits_onto-Fits base ten (suc fuel) n acc big h =
    let next = Fits-cons (digit ten (n % base)) acc (digit_ne ten (n % base) big) h in
    Fits-if (ltb n base) _ _ (Fits-le _ _ (omega arith) next)
      (Fits-le _ _ (omega arith) (digits_onto-Fits base ten fuel (n / base) _ big next))

pub pad-Fits : {m : ℕ} (w c : ℕ) (t : List ℕ) → c ≢ b'%' → w ≤ m → Fits m t → Fits m (pad w c t)
pad-Fits w c t h l k =
    let a =
      Fits-append (replicate (w - length t) c) t (Fits-replicate (w - length t) c h)
        (fits {n = length t} t (omega arith) k.plain) in
    fits (pad w c t) (omega (arith, a.len, k.len, l)) a.plain

pub int_text-Fits : (n : ℕ) → Fits 10 (int_text n)
unfolding int_text
int_text-Fits n = digits_onto-Fits 10 b'a' 10 n [] (omega arith) (fits {n = 0} [] (omega arith) tt)

pub long_text-Fits : (n : ℕ) → Fits 20 (long_text n)
unfolding long_text
long_text-Fits n = digits_onto-Fits 10 b'a' 20 n [] (omega arith) (fits {n = 0} [] (omega arith) tt)

pub hex_text-Fits : (ten n : ℕ) → b'%' < ten → Fits 16 (hex_text ten n)
unfolding hex_text
hex_text-Fits ten n h = digits_onto-Fits 16 ten 16 n [] h (fits {n = 0} [] (omega arith) tt)

pub prefixed_hex-Fits : (x ten n : ℕ) → x ≢ b'%' → b'%' < ten → Fits 18 (prefixed_hex x ten n)
prefixed_hex-Fits x ten n h k =
    Fits-if (n == 0) _ _ (fits (codes "0") (omega arith) (ground arith))
      (Fits-cons b'0' _ (ground arith) (Fits-cons x _ h (hex_text-Fits ten n k)))

pub signed_int-Fits : (p : ℕ) → Fits 11 (signed_int p)
signed_int-Fits p =
    Fits-if (leb (2 ^ 31) p) _ _ (Fits-cons b'-' _ (ground arith) (int_text-Fits (2 ^ 32 - p)))
      (Fits-le 11 (int_text p) (omega arith) (int_text-Fits p))

pub signed_long-Fits : (p : ℕ) → Fits 21 (signed_long p)
signed_long-Fits p =
    Fits-if (leb (2 ^ 63) p) _ _ (Fits-cons b'-' _ (ground arith) (long_text-Fits (2 ^ 64 - p)))
      (Fits-le 21 (long_text p) (omega arith) (long_text-Fits p))

pub zeros_long-Fits : (w p : ℕ) → w ≤ 20 → Fits 21 (zeros_long w p)
zeros_long-Fits w p l =
    Fits-if (leb (2 ^ 63) p) _ _
      (Fits-cons b'-' _ (ground arith)
        (pad-Fits (w - 1) b'0' _ (ground arith) (omega (arith, l)) (long_text-Fits (2 ^ 64 - p))))
      (Fits-le 21 (pad w b'0' (long_text p)) (omega arith)
        (pad-Fits w b'0' (long_text p) (ground arith) l (long_text-Fits p)))

pub two_digits-Fits : (n : ℕ) → Fits 10 (two_digits n)
two_digits-Fits n = pad-Fits 2 b'0' (int_text n) (ground arith) (omega arith) (int_text-Fits n)
