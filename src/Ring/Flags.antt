-- ===== src/Ring/Flags.antt =====
-- The flags word `ri_flags` of rbtrace_private.h: the record of its six bits stands for it.
use rbtrace.Base.{
  ℕ, ◌+◌, ◌-◌, ◌^◌, ◌≡◌, refl, Bool, true, false, not, ◌&&◌, bit_and, bit_or, ◌==◌, ==_iff,
  if◌then◌else◌, arith,
}
use rbtrace.Ring.State.{Flags}

-- The names RBTRACE_DO_DISK to RBTRACE_DO_FLUSH.
pub data Flag : Type 0 where
  disk opened wrap zap closed flushed : Flag

abbrev pub mask : Flag → ℕ
mask disk = 2 ^ 1
mask opened = 2 ^ 2
mask wrap = 2 ^ 3
mask zap = 2 ^ 4
mask closed = 2 ^ 5
mask flushed = 2 ^ 6

abbrev pub get : Flag → Flags → Bool
get disk f = f.do_disk
get opened f = f.do_open
get wrap f = f.do_wrap
get zap f = f.do_zap
get closed f = f.do_close
get flushed f = f.do_flush

abbrev pub put : Flag → Bool → Flags → Flags
put disk b f = record f { do_disk = b }
put opened b f = record f { do_open = b }
put wrap b f = record f { do_wrap = b }
put zap b f = record f { do_zap = b }
put closed b f = record f { do_close = b }
put flushed b f = record f { do_flush = b }

abbrev bit : Bool → ℕ → ℕ
bit b m = if b then m else 0

-- The word that the flags stand for.
abbrev pub word : Flags → ℕ
word f =
    bit f.do_disk 2
    + bit f.do_open 4
    + bit f.do_wrap 8
    + bit f.do_zap 16
    + bit f.do_close 32
    + bit f.do_flush 64

-- A test that holds of both truth values holds of each; so for six of them.
both : (Bool → Bool) → Bool
both p = p true && p false

both_sound : (p : Bool → Bool) → both p ≡ true → (b : Bool) → p b ≡ true
unfolding both
both_sound p h true = ground arith
both_sound p h false = ground arith

abbrev flags_of : Bool → Bool → Bool → Bool → Bool → Bool → Flags
flags_of a b c d e g = record {
  do_disk = a;
  do_open = b;
  do_wrap = c;
  do_zap = d;
  do_close = e;
  do_flush = g;
}

all_flags : (Flags → Bool) → Bool
unfolding both
all_flags p = both λ a. both λ b. both λ c. both λ d. both λ e. both λ g. p (flags_of a b c d e g)

all_flags_sound : (p : Flags → Bool) → all_flags p ≡ true → (f : Flags) → p f ≡ true
unfolding all_flags
all_flags_sound p h f =
    let q = λ (a b c d e g : Bool). p (flags_of a b c d e g) in
    let r = λ (a b c d e : Bool). both (q a b c d e) in
    let s = λ (a b c d : Bool). both (r a b c d) in
    let t = λ (a b c : Bool). both (s a b c) in
    let u = λ (a b : Bool). both (t a b) in
    let h1 = both_sound (λ a. both (u a)) h f.do_disk in
    let h2 = both_sound (u f.do_disk) h1 f.do_open in
    let h3 = both_sound (t f.do_disk f.do_open) h2 f.do_wrap in
    let h4 = both_sound (s f.do_disk f.do_open f.do_wrap) h3 f.do_zap in
    let h5 = both_sound (r f.do_disk f.do_open f.do_wrap f.do_zap) h4 f.do_close in
    both_sound (q f.do_disk f.do_open f.do_wrap f.do_zap f.do_close) h5 f.do_flush

abbrev same : Bool → Bool → Bool
same true b = b
same false b = not b

same→eq : (a b : Bool) → same a b ≡ true → a ≡ b
same→eq true b h = ground arith
same→eq false b h = ground arith

abbrev tested : Flag → Flags → Bool
tested k f = same (not (bit_and (word f) (mask k) == 0)) (get k f)

abbrev raised : Flag → Flags → Bool
raised k f = bit_or (word f) (mask k) == word (put k true f)

abbrev cleared : Flag → Flags → Bool
cleared k f = bit_and (word f) (2 ^ 64 - 1 - mask k) == word (put k false f)

table : (k : Flag) → all_flags (λ f. tested k f && (raised k f && cleared k f)) ≡ true
unfolding all_flags
table disk = refl
table opened = refl
table wrap = refl
table zap = refl
table closed = refl
table flushed = refl

&&-parts : (a b c : Bool) → (a && (b && c)) ≡ true → (a ≡ true) × (b ≡ true) × (c ≡ true)
&&-parts a b c h = ground arith

-- Testing, setting and clearing a flag of the record is what `flags & m`, `flags |= m` and
-- `flags &= ~m` do to the 64-bit word that it stands for, for each of the six masks `m`.
pub flags-word :
    (k : Flag) (f : Flags)
    → (not (bit_and (word f) (mask k) == 0) ≡ get k f)
      × (bit_or (word f) (mask k) ≡ word (put k true f))
      × (bit_and (word f) (2 ^ 64 - 1 - mask k) ≡ word (put k false f))
flags-word k f =
    let (t, r, c) =
      &&-parts (tested k f) (raised k f) (cleared k f) (all_flags_sound _ (table k) f) in
    (same→eq _ _ t, (==_iff _ _).0 r, (==_iff _ _).0 c)
