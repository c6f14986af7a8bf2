-- ===== src/Header/Roundtrip.antt =====
-- The header that the daemon formats, read back from its bytes.
use rbtrace.Base.{
  ℕ, zero, suc, ◌+◌, ◌-◌, ◌≤◌, ◌<◌, ◌^◌, ◌≡◌, ◌≢◌, refl, ap, ◌∙◌, ◌⊎◌, inl, false, List, [], ◌∷◌,
  length, update, update_self, update_ne, arith, ◌==◌,
}
use rbtrace.Text.{header_magic}
use rbtrace.Trace.{RingConfig}
use rbtrace.Wire.{le_byte, le_read}
use rbtrace.Wire.Roundtrip.{field_at}
use rbtrace.Header.{Clock, put_text, format_header, header_byte, text_at, header_at, header_size}

-- A text with no zero in it.
abbrev pub IsText : List ℕ → Type 0
IsText [] = Unit
IsText (c ∷ cs) = (c ≢ 0) × IsText cs

-- `strcpy` changes only the bytes that it writes.
put_text_outside :
    (cs : List ℕ) (at : ℕ) (m : ℕ → ℕ) (j : ℕ)
    → (j < at) ⊎ (at + length cs < j)
    → put_text cs at m j ≡ m j
unfolding put_text
put_text_outside [] at m j h = update_ne m at j 0 (ground arith)
put_text_outside (c ∷ cs) at m j h =
    put_text_outside cs (at + 1) (update m at c) j (ground arith)
    ∙ update_ne m at j c (ground arith)

-- The text stands at `at`, with its zero.
abbrev Holds : List ℕ → ℕ → (ℕ → ℕ) → Type 0
Holds [] at m = m at ≡ 0
Holds (c ∷ cs) at m = (m at ≡ c) × Holds cs (at + 1) m

Holds-ext :
    (cs : List ℕ) (at : ℕ) (m k : ℕ → ℕ)
    → ((j : ℕ) → at ≤ j → j ≤ at + length cs → k j ≡ m j)
    → Holds cs at m
    → Holds cs at k
Holds-ext [] at m k same h = same at (omega arith) (omega arith) ∙ h
Holds-ext (c ∷ cs) at m k same h = (
  same at (omega arith) (omega arith) ∙ h.0,
  Holds-ext cs (at + 1) m k (λ j p q. same j (omega arith) (omega arith)) h.1,
)

put_text-Holds : (cs : List ℕ) (at : ℕ) (m : ℕ → ℕ) → Holds cs at (put_text cs at m)
unfolding put_text
put_text-Holds [] at m = update_self m at 0
put_text-Holds (c ∷ cs) at m = (
  put_text_outside cs (at + 1) (update m at c) at (inl (omega arith)) ∙ update_self m at c,
  put_text-Holds cs (at + 1) (update m at c),
)

-- A text is read back, by a reader with room for it and its zero.
text_at-Holds :
    (cs : List ℕ) (fuel at : ℕ) (m : ℕ → ℕ)
    → IsText cs
    → length cs < fuel
    → Holds cs at m
    → text_at fuel m at ≡ cs
unfolding text_at
text_at-Holds cs zero at m t h holds = absurd (omega arith)
text_at-Holds [] (suc fuel) at m t h holds = rw holds refl
text_at-Holds (c ∷ cs) (suc fuel) at m t h holds =
    let e : (c == 0) ≡ false = ground arith in
    rw (holds.0, e, text_at-Holds cs fuel (at + 1) m t.1 (omega arith) holds.1)

-- What a reader of the header `h` of the ring `cfg`, opened at `t`, must find in the bytes `m`.
pub record Describes (cfg : RingConfig) (t : Clock) (m : ℕ → ℕ) : Type 0 where
  pub magic : (header_at m).magic ≡ header_magic
  pub major : (header_at m).major ≡ 1
  pub minor : (header_at m).minor ≡ 0
  pub ring : (header_at m).ring ≡ cfg.ring
  pub wrap_pos : (header_at m).wrap_pos ≡ 0
  pub hdr_size : (header_at m).hdr_size ≡ header_size
  pub nr_records : (header_at m).nr_records ≡ cfg.size
  pub sec : (header_at m).sec ≡ t.sec
  pub nsec : (header_at m).nsec ≡ t.nsec
  pub gmtoff : (header_at m).gmtoff ≡ t.gmtoff
  pub zone : text_at (header_size - (header_at m).tz_off) m (header_at m).tz_off ≡ t.zone
  pub name : text_at (header_size - (header_at m).name_off) m (header_at m).name_off ≡ cfg.name
  pub desc : text_at (header_size - (header_at m).desc_off) m (header_at m).desc_off ≡ cfg.desc

-- The numbers fit their fields, and the texts fit the header.
pub record IsFormattable (cfg : RingConfig) (t : Clock) : Type 0 where
  pub ring : cfg.ring < 2 ^ 32
  pub size : cfg.size < 2 ^ 64
  pub sec : t.sec < 2 ^ 64
  pub nsec : t.nsec < 2 ^ 64
  pub gmtoff : t.gmtoff < 2 ^ 64
  pub zone : IsText t.zone
  pub name : IsText cfg.name
  pub desc : IsText cfg.desc
  pub room : 80 + (length t.zone + 1) + (length cfg.name + 1) + (length cfg.desc + 1) ≤ header_size

module _ (cfg : RingConfig) (t : Clock) (f : IsFormattable cfg t) (m : ℕ → ℕ)
    (same : (i : ℕ) → i < header_size → m i ≡ header_byte (format_header cfg t) i) where
  field :
      (n lo k : ℕ)
      → lo + k ≤ 512
      → n < 256 ^ k
      → ((i : ℕ) → i < k → header_byte (format_header cfg t) (lo + i) ≡ le_byte n i)
      → le_read k m lo ≡ n
  field n lo k h small bytes =
      ap (le_read k m) {x = lo} {y = 0 + lo} (omega arith)
      ∙ field_at (header_byte (format_header cfg t)) m 0 512
          (λ i p. ap m {x = 0 + i} {y = i} (omega arith) ∙ same i p) n lo k h small bytes

  magic_field : text_at 8 m 0 ≡ header_magic
  unfolding format_header header_byte text_at
  magic_field = text_at-Holds header_magic 8 0 m (omega arith) (omega arith) (
      Holds-ext header_magic 0 (header_byte (format_header cfg t)) m (λ j p q. same j (omega arith))
        (refl, (refl, (refl, (refl, (refl, (refl, (refl, refl))))))))

  tz_field : le_read 4 m 64 ≡ 80
  unfolding format_header header_byte
  tz_field = field 80 64 4 (omega arith) (omega arith) (λ i p. ground arith)

  name_field : le_read 4 m 68 ≡ 80 + (length t.zone + 1)
  unfolding format_header header_byte
  name_field = field _ 68 4 (omega arith) (omega (arith, f.room)) (λ i p. ground arith)

  desc_field : le_read 4 m 72 ≡ 80 + (length t.zone + 1) + (length cfg.name + 1)
  unfolding format_header header_byte
  desc_field = field _ 72 4 (omega arith) (omega (arith, f.room)) (λ i p. ground arith)

  name_off : ℕ
  name_off = 80 + (length t.zone + 1)

  desc_off : ℕ
  unfolding name_off
  desc_off = name_off + (length cfg.name + 1)

  -- Behind the structure the bytes are those of the texts.
  pad_byte :
      (j : ℕ)
      → 80 ≤ j
      → j < 512
      → m j
        ≡ put_text cfg.desc desc_off (put_text cfg.name name_off (put_text t.zone 80 (λ _. 0))) j
  unfolding format_header header_byte name_off desc_off
  pad_byte j p q = same j q ∙ ground arith

  zone_held : Holds t.zone 80 m
  unfolding name_off desc_off
  zone_held =
      Holds-ext t.zone 80 (put_text t.zone 80 (λ _. 0)) m
        (λ j p q.
          pad_byte j p (omega (arith, f.room))
          ∙ put_text_outside cfg.desc desc_off _ j (inl (omega (arith, f.room)))
          ∙ put_text_outside cfg.name name_off _ j (inl (omega (arith, f.room))))
        (put_text-Holds t.zone 80 (λ _. 0))

  name_held : Holds cfg.name name_off m
  unfolding name_off desc_off
  name_held =
      Holds-ext cfg.name name_off (put_text cfg.name name_off (put_text t.zone 80 (λ _. 0))) m
        (λ j p q.
          pad_byte j (omega arith) (omega (arith, f.room))
          ∙ put_text_outside cfg.desc desc_off _ j (inl (omega (arith, f.room))))
        (put_text-Holds cfg.name name_off _)

  desc_held : Holds cfg.desc desc_off m
  unfolding name_off desc_off
  desc_held =
      Holds-ext cfg.desc desc_off _ m (λ j p q. pad_byte j (omega arith) (omega (arith, f.room)))
        (put_text-Holds cfg.desc desc_off _)

  text_read :
      (cs : List ℕ) (off at : ℕ)
      → IsText cs
      → off ≡ at
      → at + length cs < 512
      → Holds cs at m
      → text_at (header_size - off) m off ≡ cs
  text_read cs off at t e h held = rw e (text_at-Holds cs (512 - at) at m t (omega arith) held)

  -- Whoever reads the 512 bytes of the header that the daemon formats finds the magic, the version,
  -- the size of the header and of a buffer, the time and its offset to GMT, no wrap position, and
  -- the texts of the time zone, the ring's name and its description, if the numbers fit their fields
  -- and the texts fit the header.
  pub header_at-format : Describes cfg t m
  unfolding format_header header_byte header_at name_off desc_off
  header_at-format = record {
    magic = magic_field;
    major = field 1 8 2 (omega arith) (omega arith) (λ i p. ground arith);
    minor = field 0 10 2 (omega arith) (omega arith) (λ i p. ground arith);
    ring = field cfg.ring 12 4 (omega arith) (omega (arith, f.ring)) (λ i p. ground arith);
    wrap_pos = field 0 16 8 (omega arith) (omega arith) (λ i p. ground arith);
    hdr_size = field 512 24 8 (omega arith) (omega arith) (λ i p. ground arith);
    nr_records = field cfg.size 32 8 (omega arith) (omega (arith, f.size)) (λ i p. ground arith);
    sec = field t.sec 40 8 (omega arith) (omega (arith, f.sec)) (λ i p. ground arith);
    nsec = field t.nsec 48 8 (omega arith) (omega (arith, f.nsec)) (λ i p. ground arith);
    gmtoff = field t.gmtoff 56 8 (omega arith) (omega (arith, f.gmtoff)) (λ i p. ground arith);
    zone = text_read t.zone _ 80 f.zone tz_field (omega (arith, f.room)) zone_held;
    name = text_read cfg.name _ name_off f.name name_field (omega (arith, f.room)) name_held;
    desc = text_read cfg.desc _ desc_off f.desc desc_field (omega (arith, f.room)) desc_held;
  }
