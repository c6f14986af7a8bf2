-- ===== src/Shared/Layout.antt =====
-- Where the parts of the shared memory lie.
use rbtrace.Base.{ℕ, ◌+◌, ◌*◌, ◌≤◌, ◌<◌, ◌^◌, ◌≡◌, refl, [], ◌∷◌, arith}
use rbtrace.Trace.{RingConfig, entry_size, ring_max}
use rbtrace.Shared.{Globals, Ptr, address, calc_shm_size, globals_init, ring_info_size}

-- Where the record `j` is, by the pointer `re_base`.
abbrev pub record_address : Ptr → ℕ → ℕ
record_address (address re) j = re + j * entry_size
record_address _ j = 0

-- The parts of the mapping of `size` bytes at `base`, with `n` records, are in it one after another.
pub record LaidOut (base size n : ℕ) (g : Globals) : Type 0 where
  pub fsize : ℕ
  pub ring : ℕ
  pub info : ℕ
  pub fsize_ptr : g.fsize_ptr ≡ address fsize
  pub ring_ptr : g.ring_ptr ≡ address ring
  pub ri_ptr : g.ri_ptr ≡ address info
  pub first : base ≤ fsize
  pub second : fsize + 8 ≤ ring
  pub third : ring + 4 ≤ info
  pub records :
      (j : ℕ)
      → j < n
      → (info + ring_max * ring_info_size ≤ record_address g.re_base j)
        × (record_address g.re_base j + entry_size ≤ base + size)

-- With one ring of fewer than 2^30 records per buffer, `rbtrace_calc_shm_size` is what
-- `rbtrace_globals_init` needs: the file size, the ring number, the ring info and every record of
-- both buffers lie in the mapping, one behind the other.
pub globals_init-LaidOut :
    (cfg : RingConfig) (fd base sem : ℕ)
    → cfg.size < 2 ^ 30
    → LaidOut base
        (calc_shm_size (cfg ∷ []))
        (2 * cfg.size)
        (globals_init fd base (calc_shm_size (cfg ∷ [])) sem)
unfolding globals_init
globals_init-LaidOut cfg fd base sem small = record {
  fsize = base;
  ring = base + 8;
  info = base + (8 + 4);
  fsize_ptr = refl;
  ring_ptr = refl;
  ri_ptr = refl;
  first = omega arith;
  second = omega arith;
  third = omega arith;
  records = λ j p. (omega arith, omega arith);
}
