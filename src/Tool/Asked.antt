-- ===== src/Tool/Asked.antt =====
-- What `main` of rbt.c makes of its options, request by request.
use rbtrace.Base.{
  arith, Bool-cases, inl, inr, ℕ, ◌-◌, ◌*◌, ◌^◌, ◌≡◌, refl, ap, ◌∙◌, Bool, true, false, not, ◌||◌,
  List, [], ◌∷◌, ◌++◌, Option, none, some, length, leb, bit_or, bit_and, u64, minus_one,
  if◌then◌else◌, Bool-cases, inl, inr,
}
use rbtrace.Ring.State.{Shm, signal_thread}
use rbtrace.Control.{
  Op, open_file, close_file, set_size, set_wrap, set_zap, set_tflags, get_info, ctrl,
}
use rbtrace.Tool.{Options, one_of, or_else, perform, rbt_main}

-- A switch for wrap or, when there is none, one for zap: refused while the other is on.
abbrev pub modes_refused : Option Bool → Option Bool → Shm → Bool
modes_refused (some b) z s = s.info.flags.do_zap
modes_refused none (some b) s = s.info.flags.do_wrap
modes_refused none none s = false

abbrev pub with_modes : Option Bool → Option Bool → Shm → Shm
with_modes (some b) z s = record s {
  info = record s.info { flags = record s.info.flags { do_wrap = b } };
}
with_modes none (some b) s = record s {
  info = record s.info { flags = record s.info.flags { do_zap = b } };
}
with_modes none none s = s

-- The limit of the file size, given in megabytes.
abbrev pub with_size : Option ℕ → Shm → Shm
with_size none s = s
with_size (some n) s = record s { fsize = u64 (n * 1048576) }

-- To open is refused while a file is open or asked for, and for a path that is too long; to close,
-- while tracing does not go to a file. An option to open comes before one to close.
abbrev pub file_refused : Option (List ℕ) → Bool → Shm → Bool
file_refused (some path) close s =
    s.info.flags.do_open || s.info.flags.do_disk || leb 1024 (length path)
file_refused none true s = not s.info.flags.do_disk
file_refused none false s = false

abbrev pub with_file : Option (List ℕ) → Bool → Shm → Shm
with_file (some path) close s = signal_thread (record s {
  info = record s.info {
    file_path = path;
    slot = minus_one;
    flush = 0;
    lost = 0;
    flags = record s.info.flags { do_open = true };
  };
})
with_file none true s = signal_thread (record s {
  info = record s.info {
    flags = record s.info.flags { do_disk = false; do_flush = true; do_close = true };
  };
})
with_file none false s = s

-- First the flags to set are added, and then those to clear are taken away.
abbrev pub with_set : Option ℕ → Shm → Shm
with_set none s = s
with_set (some t) s = record s { info = record s.info { tflags = bit_or s.info.tflags t } }

abbrev pub with_clear : Option ℕ → Shm → Shm
with_clear none s = s
with_clear (some t) s = record s {
  info = record s.info { tflags = bit_and s.info.tflags (2 ^ 64 - 1 - t) };
}

abbrev on_success : Bool × Shm → (Shm → Bool × Shm) → Bool × Shm
on_success (ok, s) k = if ok then k s else (false, s)

perform-append :
    (xs ys : List Op) (s : Shm) → perform (xs ++ ys) s ≡ on_success (perform xs s) (perform ys)
unfolding perform
perform-append [] ys s = refl
perform-append (x ∷ xs) ys s = elim (Bool-cases (ctrl 0 x s).0) [
  | inl e ↦ rw e (perform-append xs ys (ctrl 0 x s).1)
  | inr e ↦ rw e refl
]

perform-modes :
    (w z : Option Bool) (s : Shm)
    → perform (or_else (one_of (λ b. set_wrap (some b)) w) (one_of (λ b. set_zap (some b)) z)) s
      ≡ (if modes_refused w z s then (false, s) else (true, with_modes w z s))
unfolding perform ctrl
perform-modes (some b) z s = ground arith
perform-modes none (some b) s = ground arith
perform-modes none none s = refl

perform-size :
    (n : Option ℕ) (s : Shm)
    → perform (one_of (λ n. set_size (some (u64 (n * 2 ^ 20)))) n) s ≡ (true, with_size n s)
unfolding perform ctrl
perform-size none s = refl
perform-size (some n) s = refl

perform-file :
    (path : Option (List ℕ)) (close : Bool) (s : Shm)
    → perform
        (or_else (one_of (λ p. open_file (some p)) path) (if close then close_file ∷ [] else []))
        s
      ≡ (if file_refused path close s then (false, s) else (true, with_file path close s))
unfolding perform ctrl
perform-file (some path) close s = ground arith
perform-file none true s = ground arith
perform-file none false s = refl

perform-set :
    (t : Option ℕ) (s : Shm)
    → perform (one_of (λ t. set_tflags (some (true, t))) t) s ≡ (true, with_set t s)
unfolding perform ctrl
perform-set none s = refl
perform-set (some t) s = refl

perform-clear :
    (t : Option ℕ) (s : Shm)
    → perform (one_of (λ t. set_tflags (some (false, t))) t) s ≡ (true, with_clear t s)
unfolding perform ctrl
perform-clear none s = refl
perform-clear (some t) s = refl

perform-info : (b : Bool) (s : Shm) → perform (if b then get_info true ∷ [] else []) s ≡ (true, s)
unfolding perform ctrl
perform-info true s = refl
perform-info false s = refl

-- The result, and the shared memory, that the options ask for.
abbrev pub asked : Options → Shm → Bool × Shm
asked o s =
    if modes_refused o.wrap o.zap s
    then (false, s)
    else (let s1 = with_size o.size (with_modes o.wrap o.zap s) in
        if file_refused o.file o.close s1
        then (false, s1)
        else (true, with_clear o.clear (with_set o.set (with_file o.file o.close s1))))

perform-snoc :
    (xs ys : List Op) (s : Shm) {r : Bool × Shm}
    → perform xs s ≡ r
    → perform (xs ++ ys) s ≡ on_success r (perform ys)
perform-snoc xs ys s e = perform-append xs ys s ∙ ap (λ r. on_success r (perform ys)) e

-- Behind one request that can be refused, and behind two.
on_success-one :
    (b : Bool) (s s1 : Shm) (k : Shm → Bool × Shm) {r : Bool × Shm}
    → k s1 ≡ r
    → on_success (if b then (false, s) else (true, s1)) k ≡ (if b then (false, s) else r)
on_success-one true s s1 k e = refl
on_success-one false s s1 k e = e

on_success-two :
    (b c : Bool) (s s1 s2 : Shm) (k : Shm → Bool × Shm) {r : Bool × Shm}
    → k s2 ≡ r
    → on_success (if b then (false, s) else if c then (false, s1) else (true, s2)) k
      ≡ (if b then (false, s) else if c then (false, s1) else r)
on_success-two true c s s1 s2 k e = refl
on_success-two false true s s1 s2 k e = refl
on_success-two false false s s1 s2 k e = e

-- Once the options are read and the tool is attached to the shared memory, `main` of rbt.c sets
-- wrap or else zap, then the limit of the file size, then opens or else closes the file, and then
-- sets and clears traffic flags, each as its option asks, and ends well. If wrap or zap is refused,
-- because the other one is on, it fails with nothing done; if the file is refused, it fails with
-- only what comes before that done.
pub rbt_main-asked : (o : Options) (s : Shm) → rbt_main [] o true s ≡ asked o s
unfolding rbt_main
rbt_main-asked o s =
    let modes =
      or_else (one_of (λ b. set_wrap (some b)) o.wrap) (one_of (λ b. set_zap (some b)) o.zap) in
    let size = one_of (λ n. set_size (some (u64 (n * 2 ^ 20)))) o.size in
    let file =
      or_else (one_of (λ p. open_file (some p)) o.file) (if o.close then close_file ∷ [] else []) in
    let set = one_of (λ t. set_tflags (some (true, t))) o.set in
    let clear = one_of (λ t. set_tflags (some (false, t))) o.clear in
    let info = if o.info then get_info true ∷ [] else [] in
    let b = modes_refused o.wrap o.zap s in
    let s0 = with_modes o.wrap o.zap s in
    let s1 = with_size o.size s0 in
    let c = file_refused o.file o.close s1 in
    let s2 = with_file o.file o.close s1 in
    let s3 = with_set o.set s2 in
    let s4 = with_clear o.clear s3 in
    perform-snoc (modes ++ size ++ file ++ set ++ clear) info s (
      perform-snoc (modes ++ size ++ file ++ set) clear s (
        perform-snoc (modes ++ size ++ file) set s (
          perform-snoc (modes ++ size) file s (
            perform-snoc modes size s (perform-modes o.wrap o.zap s)
            ∙ on_success-one b s s0 (perform size) (perform-size o.size s0))
          ∙ on_success-one b s s1 (perform file) (perform-file o.file o.close s1))
        ∙ on_success-two b c s s1 s2 (perform set) (perform-set o.set s2))
      ∙ on_success-two b c s s1 s3 (perform clear) (perform-clear o.clear s3))
    ∙ on_success-two b c s s1 s4 (perform info) (perform-info o.info s4)
