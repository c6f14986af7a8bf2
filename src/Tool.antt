-- ===== src/Tool.antt =====
-- The control tool, rbt.c: the options of `main` and the requests that it makes of them, and
-- `str_to_tflags` of include/rbtrace.h. The options come from `getopt`, one `Arg` each.
pub mod Masks
pub mod Asked
pub mod Report
use rbtrace.Base.{
  ℕ, ◌*◌, ◌^◌, Bool, true, false, List, [], ◌∷◌, ◌++◌, Option, none, some, length, ltb, ◌==◌,
  bit_or, u64, if◌then◌else◌,
}
use rbtrace.Text.{codes, io_name}
use rbtrace.Trace.{rbt_traffic_test}
use rbtrace.Ring.State.{Shm}
use rbtrace.Backing.State.{path_eq}
use rbtrace.Control.{
  Op, open_file, close_file, set_size, set_wrap, set_zap, set_tflags, get_info, max_path, ctrl,
}

-- The pieces between commas that are not empty, as `strtok` finds them; `word` is the piece being
-- read.
abbrev pub pieces_onto : List ℕ → List ℕ → List (List ℕ)
pieces_onto [] [] = []
pieces_onto (w ∷ ws) [] = (w ∷ ws) ∷ []
pieces_onto word (c ∷ cs) =
    let same = pieces_onto (word ++ (c ∷ [])) cs in
    let fresh = pieces_onto [] cs in
    if c == b',' then (if length word == 0 then fresh else word ∷ fresh) else same

-- The loop of `str_to_tflags` over the pieces: TEST is the one name that it knows.
abbrev pub tflags_onto : ℕ → List (List ℕ) → ℕ
tflags_onto acc [] = acc
tflags_onto acc (p ∷ ps) =
    let more = tflags_onto (bit_or acc (2 ^ rbt_traffic_test)) ps in
    if path_eq p (codes "TEST") then more else 0

-- `str_to_tflags`; its `strdup` does not fail.
unfoldable pub str_to_tflags : List ℕ → ℕ
str_to_tflags text = tflags_onto 0 (pieces_onto [] text)

-- What `getopt` finds. `size_arg` has the number that `strtoull` read of the whole text, if it did.
pub data Arg : Type 0 where
  ring_arg file_arg wrap_arg zap_arg set_arg clear_arg : List ℕ → Arg
  size_arg : Option ℕ → Arg
  close_arg info_arg version_arg help_arg unknown_arg : Arg

-- The flags `do_open` to `do_clear_tflags` with the values in `opts` that they go with.
pub record Options : Type 0 where
  pub file : Option (List ℕ)
  pub wrap : Option Bool
  pub zap : Option Bool
  pub size : Option ℕ
  pub set : Option ℕ
  pub clear : Option ℕ
  pub close : Bool
  pub info : Bool

abbrev pub no_options : Options
no_options = record {
  file = none;
  wrap = none;
  zap = none;
  size = none;
  set = none;
  clear = none;
  close = false;
  info = false;
}

-- `on` or `off`
abbrev pub switch_of : List ℕ → Option Bool
switch_of text =
    if path_eq text (codes "on")
    then some true
    else if path_eq text (codes "off")
    then some false
    else none

abbrev pub mask_of : List ℕ → Option ℕ
mask_of text = if str_to_tflags text == 0 then none else some (str_to_tflags text)

-- One option: the new options, or the result with which `main` leaves, `true` for 0.
unfoldable pub take_arg : Arg → Options → Bool × Option Options
unfolding str_to_tflags
take_arg (ring_arg text) o = (false, if path_eq text io_name then some o else none)
take_arg (file_arg text) o =
    (false, if ltb max_path (length text) then none else some (record o { file = some text }))
take_arg (wrap_arg text) o =
    (false, elim (switch_of text) [ none ↦ none | some b ↦ some (record o { wrap = some b }) ])
take_arg (zap_arg text) o =
    (false, elim (switch_of text) [ none ↦ none | some b ↦ some (record o { zap = some b }) ])
take_arg (set_arg text) o =
    (false, elim (mask_of text) [ none ↦ none | some t ↦ some (record o { set = some t }) ])
take_arg (clear_arg text) o =
    (false, elim (mask_of text) [ none ↦ none | some t ↦ some (record o { clear = some t }) ])
take_arg (size_arg none) o = (false, none)
take_arg (size_arg (some n)) o = (false, some (record o { size = some n }))
take_arg close_arg o = (false, some (record o { close = true }))
take_arg info_arg o = (false, some (record o { info = true }))
take_arg version_arg o = (false, none)
take_arg help_arg o = (true, none)
take_arg unknown_arg o = (false, none)

abbrev pub one_of : {A : Type 0} → (A → Op) → Option A → List Op
one_of f none = []
one_of f (some a) = f a ∷ []

-- The first request if there is one, else the second.
abbrev pub or_else : List Op → List Op → List Op
or_else [] ops = ops
or_else (op ∷ ops) _ = op ∷ ops

-- The requests of `main`, in their order. The size is in megabytes.
abbrev pub requests : Options → List Op
requests o =
    or_else (one_of (λ b. set_wrap (some b)) o.wrap) (one_of (λ b. set_zap (some b)) o.zap)
    ++ one_of (λ n. set_size (some (u64 (n * 2 ^ 20)))) o.size
    ++ or_else (one_of (λ p. open_file (some p)) o.file) (if o.close then close_file ∷ [] else [])
    ++ one_of (λ t. set_tflags (some (true, t))) o.set
    ++ one_of (λ t. set_tflags (some (false, t))) o.clear
    ++ (if o.info then get_info true ∷ [] else [])

-- The requests of the I/O ring, up to the first that fails.
unfoldable pub perform : List Op → Shm → Bool × Shm
perform [] s = (true, s)
perform (op ∷ ops) s =
    let r = ctrl 0 op s in let rest = perform ops r.1 in if r.0 then rest else (false, r.1)

-- On with the next option, or out.
abbrev pub or_leave : Shm → (Options → Bool × Shm) → Bool × Option Options → Bool × Shm
or_leave s k (rc, none) = (rc, s)
or_leave s k (rc, some o) = k o

-- `main` of rbt.c, from the options `o` on; `inited` says whether `rbtrace_init` succeeds.
unfoldable pub rbt_main : List Arg → Options → Bool → Shm → Bool × Shm
unfolding take_arg perform
rbt_main [] o inited s = if inited then perform (requests o) s else (false, s)
rbt_main (a ∷ as') o inited s = or_leave s (λ o'. rbt_main as' o' inited s) (take_arg a o)
