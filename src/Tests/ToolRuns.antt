-- ===== src/Tests/ToolRuns.antt =====
-- The control tool, at concrete options.
use rbtrace.Base.{◌≡◌, refl, true, false, List, [], ◌∷◌, some}
use rbtrace.Text.{codes}
use rbtrace.Control.{ctrl, set_wrap, set_zap}
use rbtrace.Tool.{
  Options, Arg, close_arg, no_options, rbt_main, set_arg, pieces_onto, str_to_tflags, wrap_arg,
  zap_arg,
}
use rbtrace.Tool.Asked.{asked, rbt_main-asked}
use rbtrace.Tool.Masks.{mask_for, str_to_tflags-mask_for}
use rbtrace.Tool.Report.{flags_to_str, flags_to_str-word, names_set, tflags_to_str}
use rbtrace.Printf.Fits.{Fits}
use rbtrace.Ring.Flags.{word}
use rbtrace.Tests.Fixtures.{empty_ring}

abbrev some_args : List Arg
some_args =
    wrap_arg (codes "on") ∷ zap_arg (codes "on") ∷ set_arg (codes "TEST,TEST") ∷ close_arg ∷ []

-- Wrap on, 5 megabytes, and a file to open.
abbrev some_options : Options
some_options = record no_options {
  wrap = some true;
  size = some 5;
  file = some (codes "t");
  set = some 4;
}

rbt_main-asked_example : rbt_main [] some_options true empty_ring ≡ asked some_options empty_ring
rbt_main-asked_example = rbt_main-asked some_options empty_ring

-- A failing request ends the run: zap is on, and the size stays.
refused_run :
    let s = (ctrl 0 (set_zap (some true)) empty_ring).1 in
    rbt_main [] some_options true s ≡ (false, s)
unfolding rbt_main ctrl
refused_run = refl

-- Only the wrap is asked for, and the close fails: no file is open.
some_args_run :
    rbt_main some_args no_options true empty_ring
    ≡ (false, (ctrl 0 (set_wrap (some true)) empty_ring).1)
unfolding rbt_main ctrl
some_args_run = refl

str_to_tflags-mask_for_example :
    str_to_tflags (codes "TEST,READ") ≡ mask_for (pieces_onto [] (codes "TEST,READ"))
str_to_tflags-mask_for_example = str_to_tflags-mask_for (codes "TEST,READ")

tflags_run : str_to_tflags (codes ",TEST,,TEST") ≡ 4
unfolding str_to_tflags
tflags_run = refl

flags_to_str-word_example :
    Fits 36 (flags_to_str 6)
    × Fits 5 (tflags_to_str 6)
    × (flags_to_str (word empty_ring.info.flags) ≡ names_set empty_ring.info.flags)
flags_to_str-word_example = flags_to_str-word 6 empty_ring.info.flags

-- The number 6 has the masks of disk and open.
flags_run : flags_to_str 6 ≡ codes "DISK OPEN "
unfolding flags_to_str
flags_run = refl

tflags_text_run : tflags_to_str 4 ≡ codes "TEST "
unfolding tflags_to_str
tflags_text_run = refl
