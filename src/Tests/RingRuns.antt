-- ===== src/Tests/RingRuns.antt =====
-- The ring, at concrete states.
use rbtrace.Base.{
  ◌^◌, ◌≡◌, refl, inl, true, [], ◌∷◌, some, not, ◌==◌, ◌++◌, false, bit_and, bit_or, ◌-◌, arith,
}
use rbtrace.Ring.{trace, trace_at}
use rbtrace.Ring.State.{no_flags}
use rbtrace.Ring.Spec.{IsValid, contents, push, lost_report}
use rbtrace.Ring.Refine.{trace-push}
use rbtrace.Ring.Bounds.{Inside, trace_frame}
use rbtrace.Ring.Keeps.{Kept}
use rbtrace.Ring.Depth.{trace_at_depth}
use rbtrace.Ring.Flags.{wrap, mask, get, put, word, flags-word}
use rbtrace.Tests.Fixtures.{small_cfg, some_stamps, call_of, record_of, full_ring}

pub full_ring-IsValid : IsValid small_cfg full_ring
full_ring-IsValid = record {
  large = omega arith;
  small = omega arith;
  halves = inl (refl, refl);
  filled_in = omega arith;
  slot_in = omega arith;
  flush_in = omega arith;
  lost_in = omega arith;
}

trace-push_example :
    ((trace small_cfg some_stamps (call_of 5) full_ring).0 ≡ true)
    × (contents small_cfg (trace small_cfg some_stamps (call_of 5) full_ring).1
        ≡ push 2 some_stamps (call_of 5) 3 (contents small_cfg full_ring))
    × IsValid small_cfg (trace small_cfg some_stamps (call_of 5) full_ring).1
trace-push_example = trace-push some_stamps (call_of 5) full_ring-IsValid (omega arith)

-- The full batch waits, and the new one starts with the report of three lost traces.
full_ring_run : contents small_cfg (trace small_cfg some_stamps (call_of 5) full_ring).1 ≡ record {
  current = lost_report some_stamps.lost 3 ++ (record_of 5 ∷ []);
  pending = some (record_of 0 ∷ record_of 1 ∷ []);
  dropped = 0;
}
unfolding trace trace_at
full_ring_run = refl

trace_frame_example :
    Inside small_cfg full_ring (trace small_cfg some_stamps (call_of 5) full_ring)
    × Kept full_ring (trace small_cfg some_stamps (call_of 5) full_ring).1
trace_frame_example = trace_frame some_stamps (call_of 5) full_ring-IsValid (omega arith)

trace_at_depth_example :
    trace_at 7 small_cfg some_stamps (call_of 5) full_ring
    ≡ trace small_cfg some_stamps (call_of 5) full_ring
trace_at_depth_example = trace_at_depth 5 small_cfg some_stamps (call_of 5) full_ring

flags-word_example :
    (not (bit_and (word no_flags) (mask wrap) == 0) ≡ get wrap no_flags)
    × (bit_or (word no_flags) (mask wrap) ≡ word (put wrap true no_flags))
    × (bit_and (word no_flags) (2 ^ 64 - 1 - mask wrap) ≡ word (put wrap false no_flags))
flags-word_example = flags-word wrap no_flags
