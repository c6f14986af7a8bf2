-- ===== src/Tests/ParseRuns.antt =====
-- The printing tool, on a file of five records in pages of two.
use rbtrace.Base.{
  ◌+◌, zero, suc, ◌<◌, ◌^◌, false, ℕ, ◌-◌, ◌/◌, ◌%◌, ◌==◌, if◌then◌else◌, ◌≡◌, refl, inl, List, [],
  ◌∷◌, ◌++◌, some, true, arith,
}
use rbtrace.Text.{codes}
use rbtrace.Trace.{Entry}
use rbtrace.Disk.{File}
use rbtrace.Header.{Header, blank_header, header_at, header_size}
use rbtrace.Backing.{write_header}
use rbtrace.Backing.State.{file_at}
use rbtrace.Parse.{accepts_header, parse_trace_file}
use rbtrace.Parse.Accepted.{write_header-accepted}
use rbtrace.Parse.Unwrapped.{parse_trace_file-unwrapped}
use rbtrace.Parse.Walk.{always, fold_records}
use rbtrace.Parse.Wrapped.{parse_trace_file-wrapped}
use rbtrace.Backing.{write_data}
use rbtrace.Backing.State.{Daemon, running}
use rbtrace.Ring.Spec.{contents}
use rbtrace.Wire.{Fits}
use rbtrace.Parse.Printed.{fold_batch, write_data-printed}
use rbtrace.Tests.Fixtures.{
  quiet_os, daemon_of, record_of, some_stamps, waiting_ring, small_cfg, some_clock,
}
use rbtrace.Tests.DaemonRuns.{
  idle_daemon, quiet_os-IsGood, waiting_ring-IsValid, small_cfg-IsFormattable,
}

-- Byte 0 of record `k` is `k`, the others are 0.
abbrev five : File
five = record { size = 792; byte = λ i. if (i - 512) % 56 == 0 then (i - 512) / 56 else 0 }

-- Collect the first arguments.
abbrev collect : ℕ → Entry → List ℕ → List ℕ
collect cnt e s = s ++ (e.a0 ∷ [])

abbrev straight : Header
straight = record blank_header { nr_records = 2 }

abbrev turned : Header
turned = record straight { wrap_pos = 680 }

abbrev page : ℕ → ℕ
page = λ _. 9

parse_trace_file-unwrapped_example :
    parse_trace_file (always collect) straight five (some page) []
    ≡ fold_records collect five.byte 5 header_size 0 []
parse_trace_file-unwrapped_example =
    parse_trace_file-unwrapped collect straight five page 5 [] (inl refl) (omega arith)
      (omega arith) refl (omega arith)

parse_trace_file-wrapped_example :
    parse_trace_file (always collect) turned five (some page) []
    ≡ fold_records collect five.byte 3 header_size 2 (fold_records collect five.byte 2 680 0 [])
parse_trace_file-wrapped_example =
    parse_trace_file-wrapped collect turned five page 3 5 [] refl (omega arith) (omega arith)
      (omega arith) (omega arith) refl (omega arith)

write_header-accepted_example :
    accepts_header
      (header_at (file_at (codes "t") (write_header small_cfg some_clock idle_daemon).os).byte)
    ≡ true
write_header-accepted_example =
    write_header-accepted small_cfg some_clock idle_daemon refl (λ h. cc) quiet_os-IsGood
      small_cfg-IsFormattable

record_of-Fits : (n : ℕ) → n < 2 ^ 64 → Fits (record_of n)
record_of-Fits n p = record {
  a0 = p;
  a1 = omega arith;
  a2 = omega arith;
  a3 = omega arith;
  sec = omega arith;
  nsec = omega arith;
  cpuid = omega arith;
  thread = omega arith;
  traceid = omega arith;
}

waiting_ring-Fits : (j : ℕ) → j < 2 → Fits (waiting_ring.mem (0 + j))
waiting_ring-Fits zero p = record_of-Fits 0 (omega arith)
waiting_ring-Fits (suc zero) p = record_of-Fits 1 (omega arith)
waiting_ring-Fits (suc (suc j)) p = absurd (omega arith)

-- The daemon's file has a record already.
abbrev one_before : Daemon
one_before = record (daemon_of waiting_ring) {
  seek = 568;
  os = record quiet_os { files = λ p. some (record { size = 568; byte = λ i. 0 }) };
}

write_data-printed_example :
    (d' : Daemon) × (write_data small_cfg some_clock some_stamps false one_before ≡ running d')
    × (parse_trace_file (always collect) straight (file_at (codes "t") d'.os) (some (λ i. 9)) []
        ≡ fold_batch collect (contents small_cfg waiting_ring).pending 1 (
            parse_trace_file
              (always collect)
              straight
              (file_at (codes "t") one_before.os)
              (some (λ i. 9))
              []))
write_data-printed_example =
    write_data-printed collect [] straight (λ i. 9) 1 small_cfg some_clock some_stamps (codes "t")
      one_before refl waiting_ring-IsValid (λ h. omega (arith, h)) waiting_ring-Fits refl
      (record { opens = quiet_os-IsGood.opens; writes = quiet_os-IsGood.writes }) refl refl refl
      (omega arith) (omega arith) (inl refl) (omega arith) (omega arith)
