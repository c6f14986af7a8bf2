-- ===== src/Print/Buffer.antt =====
-- The buffer of `trace_print_fn`, `char record_buf[256]`.
use rbtrace.Base.{
  ℕ, zero, suc, ◌+◌, ◌≤◌, Bool, List, [], ◌++◌, leb, if◌then◌else◌, length, arith, u32,
}
use rbtrace.Text.{codes}
use rbtrace.Trace.{Entry, rbt_traffic_last}
use rbtrace.Print.{
  Tm, unknown_text, test_text, known_text, format_trace_record, stamp_text, record_text,
}
use rbtrace.Printf.{pad, int_text, hex_text}
use rbtrace.Printf.Fits.{
  Fits, fits, IsPlain, Fits-append, Fits-le, Fits-if, pad-Fits, int_text-Fits, hex_text-Fits,
  prefixed_hex-Fits, signed_int-Fits, signed_long-Fits, zeros_long-Fits, two_digits-Fits,
}

-- A literal text, followed by one that fits.
literal : {n : ℕ} (s t : List ℕ) → IsPlain s → Fits n t → Fits (length s + n) (s ++ t)
literal s t h k = Fits-append s t (fits {n = length s} s (omega arith) h) k

none_left : Fits 0 []
none_left = fits [] (omega arith) tt

hex_field : (w x : ℕ) → w ≤ 16 → Fits 16 (pad w b' ' (hex_text b'A' x))
hex_field w x l =
    pad-Fits w b' ' (hex_text b'A' x) (ground arith) l (hex_text-Fits b'A' x (omega arith))

unknown_text-Fits : (e : Entry) → Fits 85 (unknown_text e)
unknown_text-Fits e = literal (codes "ID:") _ (ground arith) (
    Fits-append (int_text e.traceid) _ (int_text-Fits e.traceid) (
      literal (codes ", ") _ (ground arith) (
        Fits-append _ _ (hex_field 16 e.a0 (omega arith)) (
          literal (codes ", ") _ (ground arith) (
            Fits-append _ _ (hex_field 16 e.a1 (omega arith)) (
              literal (codes ", ") _ (ground arith) (
                Fits-append _ _ (hex_field 16 e.a2 (omega arith)) (
                  literal (codes ", ") _ (ground arith)
                    (Fits-append _ [] (hex_field 16 e.a3 (omega arith)) none_left)))))))))

test_text-Fits : (e : Entry) → Fits 81 (test_text e)
test_text-Fits e = Fits-le 81 (test_text e) (omega arith) (
    literal (codes "OFF ") _ (ground arith) (
      Fits-append _ _
        (pad-Fits 16 b' ' _ (ground arith) (omega arith)
          (prefixed_hex-Fits b'X' b'A' e.a0 (ground arith) (omega arith)))
        (literal (codes " LEN ") _ (ground arith) (
          Fits-append _ _
            (pad-Fits 6 b' ' _ (ground arith) (omega arith)
              (prefixed_hex-Fits b'x' b'a' e.a1 (ground arith) (omega arith)))
            (literal (codes " DEV ") _ (ground arith) (
              Fits-append _ _
                (pad-Fits 4 b' ' _ (ground arith) (omega arith) (signed_int-Fits (u32 e.a2)))
                (literal (codes " OP ") _ (ground arith) (
                  Fits-append _ []
                    (pad-Fits 4 b'0' _ (ground arith) (omega arith)
                      (hex_text-Fits b'a' (u32 e.a3) (omega arith)))
                    none_left))))))))

known_text-Fits : (id : ℕ) (e : Entry) → Fits 86 (known_text id e)
known_text-Fits zero e = fits (codes "NULL NULL") (omega arith) (ground arith)
known_text-Fits (suc zero) e =
    Fits-le 86 (known_text 1 e) (omega arith)
      (literal (codes "LOST Lost ") _ (ground arith) (signed_long-Fits e.a0))
known_text-Fits (suc (suc id)) e =
    Fits-le 86 (known_text (suc (suc id)) e) (omega arith)
      (literal (codes "TEST ") (test_text e) (ground arith) (test_text-Fits e))

format_trace_record-Fits : (e : Entry) → Fits 87 (format_trace_record e)
unfolding format_trace_record
format_trace_record-Fits e =
    Fits-append (if leb rbt_traffic_last e.traceid then unknown_text e else known_text e.traceid e)
      (codes "\n")
      (Fits-if (leb rbt_traffic_last e.traceid) (unknown_text e) (known_text e.traceid e)
        (Fits-le 86 (unknown_text e) (omega arith) (unknown_text-Fits e))
        (known_text-Fits e.traceid e))
      (fits {n = 1} (codes "\n") (omega arith) (ground arith))

stamp_text-Fits : (tm : Tm) (nsec : ℕ) → Fits 77 (stamp_text tm nsec)
stamp_text-Fits tm nsec = Fits-le 77 (stamp_text tm nsec) (omega arith) (
    Fits-append _ _ (two_digits-Fits (tm.mon + 1)) (
      literal (codes "-") _ (ground arith) (
        Fits-append _ _ (two_digits-Fits tm.mday) (
          literal (codes " ") _ (ground arith) (
            Fits-append _ _ (two_digits-Fits tm.hour) (
              literal (codes ":") _ (ground arith) (
                Fits-append _ _ (two_digits-Fits tm.min) (
                  literal (codes ":") _ (ground arith) (
                    Fits-append _ _ (two_digits-Fits tm.sec) (
                      literal (codes ".") _ (ground arith) (
                        Fits-append _ _ (zeros_long-Fits 9 nsec (omega arith))
                          (literal (codes " ") [] (ground arith) none_left))))))))))))

-- Whatever the record and the time, the line that `trace_print_fn` builds has at most 186
-- characters, so that it fits the 256 bytes of its buffer with the zero behind it, and none of them
-- is a percent sign, so that `fprintf` writes it as it is when it takes the line for its format.
pub record_text-Fits : (show : Bool) (tm : Tm) (e : Entry) → Fits 186 (record_text show tm e)
unfolding record_text
record_text-Fits show tm e = Fits-le 186 (record_text show tm e) (omega arith) (
    Fits-append (if show then stamp_text tm e.nsec else []) _
      (Fits-if show (stamp_text tm e.nsec) [] (stamp_text-Fits tm e.nsec)
        (fits [] (omega arith) tt))
      (Fits-append _ _
        (pad-Fits 2 b' ' (int_text e.cpuid) (ground arith) (omega arith) (int_text-Fits e.cpuid))
        (literal (codes " ") _ (ground arith) (
          Fits-append _ _
            (pad-Fits 8 b' ' (int_text e.thread) (ground arith) (omega arith)
              (int_text-Fits e.thread))
            (literal (codes " ") _ (ground arith)
              (Fits-append _ [] (format_trace_record-Fits e) none_left))))))
