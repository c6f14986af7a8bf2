-- ===== src/Tests/BytesRuns.antt =====
-- The bytes of records and headers, and the writes of them, at concrete values.
use rbtrace.Base.{◌+◌, ◌≡◌, refl, List, [], ◌∷◌, none, some}
use rbtrace.Disk.{File, Answer, wrote, interrupted, failed, safe_pwrite}
use rbtrace.Disk.Write.{NoFailure, Prefix, safe_pwrite_atomic}

abbrev old_file : File
old_file = record { size = 2; byte = λ _. 5 }

abbrev pieces : List Answer
pieces = wrote 2 ∷ interrupted ∷ wrote 1 ∷ failed 28 ∷ []

safe_pwrite_atomic_example :
    Prefix old_file (λ i. i + 1) 6 1 (safe_pwrite pieces (λ i. i + 1) 6 1 old_file)
    × (NoFailure pieces → (safe_pwrite pieces (λ i. i + 1) 6 1 old_file).rc ≡ none)
safe_pwrite_atomic_example = safe_pwrite_atomic pieces (λ i. i + 1) 6 1 old_file

-- Three of the six bytes were written when the system gave up.
pieces_run :
    let w = safe_pwrite pieces (λ i. i + 1) 6 1 old_file in
    (w.rc ≡ some 28)
    × (w.file.size ≡ 4)
    × (w.file.byte 0 ≡ 5)
    × (w.file.byte 1 ≡ 1)
    × (w.file.byte 3 ≡ 3)
unfolding safe_pwrite
pieces_run = (refl, refl, refl, refl, refl)
