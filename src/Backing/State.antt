-- ===== src/Backing/State.antt =====
-- The daemon's state, and the calls of the system that change it.
use rbtrace.Base.{
  ℕ, Bool, true, false, ◌&&◌, Option, none, some, List, [], ◌∷◌, ◌==◌, if◌then◌else◌,
}
use rbtrace.Disk.{File, Answer, safe_pwrite}
use rbtrace.Header.{Header}
use rbtrace.Ring.State.{Shm}
use rbtrace.Ring.Flags.{Flag, put}

abbrev pub path_eq : List ℕ → List ℕ → Bool
path_eq [] [] = true
path_eq [] (y ∷ ys) = false
path_eq (x ∷ xs) [] = false
path_eq (x ∷ xs) (y ∷ ys) = x == y && path_eq xs ys

-- By a descriptor that may be -1.
abbrev pub on_fd {ℓ} : {A : Type ℓ} → Option (List ℕ) → A → (List ℕ → A) → A
on_fd none closed open_at = closed
on_fd (some path) closed open_at = open_at path

-- The file system: the file at each path, and what it will answer to the next calls of `open`
-- (`some e` is a failure) and `pwrite`. When the answers are used up, the calls succeed.
pub record Os : Type 0 where
  pub files : List ℕ → Option File
  pub opens : List (Option ℕ)
  pub writes : List Answer

-- The shared memory, `rbt_rfd[0]`, `rbt_hdrs[0]`, `total_buffers` and the file system. The
-- descriptor is the path that was opened, `none` for -1: nobody renames the file.
pub record Daemon : Type 0 where
  pub shm : Shm
  pub fd : Option (List ℕ)
  pub seek : ℕ
  pub hdr : Header
  pub total_buffers : ℕ
  pub os : Os

-- `segfault` is a read through a null pointer.
pub data Outcome : Type 0 where
  running : Daemon → Outcome
  segfault : Outcome

abbrev pub set_flag : Flag → Bool → Daemon → Daemon
set_flag k b d = record d {
  shm = record d.shm { info = record d.shm.info { flags = put k b d.shm.info.flags } };
}

-- `close(rfd->fd)` and `rfd->fd = -1`, for a descriptor that is open.
abbrev pub close_file : Daemon → Daemon
close_file d = record d { fd = none }

abbrev pub empty_file : File
empty_file = record { size = 0; byte = λ _. 0 }

abbrev pub or_empty : Option File → File
or_empty none = empty_file
or_empty (some f) = f

abbrev pub file_at : List ℕ → Os → File
file_at path os = or_empty (os.files path)

abbrev pub put_file : List ℕ → File → Os → Os
put_file path f os = record os { files = λ p. if path_eq path p then some f else os.files p }

-- The state after a successful `open`: a file that is there keeps its bytes.
abbrev pub open_at : List ℕ → List (Option ℕ) → Daemon → Daemon
open_at path rest d = record d {
  fd = some path;
  os = put_file path (file_at path d.os) (record d.os { opens = rest });
}

-- `open(path, O_RDWR|O_CREAT, 0666)`. The empty path names no file.
unfoldable pub os_open : List ℕ → Daemon → Daemon
os_open [] d = record d { fd = none }
os_open (c ∷ cs) d = elim d.os.opens [
  | [] ↦ open_at (c ∷ cs) [] d
  | none ∷ rest ↦ open_at (c ∷ cs) rest d
  | some e ∷ rest ↦ record d { fd = none; os = record d.os { opens = rest } }
]

-- `safe_pwrite` to the file at a path.
unfoldable pub os_pwrite : List ℕ → (ℕ → ℕ) → ℕ → ℕ → Daemon → Option ℕ × Daemon
os_pwrite path buf n off d =
    let w = safe_pwrite d.os.writes buf n off (file_at path d.os) in
    (w.rc, record d { os = put_file path w.file (record d.os { writes = w.rest }) })
