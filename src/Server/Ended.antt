-- ===== src/Server/Ended.antt =====
-- What a run of rbtraced leaves, by the way in which it ends.
use rbtrace.Base.{ℕ, ◌≡◌, ◌⊎◌, true, false, List, ◌∷◌}
use rbtrace.Shared.{Process}
use rbtrace.Server.{Server, Ending, exited, finished, serving, created}

-- The process holds what it held, and perhaps the descriptor of the pid file.
pub record IsBack (p q : Process) : Type 0 where
  pub fds : (q.held.fds ≡ p.held.fds) ⊎ ((fd : ℕ) × (q.held.fds ≡ fd ∷ p.held.fds))
  pub maps : q.held.maps ≡ p.held.maps
  pub sems : q.held.sems ≡ p.held.sems

-- Each file has the text that it had, or is new and empty.
abbrev pub SameTexts : Server → Server → Type 0
SameTexts s s' =
    (path : List ℕ) → (s'.files path ≡ s.files path) ⊎ (s'.files path ≡ created (s.files path))

-- The globals, the name of the shared memory, the names and numbers of the semaphores, and the
-- mappings are as they were.
pub record Untouched (p q : Process) : Type 0 where
  pub globals : q.globals ≡ p.globals
  pub maps : q.held.maps ≡ p.held.maps
  pub sems : q.held.sems ≡ p.held.sems
  pub shm_name : q.held.shm_name ≡ p.held.shm_name
  pub sem_name : q.held.sem_name ≡ p.held.sem_name
  pub thread_sem : q.held.thread_sem ≡ p.held.thread_sem

-- At the end of `main` `server.sem` is destroyed and what was taken is given back, whatever the
-- result. If the pid file cannot be taken, nothing else has happened, and its text is the old one.
-- While the daemon serves, the shared memory is set up.
abbrev pub IsEnded : Server → Ending → Type 0
IsEnded s (finished rc s') = (s'.sem ≡ false) × IsBack s.process s'.process
IsEnded s (exited e s') =
    IsBack s.process s'.process × Untouched s.process s'.process × SameTexts s s'
IsEnded s (serving s') = (s'.process.globals.inited ≡ true) × (s'.sem ≡ true)

module _ (s0 : Server) (path : List ℕ) where
  -- Where the pid file is not taken yet.
  record IsBefore (p : Process) (s : Server) : Type 0 where
    on : s.sem ≡ true
    back : IsBack s0.process p
    untouched : Untouched s0.process p
    texts : SameTexts s0 s
