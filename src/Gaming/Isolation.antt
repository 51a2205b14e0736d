-- ===== src/Gaming/Isolation.antt =====
-- gaming/hispowerd/cpu/isolator.go: the affinity masks of processes during a game. The source reads and
-- writes the first word of the kernel's mask only; what a mask says of further CPUs is `rest`, which
-- `setAffinity` clears. A process whose mask cannot be read or set counts as an error; log
-- lines are left out, and so is the search of /proc for the processes of a service.
pub mod Unisolating
use hisnos_secure_workstatio.Common.{
  ℕ, Bool, true, false, ◌&&◌, List, [], ◌∷◌, ◌++◌, ◌==◌, if◌then◌else◌,
}

-- The kernel's mask: `cs[0]`, which stands for 64 CPUs, and the other words of the set as one number.
pub record Mask : Type 0 where
  pub word : ℕ
  pub rest : ℕ

abbrev pub Masks : Type 0
Masks = ℕ → Mask

-- `saved` of the source.
pub record SavedMask : Type 0 where
  pub pid : ℕ
  pub previous : ℕ

-- Which calls fail, the masks of the configuration, and the processes of each managed daemon.
pub record IsolationEnv : Type 0 where
  pub get_fails : ℕ → Bool
  pub set_fails : ℕ → Bool
  pub gaming_mask : ℕ
  pub system_mask : ℕ
  pub daemon_pids : List (List ℕ)
  -- the processes that /proc lists
  pub all_pids : List ℕ

-- `setAffinity` where it works: the other words of the set are 0.
abbrev pub put_mask : ℕ → ℕ → Masks → Masks
put_mask pid mask m = λ p. if p == pid then record { word = mask; rest = 0 } else m p

-- The last part says that there was no error.
unfoldable pub save_and_set :
    IsolationEnv → ℕ → ℕ → List SavedMask → Masks → List SavedMask × Masks × Bool
save_and_set env pid mask saved m =
    if env.get_fails pid
    then (saved, m, false)
    else if env.set_fails pid
    then (saved, m, false)
    else (saved ++ record { pid = pid; previous = (m pid).word } ∷ [], put_mask pid mask m, true)

unfoldable pub set_each :
    IsolationEnv → ℕ → List ℕ → List SavedMask → Masks → List SavedMask × Masks × Bool
unfolding save_and_set
set_each env mask [] saved m = (saved, m, true)
set_each env mask (pid ∷ rest) saved m =
    let (saved1, m1, fine) = save_and_set env pid mask saved m in
    let (saved2, m2, others) = set_each env mask rest saved1 m1 in (saved2, m2, fine && others)

unfoldable pub daemons_each :
    IsolationEnv → List (List ℕ) → List SavedMask → Masks → List SavedMask × Masks × Bool
unfolding set_each
daemons_each env [] saved m = (saved, m, true)
daemons_each env (pids ∷ rest) saved m =
    let (saved1, m1, fine) = set_each env env.system_mask pids saved m in
    let (saved2, m2, others) = daemons_each env rest saved1 m1 in (saved2, m2, fine && others)

-- `Apply`: one failed call makes it an error.
unfoldable pub isolate : IsolationEnv → List ℕ → Masks → List SavedMask × Masks × Bool
unfolding set_each daemons_each
isolate env game_pids m =
    let (saved1, m1, fine) = set_each env env.gaming_mask game_pids [] m in
    let (saved2, m2, others) = daemons_each env env.daemon_pids saved1 m1 in
    (saved2, m2, fine && others)

unfoldable pub set_back : IsolationEnv → List SavedMask → Masks → Masks × Bool
set_back env [] m = (m, true)
set_back env (s ∷ ss) m =
    let skipped = set_back env ss m in
    let (m1, rest) = set_back env ss (put_mask s.pid s.previous m) in
    if env.set_fails s.pid then (skipped.0, false) else (m1, rest)

-- `Restore`; the list of saved masks is empty afterwards.
unfoldable pub unisolate : IsolationEnv → List SavedMask → Masks → List SavedMask × Masks × Bool
unfolding set_back
unisolate env saved m = let (m1, fine) = set_back env saved m in ([], m1, fine)

abbrev pub full_mask : ℕ
full_mask = 18446744073709551615

unfoldable pub allow_all : IsolationEnv → List ℕ → Masks → Masks
allow_all env [] m = m
allow_all env (pid ∷ rest) m =
    allow_all env rest (if env.set_fails pid then m else put_mask pid full_mask m)

unfoldable pub broad_reset : IsolationEnv → List SavedMask → Masks → List SavedMask × Masks
unfolding allow_all
broad_reset env saved m = ([], allow_all env env.all_pids m)
