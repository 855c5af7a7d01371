-- ===== src/Launcher/Cgroup.antt =====
-- src/launcher/daemon/cgroup.c: the directories of the applications' cgroups, and the signals to the
-- processes in them. What the system calls answer is an argument.
pub mod Paths
pub mod Tasks
mod Tests
use iot_app_fw.Common.{
  ℕ, zero, suc, ◌+◌, ◌-◌, ◌*◌, ◌/◌, ◌%◌, Bool, true, false, Option, none, some, List, [], ◌∷◌, ◌++◌,
  Bytes, codes, ltb, leb, ◌==◌, not, ◌||◌, if◌then◌else◌, length, take, drop,
}

-- `PATH_MAX`
abbrev pub path_max : ℕ
path_max = 4096

-- The digits of a number, on fuel, in front of some text.
unfoldable pub digits : (fuel : ℕ) → ℕ → Bytes → Bytes
digits zero n s = s
digits (suc fuel) n s =
    let last : Bytes = (48 + n % 10) ∷ s in if ltb n 10 then last else digits fuel (n / 10) last

-- "%u"
abbrev pub decimal : ℕ → Bytes
decimal n = digits (suc n) n []

-- What `snprintf` leaves in a buffer.
abbrev pub printed : (size : ℕ) → Bytes → Bytes
printed size s = take (size - 1) s

-- What the system calls of `cgroup_mkdir` answer: whether a user's directory was made or is there, the
-- application's was made, the tasks file can be opened, and the process id written to it.
pub record Answers : Type 0 where
  pub user_made : Bytes → Bool
  pub made : Bytes → Bool
  pub opened : Bytes → Bool
  pub written : ℕ → Bool

-- The identifier, or `none` for -1; and the directories that were removed.
pub record Made : Type 0 where
  pub id : Option Bytes
  pub removed : List Bytes

abbrev pub failed : Made
failed = record { id = none; removed = [] }

-- `cgopen` of an entry of a directory: what is opened, `none` where the path is too long
unfoldable pub cgopen_path : Bytes → Bytes → Option Bytes
cgopen_path dir entry =
    let path : Bytes = dir ++ b'/' ∷ entry in if leb path_max (length path) then none else some path

abbrev pub opens : Answers → Option Bytes → Bool
opens w none = false
opens w (some path) = w.opened path

-- whether the process can be put into the cgroup; there is nothing to do for process 0
unfoldable pub enters : Answers → Bytes → ℕ → Bool
enters w path pid =
    if pid == 0
    then true
    else if opens w (cgopen_path path (codes "tasks"))
    then w.written pid
    else false

-- the identifier, printed into a buffer
unfoldable pub made_id : (cgdir path : Bytes) → (idsize : ℕ) → Made
made_id cgdir path idsize =
    let id : Bytes = drop (length cgdir + 1) path in
    if leb idsize (length id) then failed else record { id = some id; removed = [] }

-- `cgroup_mkdir` from the second `snprintf` on. Of a text that fills the rest of the buffer the last
-- character is cut off, as its length is compared with `>`.
unfoldable pub mkdir_app : Answers → (cgdir user base : Bytes) → (pid idsize : ℕ) → Made
mkdir_app w cgdir user base pid idsize =
    let name : Bytes = b'/' ∷ (base ++ b'-' ∷ decimal pid) in
    let space : ℕ = path_max - length user in
    let path : Bytes = user ++ printed space name in
    if ltb space (length name)
    then failed
    else if not (w.made path)
    then record { id = none; removed = path ∷ user ∷ [] }
    else if not (enters w path pid)
    then record { id = none; removed = path ∷ user ∷ [] }
    else made_id cgdir path idsize

-- the path of a user's directory
unfoldable pub user_path : Bytes → ℕ → Bytes
user_path cgdir uid = cgdir ++ (codes "/user-" ++ decimal uid)

-- `cgroup_mkdir`
unfoldable pub cgroup_mkdir : Answers → Bytes → (uid : ℕ) → Bytes → (pid idsize : ℕ) → Made
cgroup_mkdir w cgdir uid base pid idsize =
    let user : Bytes = user_path cgdir uid in
    if leb path_max (length user)
    then failed
    else if not (w.user_made user)
    then failed
    else mkdir_app w cgdir user base pid idsize

-- The directory that `cgroup_rmdir` removes, `none` for -1.
unfoldable pub cgroup_rmdir : (cgdir dir : Bytes) → Option Bytes
cgroup_rmdir cgdir dir =
    let path : Bytes = cgdir ++ b'/' ∷ dir in if leb path_max (length path) then none else some path

-- The process ids that the loop over the text signals. The kernel writes digits and line ends; a byte 0
-- ends the text.
unfoldable pub scan : (pid : ℕ) → Bytes → List ℕ
scan pid [] = []
scan pid (c ∷ s) =
    let next : List ℕ = scan 0 s in
    let more : List ℕ = scan (pid * 10 + c - 48) s in
    if c == 0 then [] else if c == 10 then pid ∷ next else more

-- What opening and reading the tasks file gave in one try.
pub data Read : Type 0 where
  got : Bytes → Read
  interrupted : Read
  refused : Read

-- The loop of `cgroup_signal` over its tries, with the result and the processes that were signalled.
unfoldable pub tries : List Read → Bool × List ℕ
tries [] = (true, [])
tries (refused ∷ rs) = (false, [])
tries (interrupted ∷ rs) = tries rs
tries (got s ∷ rs) =
    let (b, pids) = tries rs in
    if ltb (length s) 4095 then (true, scan 0 s) else (b, scan 0 s ++ pids)

-- `cgroup_signal`, with the reads in order
unfoldable pub cgroup_signal : (cgdir dir : Bytes) → List Read → Bool × List ℕ
cgroup_signal cgdir dir reads =
    if leb path_max (length (cgdir ++ b'/' ∷ (dir ++ codes "/tasks")))
    then (false, [])
    else tries (take 3 reads)

-- What follows a prefix of a text, `none` where it does not begin with it.
unfoldable pub strip : (prefix s : Bytes) → Option Bytes
strip [] s = some s
strip (c ∷ prefix) [] = none
strip (c ∷ prefix) (x ∷ s) = if x == c then strip prefix s else none

-- What follows the first place where a text is in another: `strstr`, and the step over the text.
unfoldable pub after : (part s : Bytes) → Option Bytes
after part [] = strip part []
after part (x ∷ s) =
    let rest : Option Bytes = after part s in
    elim (strip part (x ∷ s)) [ none ↦ rest | some t ↦ some t ]

-- A line of the file is not the one, or ends the search with the path or with NULL.
pub data Line : Type 0 where
  passed : Line
  ends : Option Bytes → Line

-- what follows the name is a colon, and the path
abbrev pub path_after : (size : ℕ) → Option Bytes → Line
path_after size none = passed
path_after size (some []) = passed
path_after size (some (c ∷ path)) =
    if not (c == b':')
    then passed
    else if ltb (length path) size
    then ends (some path)
    else ends none

abbrev pub name_after : (size : ℕ) → Bytes → Option Bytes → Line
name_after size name none = passed
name_after size name (some p) = path_after size (strip name p)

-- The loop of `cgroup_path` over what `fgets` reads of the file, line ends included.
unfoldable pub path_from : (size : ℕ) → Bytes → List Bytes → Option Bytes
path_from size name [] = none
path_from size name (l ∷ ls) =
    let rest : Option Bytes = path_from size name ls in
    elim (name_after size name (after (codes ":name=") l)) [ passed ↦ rest | ends r ↦ r ]

-- `cgroup_path`, with the lines of the process's file, or `none` where it cannot be opened
unfoldable pub cgroup_path : (size : ℕ) → Bytes → Option (List Bytes) → Option Bytes
cgroup_path size name none = none
cgroup_path size name (some ls) = path_from size name ls
