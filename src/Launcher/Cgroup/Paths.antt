-- ===== src/Launcher/Cgroup/Paths.antt =====
-- The directory that `cgroup_mkdir` of src/launcher/daemon/cgroup.c makes, and the identifier it gives.
use mathlib.Core.Path.{subst}
use mathlib.Core.List.{append_assoc}
use iot_app_fw.Common.{
  ℕ, ◌+◌, ◌-◌, ◌<◌, ◌≤◌, ◌≡◌, refl, sym, ap, ◌∙◌, Bool, true, false, none, some, [], ◌∷◌, ◌++◌,
  Bytes, codes, leb, ◌==◌, not, if◌then◌else◌, length, drop, length-append, take_all, drop-append,
  arith, lt→leb, le→ltb,
}
use iot_app_fw.Launcher.Cgroup.{
  path_max, decimal, printed, Answers, Made, failed, cgopen_path, opens, enters, made_id, mkdir_app,
  user_path, cgroup_mkdir, cgroup_rmdir,
}

-- The identifier of an application's cgroup, and the directories of a user and of a cgroup.
abbrev pub app_id : (uid : ℕ) → Bytes → (pid : ℕ) → Bytes
app_id uid base pid = codes "user-" ++ (decimal uid ++ b'/' ∷ (base ++ b'-' ∷ decimal pid))

abbrev pub directory : (cgdir id : Bytes) → Bytes
directory cgdir id = cgdir ++ b'/' ∷ id

abbrev name_of : Bytes → ℕ → Bytes
name_of base pid = b'/' ∷ (base ++ b'-' ∷ decimal pid)

user_path-directory :
    (cgdir : Bytes) (uid : ℕ) (base : Bytes) (pid : ℕ)
    → user_path cgdir uid ++ name_of base pid ≡ directory cgdir (app_id uid base pid)
unfolding user_path
user_path-directory cgdir uid base pid =
    append_assoc cgdir (codes "/user-" ++ decimal uid) (name_of base pid)

length-directory : (cgdir id : Bytes) → length (directory cgdir id) ≡ length cgdir + 1 + length id
length-directory cgdir id = omega (arith, length-append cgdir (b'/' ∷ id))

drop-directory : (cgdir id : Bytes) → drop (length cgdir + 1) (directory cgdir id) ≡ id
drop-directory cgdir id =
    ap (λ n. drop n (directory cgdir id)) size
    ∙ ap (drop (length (cgdir ++ b'/' ∷ []))) (sym (append_assoc cgdir (b'/' ∷ []) id))
    ∙ drop-append (cgdir ++ b'/' ∷ []) id
  where
    size : length cgdir + 1 ≡ length (cgdir ++ b'/' ∷ [])
    size = omega (arith, length-append cgdir (b'/' ∷ []))

-- Every call that makes the cgroup succeeds.
pub record Granted (w : Answers) (cgdir : Bytes) (uid : ℕ) (base : Bytes) (pid : ℕ) : Type 0 where
  pub user_made : w.user_made (user_path cgdir uid) ≡ true
  pub made : w.made (directory cgdir (app_id uid base pid)) ≡ true
  pub opened : w.opened (directory cgdir (app_id uid base pid) ++ b'/' ∷ codes "tasks") ≡ true
  pub written : w.written pid ≡ true

enters-opened :
    (w : Answers) (path : Bytes) (pid : ℕ)
    → length (path ++ b'/' ∷ codes "tasks") < path_max
    → w.opened (path ++ b'/' ∷ codes "tasks") ≡ true
    → w.written pid ≡ true
    → enters w path pid ≡ true
unfolding enters cgopen_path
enters-opened w path pid short o g = at (pid == 0)
  where
    at :
        (b : Bool)
        → (if b
            then true
            else if opens w (
                if leb path_max (length (path ++ b'/' ∷ codes "tasks"))
                then none
                else some (path ++ b'/' ∷ codes "tasks"))
            then w.written pid
            else false)
          ≡ true
    at true = refl
    at false =
        ap
          (λ b.
            if opens w (if b then none else some (path ++ b'/' ∷ codes "tasks"))
            then w.written pid
            else false)
          (lt→leb path_max (length (path ++ b'/' ∷ codes "tasks")) short)
        ∙ ap (λ b. if b then w.written pid else false) o
        ∙ g

made_id-directory :
    (cgdir id : Bytes) (idsize : ℕ)
    → length id < idsize
    → made_id cgdir (directory cgdir id) idsize ≡ record { id = some id; removed = [] }
unfolding made_id
made_id-directory cgdir id idsize h =
    ap (λ x. if leb idsize (length x) then failed else record { id = some x; removed = [] })
      (drop-directory cgdir id)
    ∙ ap (λ b. if b then failed else record { id = some id; removed = [] })
        (lt→leb idsize (length id) h)

-- The rest of `cgroup_mkdir` once the text of the path is known.
abbrev rest_of : Answers → (cgdir user : Bytes) → (pid idsize : ℕ) → Bytes → Made
rest_of w cgdir user pid idsize path =
    if not (w.made path)
    then record { id = none; removed = path ∷ user ∷ [] }
    else if not (enters w path pid)
    then record { id = none; removed = path ∷ user ∷ [] }
    else made_id cgdir path idsize

mkdir_app-rest :
    (w : Answers) (cgdir user base : Bytes) (pid idsize : ℕ)
    → length (user ++ name_of base pid) < path_max
    → mkdir_app w cgdir user base pid idsize
      ≡ rest_of w cgdir user pid idsize (user ++ name_of base pid)
unfolding mkdir_app
mkdir_app-rest w cgdir user base pid idsize h =
    ap
      (λ b.
        if b
        then failed
        else rest_of w cgdir user pid idsize
            (user ++ printed (path_max - length user) (name_of base pid)))
      (le→ltb (path_max - length user) (length (name_of base pid)) fits)
    ∙ ap (λ s. rest_of w cgdir user pid idsize (user ++ s))
        (take_all (path_max - length user - 1) (name_of base pid) room)
  where
    fits : length (name_of base pid) ≤ path_max - length user
    fits = omega (arith, h, length-append user (name_of base pid))

    room : length (name_of base pid) ≤ path_max - length user - 1
    room = omega (arith, h, length-append user (name_of base pid))

-- Where the system calls succeed and the path of the tasks file and the identifier are short enough,
-- `cgroup_mkdir` gives the identifier `user-<uid>/<base>-<pid>` and removes nothing; and with that
-- identifier `cgroup_rmdir` removes the very directory that was made.
pub cgroup_mkdir-rmdir :
    (w : Answers) (cgdir : Bytes) (uid : ℕ) (base : Bytes) (pid idsize : ℕ)
    → Granted w cgdir uid base pid
    → length (directory cgdir (app_id uid base pid) ++ b'/' ∷ codes "tasks") < path_max
    → length (app_id uid base pid) < idsize
    → (cgroup_mkdir w cgdir uid base pid idsize
        ≡ record { id = some (app_id uid base pid); removed = [] })
      × (cgroup_rmdir cgdir (app_id uid base pid) ≡ some (directory cgdir (app_id uid base pid)))
unfolding cgroup_mkdir cgroup_rmdir
cgroup_mkdir-rmdir w cgdir uid base pid idsize g short fits =
    let user : Bytes = user_path cgdir uid in
    let id : Bytes = app_id uid base pid in
    let path : Bytes = directory cgdir id in
    let whole : user ++ name_of base pid ≡ path = user_path-directory cgdir uid base pid in
    let below : length path < path_max =
      omega (arith, short, length-append path (b'/' ∷ codes "tasks")) in
    let under : length user < path_max =
      omega (arith, below, ap length whole, length-append user (name_of base pid)) in
    (
      ap
            (λ b.
              if b
              then failed
              else if not (w.user_made user)
              then failed
              else mkdir_app w cgdir user base pid idsize)
            (lt→leb path_max (length user) under)
          ∙ ap (λ b. if not b then failed else mkdir_app w cgdir user base pid idsize) g.user_made
          ∙ mkdir_app-rest w cgdir user base pid idsize
              (subst (λ s. length s < path_max) (sym whole) below)
          ∙ ap (rest_of w cgdir user pid idsize) whole
          ∙ ap
              (λ b.
                if not b
                then record { id = none; removed = path ∷ user ∷ [] }
                else if not (enters w path pid)
                then record { id = none; removed = path ∷ user ∷ [] }
                else made_id cgdir path idsize)
              g.made
          ∙ ap
              (λ b.
                if not b
                then record { id = none; removed = path ∷ user ∷ [] }
                else made_id cgdir path idsize)
              (enters-opened w path pid short g.opened g.written)
          ∙ made_id-directory cgdir id idsize fits,
      ap (λ b. if b then none else some path) (lt→leb path_max (length path) below),
    )
