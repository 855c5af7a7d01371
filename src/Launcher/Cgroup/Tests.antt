-- ===== src/Launcher/Cgroup/Tests.antt =====
-- Runs of the operations on cgroups, and the theorems on them at concrete data.
use iot_app_fw.Common.{
  ℕ, ◌<◌, ◌≡◌, ◌++◌, refl, true, false, some, List, [], ◌∷◌, arith, Bytes, codes, length, replicate,
}
use iot_app_fw.Launcher.Cgroup.{
  path_max, digits, Answers, user_path, mkdir_app, cgroup_mkdir, cgroup_rmdir, scan, got,
  interrupted, refused, tries, cgroup_signal,
}
use iot_app_fw.Launcher.Cgroup.Paths.{app_id, directory, Granted, cgroup_mkdir-rmdir}
use iot_app_fw.Launcher.Cgroup.Tasks.{tasks, cgroup_signal-tasks}

abbrev root : Bytes
root = codes "/sys/fs/cgroup/iot-launch"

abbrev willing : Answers
willing = record {
  user_made = λ p. true;
  made = λ p. true;
  opened = λ p. true;
  written = λ n. true;
}

printed_id : app_id 5 (codes "clock") 120 ≡ codes "user-5/clock-120"
unfolding digits
printed_id = refl

-- The application's directory is there already: it is not made again, but removed.
abbrev busy : Answers
busy = record willing { made = λ p. false }

removes_existing :
    (cgroup_mkdir busy root 5 (codes "clock") 120 4096).removed
    ≡ codes "/sys/fs/cgroup/iot-launch/user-5/clock-120"
      ∷ codes "/sys/fs/cgroup/iot-launch/user-5"
      ∷ []
unfolding cgroup_mkdir user_path mkdir_app digits
removes_existing = refl

willing-Granted : Granted willing root 5 (codes "clock") 120
willing-Granted = record { user_made = refl; made = refl; opened = refl; written = refl }

short_path :
    length (directory root (app_id 5 (codes "clock") 120) ++ b'/' ∷ codes "tasks") < path_max
unfolding digits
short_path = omega arith

short_id : length (app_id 5 (codes "clock") 120) < 4096
unfolding digits
short_id = omega arith

cgroup_mkdir-rmdir_example :
    (cgroup_mkdir willing root 5 (codes "clock") 120 4096
      ≡ record { id = some (app_id 5 (codes "clock") 120); removed = [] })
    × (cgroup_rmdir root (app_id 5 (codes "clock") 120)
        ≡ some (directory root (app_id 5 (codes "clock") 120)))
cgroup_mkdir-rmdir_example =
    cgroup_mkdir-rmdir willing root 5 (codes "clock") 120 4096 willing-Granted short_path short_id

abbrev processes : List ℕ
processes = 120 ∷ 7 ∷ []

tasks_text : tasks processes ≡ codes "120" ++ 10 ∷ (codes "7" ++ 10 ∷ [])
unfolding digits
tasks_text = refl

short_tasks : length (tasks processes) < 4095
unfolding digits
short_tasks = omega arith

-- A process id without a line end is not signalled.
unfinished : scan 0 (codes "12") ≡ []
unfolding scan
unfinished = refl

no_file : cgroup_signal root (codes "user-5/clock-120") (refused ∷ []) ≡ (false, [])
unfolding cgroup_signal tries
no_file = refl

cgroup_signal-tasks_example :
    cgroup_signal root
      (codes "user-5/clock-120")
      (replicate 1 interrupted ++ got (tasks processes) ∷ [])
    ≡ (true, processes)
cgroup_signal-tasks_example =
    cgroup_signal-tasks root (codes "user-5/clock-120") processes 1 [] (omega arith) short_tasks
      (omega arith)
