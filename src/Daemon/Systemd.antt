-- ===== src/Daemon/Systemd.antt =====
-- daemon/daemon_linux_systemd.go: the methods that ask systemctl. The commands and the calls of the
-- operating system are parameters; what they print is left out.
use runetale.Common.{
  ℕ, String, Bool, true, false, not, Option, none, some, List, [], ◌∷◌, ◌==◌, if◌then◌else◌, Error,
  message, concat, Fallible,
}
use runetale.Stored.Files.{and_then}

-- How os.Remove ends.
pub data Removal : Type 0 where
  removed not_exist : Removal
  not_removed : Error → Removal

-- `mkdir_all` makes the directory of a path. `group_id` is the number that `id -g` prints, if it succeeds and prints one. `control` runs
-- systemctl (or launchctl). `active` says whether `systemctl status` succeeds and prints "Active: active" (or `launchctl list` succeeds and prints the name), `main_pid` is the number after "Main PID: " (or after "PID\" = ").
pub record DaemonCalls (W : Type 0) : Type 0 where
  pub group_id : W → Option ℕ
  pub get_uid : W → ℕ
  pub file_exists : String → W → Bool
  pub active : String → W → Bool
  pub main_pid : String → W → Option String
  pub control : List String → W → Option Error × W
  pub remove : String → W → Removal × W
  pub mkdir_all : String → W → Option Error × W
  pub executable : W → Fallible String
  pub create : String → W → Option Error × W
  pub open_file : String → W → Option Error × W
  pub copy : String → String → W → Option Error × W
  pub close_file : String → W → Option Error × W
  pub chmod : String → W → Option Error × W
  pub rename : String → String → W → Option Error × W
  pub write_file : String → String → W → Option Error × W

-- The constants of daemon/daemon.go that Status returns, and the empty text of the other init systems.
pub data StatusText : Type 0 where
  running nonroot notinstalled notrunning no_text : StatusText

pub record SystemdRecord : Type 0 where
  pub bin_path : String
  pub service_name : String
  pub daemon_file_path : String
  pub system_config : String

module _ {W : Type 0} (calls : DaemonCalls W) (s : SystemdRecord) where
  -- By the number of the group.
  unfoldable pub privileges_of : Option ℕ → Option Error
  privileges_of none = some (message "unsupport system")
  privileges_of (some gid) = if gid == 0 then none else some (message "run with root privileges")

  unfoldable pub check_privileges : W → Option Error
  check_privileges w = privileges_of (calls.group_id w)

  unfoldable pub is_installed : W → Bool
  is_installed w = calls.file_exists s.daemon_file_path w

  unfoldable pub is_running : W → String × Bool
  is_running w =
      if calls.active s.service_name w
      then (
        elim (calls.main_pid s.service_name w) [
          | some pid ↦ concat s.service_name (concat " is running on pid: " pid)
          | none ↦ concat s.service_name " is running. but cannot get pid. please report it"
        ],
        true,
      )
      else (concat s.service_name " is stopped", false)

  abbrev pub unit_name : String
  unit_name = concat s.service_name ".service"

  -- The check at the beginning of every method, and a guard that returns its error.
  unfoldable pub privileged : W → (W → Option Error × W) → Option Error × W
  privileged w f = and_then (check_privileges w, w) f

  unfoldable pub guard : Bool → Error → W → (W → Option Error × W) → Option Error × W
  guard true e w f = f w
  guard false e w f = (some e, w)

  unfoldable pub load : W → Option Error × W
  load w = privileged w λ w₀.
      and_then (calls.control ("daemon-reload" ∷ []) w₀) (calls.control ("enable" ∷ unit_name ∷ []))

  unfoldable pub unload : W → Option Error × W
  unload w = privileged w λ w₀. guard (is_installed w₀) (message "not installed") w₀ λ w₁.
      guard (is_running w₁).1 (message "not running") w₁
        (calls.control ("disable" ∷ unit_name ∷ []))

  unfoldable pub start_daemon : W → Option Error × W
  start_daemon w = privileged w λ w₀.
      guard (not (is_running w₀).1) (message "already running") w₀
        (calls.control ("start" ∷ unit_name ∷ []))

  unfoldable pub stop_daemon : W → Option Error × W
  stop_daemon w = privileged w λ w₀. guard (is_installed w₀) (message "not installed") w₀ λ w₁.
      guard (is_running w₁).1 (message (is_running w₁).0) w₁
        (calls.control ("stop" ∷ unit_name ∷ []))

  unfoldable pub status_for : Option Error → W → StatusText × Bool
  status_for (some e) w = (nonroot, false)
  status_for none w =
      if not (is_installed w)
      then (notinstalled, false)
      else if not (is_running w).1
      then (notrunning, false)
      else (running, true)

  -- `Status`
  unfoldable pub daemon_status : W → StatusText × Bool
  daemon_status w = status_for (check_privileges w) w
