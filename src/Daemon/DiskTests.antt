-- ===== src/Daemon/DiskTests.antt =====
-- daemon/daemon_linux_systemd.go and daemon/daemon_darwin.go: an installation on a small disk.
use runetale.Common.{
  ◌≡◌, refl, ap, ◌≢◌, String, Bool, true, false, Option, none, some, arith, str_eq, eq_iff, value,
  if◌then◌else◌,
}
use runetale.Stored.Files.{and_then}
use runetale.Daemon.Systemd.{
  removed, not_exist, Removal, DaemonCalls, SystemdRecord, check_privileges, privileges_of,
  is_installed, is_running, privileged, guard, load, start_daemon,
}
use runetale.Daemon.Install.{
  after_remove_bin, after_remove_unit, stop_running, uninstall, or_close, copy_binary,
  with_executable, register, install_new, explain, install,
}
use runetale.Daemon.Launchd
use runetale.Daemon.Copied.{Disk, Distinct}
use runetale.Daemon.InPlace.{install-InPlace}

-- The world is the content of each path.
abbrev Paths : Type 0
Paths = String → Option String

abbrev put : String → Option String → Paths → Paths
put p c w q = if str_eq q p then c else w q

abbrev present : Option String → Bool
present none = false
present (some c) = true

abbrev remove_at : String → Option String → Paths → Removal × Paths
remove_at p none w = (not_exist, w)
remove_at p (some c) w = (removed, put p none w)

abbrev disk_calls : DaemonCalls Paths
disk_calls = record {
  group_id = λ w. some 0;
  get_uid = λ w. 0;
  file_exists = λ p w. present (w p);
  active = λ n w. false;
  main_pid = λ n w. none;
  control = λ a w. (none, w);
  remove = λ p w. remove_at p (w p) w;
  mkdir_all = λ p w. (none, w);
  executable = λ w. value "/usr/bin/runetaled";
  create = λ p w. (none, put p (some "") w);
  open_file = λ p w. (none, w);
  copy = λ a b w. (none, put a (w b) w);
  close_file = λ p w. (none, w);
  chmod = λ p w. (none, w);
  rename = λ a b w. (none, put b (w a) (put a none w));
  write_file = λ p t w. (none, put p (some t) w);
}

put_self : (p : String) (c : Option String) (w : Paths) → put p c w p ≡ c
put_self p c w = ground (arith, eq_iff p p)

put_other : (p q : String) (c : Option String) (w : Paths) → q ≢ p → put p c w q ≡ w q
put_other p q c w n = ground (arith, eq_iff q p)

remove_at_other :
    (p q : String) (c : Option String) (w : Paths) → q ≢ p → (remove_at p c w).1 q ≡ w q
remove_at_other p q none w n = refl
remove_at_other p q (some c) w n = put_other p q none w n

absent_of : (c : Option String) → present c ≡ false → c ≡ none
absent_of none h = refl
absent_of (some c) h = absurd (ground arith)

small_disk : Disk disk_calls (λ p w. w p) (λ t. t)
small_disk = record {
  mkdirs = λ p q w. refl;
  creates = λ p q w n. put_other p q (some "") w n;
  opens = λ p q w. refl;
  closes = λ p q w. refl;
  chmods = λ p q w. refl;
  controls = λ args q w. refl;
  copies = λ a b w e. put_self a (w b) w;
  copies_other = λ a b q w n. put_other a q (w b) w n;
  renames = λ a b w e. put_self b (w a) (put a none w);
  renames_other = λ a b q w n n'. ground (arith, eq_iff q a, eq_iff q b);
  writes = λ p t w e. put_self p (some t) w;
  writes_other = λ p t q w n. put_other p q (some t) w n;
  removes_other = λ p q w n. remove_at_other p q (w p) w n;
  absent = λ p w h. absent_of (w p) h;
  missing = λ p w h. ground (arith, h);
}

abbrev service : SystemdRecord
service = record {
  bin_path = "/usr/local/bin/runetaled";
  service_name = "runetaled";
  daemon_file_path = "/etc/systemd/system/runetaled.service";
  system_config = "[Unit]";
}

distinct : Distinct disk_calls (λ p w. w p) (λ t. t) small_disk service "/usr/bin/runetaled"
distinct = record {
  exe_tmp = λ e. cc (ap (λ t. str_eq t "/usr/bin/runetaled") e);
  exe_unit = λ e. cc (ap (λ t. str_eq t "/usr/bin/runetaled") e);
  unit_tmp = λ e. cc (ap (λ t. str_eq t "/etc/systemd/system/runetaled.service") e);
  unit_bin = λ e. cc (ap (λ t. str_eq t "/etc/systemd/system/runetaled.service") e);
}

-- Only the running program is there.
abbrev only_program : Paths
only_program p = if str_eq p "/usr/bin/runetaled" then some "program" else none

abbrev installed_disk : Paths
installed_disk = (install disk_calls service only_program).1

abbrev launchd_disk : Paths
launchd_disk = (Launchd.install disk_calls service only_program).1

installs : install disk_calls service only_program ≡ (none, installed_disk)
unfolding install explain privileged check_privileges privileges_of and_then is_installed
    install_new with_executable copy_binary or_close register uninstall stop_running is_running
    after_remove_unit after_remove_bin load start_daemon guard
installs = refl

launchd_installs : Launchd.install disk_calls service only_program ≡ (none, launchd_disk)
unfolding Launchd.install Launchd.install_files Launchd.install_rest Launchd.uninstall
    Launchd.stop_running Launchd.load explain privileged check_privileges privileges_of and_then
    with_executable copy_binary or_close is_running after_remove_unit after_remove_bin
launchd_installs = refl

install-InPlace_example :
    (installed_disk "/usr/local/bin/runetaled" ≡ some "program")
    × (installed_disk "/etc/systemd/system/runetaled.service" ≡ some "[Unit]")
install-InPlace_example =
    install-InPlace disk_calls (λ p w. w p) (λ t. t) small_disk service "/usr/bin/runetaled"
      distinct (λ w. refl) only_program installed_disk refl installs
