-- ===== src/Daemon/Stale.antt =====
-- daemon/daemon_linux_systemd.go: Uninstall where the unit file is missing.
use runetale.Common.{◌≡◌, true, false, none, some, arith, message}
use runetale.Stored.Files.{and_then}
use runetale.Daemon.Systemd.{
  not_exist, DaemonCalls, SystemdRecord, privileges_of, check_privileges, is_installed, is_running,
  privileged, guard, unload,
}
use runetale.Daemon.Install.{after_remove_unit, stop_running, uninstall}

module _ {W : Type 0} (calls : DaemonCalls W) (s : SystemdRecord) where
  -- With root privileges and no unit file, Uninstall never removes the binary: if the service runs
  -- then it fails at once and changes nothing, and otherwise it succeeds after the failed removal of
  -- the unit file alone.
  pub uninstall_stale :
      (w : W)
      → calls.group_id w ≡ some 0
      → calls.file_exists s.daemon_file_path w ≡ false
      → (calls.remove s.daemon_file_path w).0 ≡ not_exist
      → (calls.active s.service_name w ≡ true
          → uninstall calls s w ≡ (some (message "not installed"), w))
        × (calls.active s.service_name w ≡ false
            → uninstall calls s w ≡ (none, (calls.remove s.daemon_file_path w).1))
  unfolding uninstall privileged check_privileges privileges_of and_then stop_running is_running
      unload guard is_installed after_remove_unit
  uninstall_stale w root gone missing =
      (λ up. ground (arith, root, up, gone), λ down. ground (arith, root, down, missing))
