-- ===== src/Daemon/Launchd.antt =====
-- daemon/daemon_darwin.go: the daemon under launchd. Its struct has the fields of the one for systemd,
-- and the methods that only ask are the same, with launchctl.
use runetale.Common.{String, Bool, not, Option, none, List, [], ◌∷◌, if◌then◌else◌, Error, message}
use runetale.Stored.Files.{and_then}
use runetale.Daemon.Systemd.{
  DaemonCalls, StatusText, SystemdRecord, check_privileges, is_installed, is_running, privileged,
  guard, status_for,
}
use runetale.Daemon.Install.{after_remove_unit, with_executable, explain}

module _ {W : Type 0} (calls : DaemonCalls W) (s : SystemdRecord) where
  unfoldable pub load : W → Option Error × W
  load w = privileged calls s w (calls.control ("load" ∷ s.daemon_file_path ∷ []))

  -- A method that asks for an installed and running service, which runs one command.
  unfoldable pub when_running : List String → W → Option Error × W
  when_running args w = privileged calls s w λ w₀.
      guard calls s (is_installed calls s w₀) (message "not installed") w₀ λ w₁.
        guard calls s (is_running calls s w₁).1 (message (is_running calls s w₁).0) w₁
          (calls.control args)

  unfoldable pub unload : W → Option Error × W
  unfolding when_running
  unload w = when_running ("unload" ∷ s.daemon_file_path ∷ []) w

  unfoldable pub start_daemon : W → Option Error × W
  start_daemon w = privileged calls s w λ w₀.
      guard calls s (not (is_running calls s w₀).1) (message (is_running calls s w₀).0) w₀
        (calls.control ("start" ∷ s.service_name ∷ []))

  unfoldable pub stop_daemon : W → Option Error × W
  unfolding when_running
  stop_daemon w = when_running ("stop" ∷ s.service_name ∷ []) w

  -- `Status`
  unfoldable pub daemon_status : W → StatusText × Bool
  daemon_status w = status_for calls s (check_privileges calls s w) w

  -- Stop and unload, where the service runs.
  unfoldable pub stop_running : W → Option Error × W
  stop_running w = if (is_running calls s w).1 then and_then (stop_daemon w) unload else (none, w)

  unfoldable pub uninstall : W → Option Error × W
  uninstall w = privileged calls s w λ w₀.
      and_then (stop_running w₀)
        λ w₁. after_remove_unit calls s (calls.remove s.daemon_file_path w₁)

  -- What Install does after Uninstall.
  unfoldable pub install_rest : W → Option Error × W
  install_rest w = and_then (calls.mkdir_all s.bin_path w) λ w₁.
      and_then (with_executable calls s (calls.executable w₁) w₁)
        λ w₂. and_then (calls.write_file s.daemon_file_path s.system_config w₂) load

  unfoldable pub install_files : W → Option Error × W
  unfolding install_rest
  install_files w = and_then (uninstall w) install_rest

  unfoldable pub install : W → Option Error × W
  install w = explain calls s (install_files w)
