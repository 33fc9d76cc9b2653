-- ===== src/Daemon/Tests.antt =====
-- daemon/daemon_linux_systemd.go: a system without root, and one with root and no unit file.
use runetale.Common.{ℕ, ◌+◌, ◌≡◌, false, none, some, arith, value}
use runetale.Daemon.Systemd.{
  not_exist, DaemonCalls, nonroot, SystemdRecord, load, unload, start_daemon, stop_daemon,
  daemon_status,
}
use runetale.Daemon.Install.{uninstall, install}
use runetale.Daemon.Launchd
use runetale.Daemon.Refused.{IsRefused, unprivileged-IsRefused}

-- The world counts the calls that change the system.
abbrev system : ℕ → DaemonCalls ℕ
system gid = record {
  group_id = λ w. some gid;
  get_uid = λ w. gid;
  file_exists = λ p w. false;
  active = λ n w. false;
  main_pid = λ n w. none;
  control = λ a w. (none, w + 1);
  remove = λ p w. (not_exist, w);
  mkdir_all = λ p w. (none, w + 1);
  executable = λ w. value "/usr/bin/runetaled";
  create = λ p w. (none, w + 1);
  open_file = λ p w. (none, w);
  copy = λ a b w. (none, w + 1);
  close_file = λ p w. (none, w);
  chmod = λ p w. (none, w + 1);
  rename = λ a b w. (none, w + 1);
  write_file = λ p t w. (none, w + 1);
}

abbrev unit : SystemdRecord
unit = record {
  bin_path = "/usr/local/bin/runetaled";
  service_name = "runetaled";
  daemon_file_path = "/etc/systemd/system/runetaled.service";
  system_config = "[Unit]";
}

unprivileged-IsRefused_example :
    (IsRefused 0 (install (system 5) unit 0)
      × IsRefused 0 (uninstall (system 5) unit 0)
      × IsRefused 0 (load (system 5) unit 0)
      × IsRefused 0 (unload (system 5) unit 0)
      × IsRefused 0 (start_daemon (system 5) unit 0)
      × IsRefused 0 (stop_daemon (system 5) unit 0)
      × (daemon_status (system 5) unit 0 ≡ (nonroot, false)))
    × IsRefused 0 (Launchd.install (system 5) unit 0)
    × IsRefused 0 (Launchd.uninstall (system 5) unit 0)
    × IsRefused 0 (Launchd.load (system 5) unit 0)
    × IsRefused 0 (Launchd.unload (system 5) unit 0)
    × IsRefused 0 (Launchd.start_daemon (system 5) unit 0)
    × IsRefused 0 (Launchd.stop_daemon (system 5) unit 0)
    × (Launchd.daemon_status (system 5) unit 0 ≡ (nonroot, false))
unprivileged-IsRefused_example = unprivileged-IsRefused (system 5) unit 0 (λ e. ground (arith, e))
