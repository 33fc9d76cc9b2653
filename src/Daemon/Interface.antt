-- ===== src/Daemon/Interface.antt =====
-- daemon/daemon.go: the interface Daemon, and the two types that implement it.
use runetale.Common.{Bool, Option, Error}
use runetale.Daemon.Systemd.{StatusText, DaemonCalls, SystemdRecord, daemon_status}
use runetale.Daemon.Install.{install, uninstall}
use runetale.Daemon.Launchd

pub record Daemon (W : Type 0) : Type 0 where
  pub install : W → Option Error × W
  pub uninstall : W → Option Error × W
  pub status : W → StatusText × Bool

-- `NewDaemon` on each system.
unfoldable pub new_systemd : {W : Type 0} → DaemonCalls W → SystemdRecord → Daemon W
new_systemd calls s = record {
  install = install calls s;
  uninstall = uninstall calls s;
  status = daemon_status calls s;
}

unfoldable pub new_launchd : {W : Type 0} → DaemonCalls W → SystemdRecord → Daemon W
new_launchd calls s = record {
  install = Launchd.install calls s;
  uninstall = Launchd.uninstall calls s;
  status = Launchd.daemon_status calls s;
}
