-- ===== src/Daemon/Linux.antt =====
-- daemon/daemon_linux.go: the init system that newDaemon finds on Linux.
use runetale.Common.{if◌then◌else◌}
use runetale.Daemon.Systemd.{DaemonCalls, SystemdRecord}
use runetale.Daemon.Interface.{Daemon, new_systemd}
use runetale.Daemon.Upstart
use runetale.Daemon.SystemV

module _ {W : Type 0} (calls : DaemonCalls W) (s : SystemdRecord) where
  unfoldable pub new_upstart : Daemon W
  new_upstart = record {
    install = Upstart.install calls s;
    uninstall = Upstart.uninstall calls s;
    status = Upstart.daemon_status calls s;
  }

  unfoldable pub new_system_v : Daemon W
  new_system_v = record {
    install = SystemV.install calls s;
    uninstall = SystemV.uninstall calls s;
    status = SystemV.daemon_status calls s;
  }

  -- `newDaemon`, by the two paths that os.Stat finds.
  unfoldable pub new_linux_daemon : W → Daemon W
  new_linux_daemon w =
      if calls.file_exists "/run/systemd/system" w
      then new_systemd calls s
      else if calls.file_exists "/sbin/initctl" w
      then new_upstart
      else new_system_v
