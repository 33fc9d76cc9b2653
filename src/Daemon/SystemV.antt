-- ===== src/Daemon/SystemV.antt =====
-- daemon/daemon_linux_systemv.go: systemVRecord, whose methods do nothing.
use runetale.Common.{String, Bool, false, Option, none, Error}
use runetale.Daemon.Systemd.{DaemonCalls, StatusText, no_text, SystemdRecord}
use runetale.Daemon.Install.{explain}

module _ {W : Type 0} (calls : DaemonCalls W) (s : SystemdRecord) where
  -- The deferred function finds no error.
  unfoldable pub install : W → Option Error × W
  install w = explain calls s (none, w)

  unfoldable pub uninstall : W → Option Error × W
  uninstall w = (none, w)

  unfoldable pub load : W → Option Error × W
  load w = (none, w)

  unfoldable pub unload : W → Option Error × W
  unload w = (none, w)

  unfoldable pub start_daemon : W → Option Error × W
  start_daemon w = (none, w)

  unfoldable pub stop_daemon : W → Option Error × W
  stop_daemon w = (none, w)

  unfoldable pub daemon_status : W → StatusText × Bool
  daemon_status w = (no_text, false)

  unfoldable pub is_installed : W → Bool
  is_installed w = false

  unfoldable pub is_running : W → String × Bool
  is_running w = ("", false)
