-- ===== src/Daemon/Commands.antt =====
-- daemon/daemon_linux_systemd.go and daemon/daemon_darwin.go: the methods that run commands keep what is on disk.
use runetale.Common.{String, Bool, true, false, Option, none, some, List, Error, if◌then◌else◌}
use runetale.Stored.Files.{and_then}
use runetale.Daemon.Systemd.{
  DaemonCalls, SystemdRecord, check_privileges, is_running, privileged, guard, load, unload,
  start_daemon, stop_daemon,
}
use runetale.Daemon.Install.{stop_running}
use runetale.Daemon.Launchd
use runetale.Daemon.Copied.{Success, and_then-Success, Success_lem}

pub if-Success :
    {W : Type 0} (P : W → Type 0) (b : Bool) (r r' : Option Error × W)
    → Success P r
    → Success P r'
    → Success P (if b then r else r')
if-Success P true r r' h h' = h
if-Success P false r r' h h' = h'

module _ {W : Type 0} (calls : DaemonCalls W) (s : SystemdRecord) where
  -- The methods keep what holds of the disk, since they only run commands.
  module _ (P : W → Type 0)
      (commands : (args : List String) (w : W) → P w → P (calls.control args w).1) where
    checked-Success :
        (o : Option Error) (w : W) (f : W → Option Error × W)
        → Success P (f w)
        → Success P (and_then (o, w) f)
    unfolding and_then
    checked-Success none w f h = h
    checked-Success (some e) w f h = tt

    pub privileged-Success :
        (w : W) (f : W → Option Error × W) → Success P (f w) → Success P (privileged calls s w f)
    unfolding privileged
    privileged-Success w f h = checked-Success (check_privileges calls s w) w f h

    guard-Success :
        (b : Bool) (e : Error) (w : W) (f : W → Option Error × W)
        → Success P (f w)
        → Success P (guard calls s b e w f)
    unfolding guard
    guard-Success true e w f h = h
    guard-Success false e w f h = tt

    control-Success : (args : List String) (w : W) → P w → Success P (calls.control args w)
    control-Success args w h = Success_lem P _ λ e. commands args w h

    unload-Success : (w : W) → P w → Success P (unload calls s w)
    unfolding unload
    unload-Success w h =
        privileged-Success w _
          (guard-Success _ _ w _ (guard-Success _ _ w _ (control-Success _ w h)))

    stop_daemon-Success : (w : W) → P w → Success P (stop_daemon calls s w)
    unfolding stop_daemon
    stop_daemon-Success w h =
        privileged-Success w _
          (guard-Success _ _ w _ (guard-Success _ _ w _ (control-Success _ w h)))

    pub start_daemon-Success : (w : W) → P w → Success P (start_daemon calls s w)
    unfolding start_daemon
    start_daemon-Success w h =
        privileged-Success w _ (guard-Success _ _ w _ (control-Success _ w h))

    pub load-Success : (w : W) → P w → Success P (load calls s w)
    unfolding load
    load-Success w h =
        privileged-Success w _
          (and_then-Success P P _ _ (control-Success _ w h) (control-Success _))

    pub stop_running-Success : (w : W) → P w → Success P (stop_running calls s w)
    unfolding stop_running
    stop_running-Success w h =
        if-Success P (is_running calls s w).1 _ _
          (and_then-Success P P _ _ (unload-Success w h) stop_daemon-Success) h

    when_running-Success :
        (args : List String) (w : W) → P w → Success P (Launchd.when_running calls s args w)
    unfolding Launchd.when_running
    when_running-Success args w h =
        privileged-Success w _
          (guard-Success _ _ w _ (guard-Success _ _ w _ (control-Success args w h)))

    pub launchd_stop-Success : (w : W) → P w → Success P (Launchd.stop_running calls s w)
    unfolding Launchd.stop_running Launchd.stop_daemon Launchd.unload
    launchd_stop-Success w h =
        if-Success P (is_running calls s w).1 _ _
          (and_then-Success P P _ _ (when_running-Success _ w h) (when_running-Success _)) h

    pub launchd_load-Success : (w : W) → P w → Success P (Launchd.load calls s w)
    unfolding Launchd.load
    launchd_load-Success w h = privileged-Success w _ (control-Success _ w h)
