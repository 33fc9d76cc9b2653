-- ===== src/Boot/Unmanaged.antt =====
-- cmd/runetaled/cmd: the commands on a Linux system without systemd.
use mathlib.Core.Path.{subst}
use runetale.Common.{
  String, ◌≡◌, refl, sym, ap, ◌∙◌, Bool, true, false, none, arith, if◌then◌else◌, ok, Action, bound,
}
use runetale.Daemon.Interface.{Daemon, new_systemd}
use runetale.Daemon.Systemd.{DaemonCalls, no_text, SystemdRecord}
use runetale.Daemon.Install.{explain}
use runetale.Daemon.Upstart
use runetale.Daemon.SystemV
use runetale.Daemon.Linux.{new_upstart, new_system_v, new_linux_daemon}
use runetale.Boot.Commands.{exec_down, install_result, up_with, after_login, exec_up}
use runetale.Server.Defs.{LoginNodeResponse}
use runetale.Boot.DaemonCommands.{
  nil_or, with_runelog, end_with, install_daemon, uninstall_daemon, status_daemon,
}
use runetale.ControlPlane.Defs.{Libraries}
use runetale.ControlPlane.Peer.{IceMethods}
use runetale.Boot.Rcn.{SystemIface}
use runetale.Boot.Conf.{Conf}

-- A daemon that reports success and does nothing.
pub record IsInert {W : Type 0} (d : Daemon W) : Type 0 where
  pub installs : (w : W) → d.install w ≡ (none, w)
  pub uninstalls : (w : W) → d.uninstall w ≡ (none, w)
  pub never_installed : (w : W) → d.status w ≡ (no_text, false)

if-IsInert :
    {W : Type 0} (b : Bool) (d d' : Daemon W)
    → IsInert d
    → IsInert d'
    → IsInert (if b then d else d')
if-IsInert true d d' h h' = h
if-IsInert false d d' h h' = h'

module _ {W : Type 0} (daemon_calls : DaemonCalls W) (s : SystemdRecord) where
  new_upstart-IsInert : IsInert (new_upstart daemon_calls s)
  unfolding new_upstart Upstart.install Upstart.uninstall Upstart.daemon_status explain
  new_upstart-IsInert = record {
    installs = λ w. refl;
    uninstalls = λ w. refl;
    never_installed = λ w. refl;
  }

  new_system_v-IsInert : IsInert (new_system_v daemon_calls s)
  unfolding new_system_v SystemV.install SystemV.uninstall SystemV.daemon_status explain
  new_system_v-IsInert = record {
    installs = λ w. refl;
    uninstalls = λ w. refl;
    never_installed = λ w. refl;
  }

  new_linux_daemon-IsInert :
      (w : W)
      → daemon_calls.file_exists "/run/systemd/system" w ≡ false
      → IsInert (new_linux_daemon daemon_calls s w)
  unfolding new_linux_daemon
  new_linux_daemon-IsInert w gone =
      subst
        (λ b. IsInert (
          if b
          then new_systemd daemon_calls s
          else if daemon_calls.file_exists "/sbin/initctl" w
          then new_upstart daemon_calls s
          else new_system_v daemon_calls s))
        (sym gone) (if-IsInert _ _ _ (new_upstart-IsInert) new_system_v-IsInert)

  module _ {L : Type 0} (runelog : Action W L) where
    -- The commands of daemon.go and status.go, where the logger can be made.
    pub daemon_commands-Unmanaged :
        (w : W) (l : L) (w' : W)
        → runelog w ≡ (ok l, w')
        → daemon_calls.file_exists "/run/systemd/system" w' ≡ false
        → (install_daemon runelog (new_linux_daemon daemon_calls s) w ≡ (ok tt, w'))
          × (uninstall_daemon runelog (new_linux_daemon daemon_calls s) w ≡ (ok tt, w'))
          × (status_daemon runelog (new_linux_daemon daemon_calls s) w ≡ (ok no_text, w'))
    unfolding install_daemon uninstall_daemon status_daemon with_runelog end_with
    daemon_commands-Unmanaged w l w' made gone =
        let inert = new_linux_daemon-IsInert w' gone in
        (
          ap (nil_or _) made ∙ ap (end_with runelog) (inert.installs w'),
          ap (nil_or _) made ∙ ap (end_with runelog) (inert.uninstalls w'),
          ap (bound _) made ∙ ap (λ p. (ok p.0, w')) (inert.never_installed w'),
        )

module _ {G U C W : Type 0} (lib : Libraries U C W) (methods : IceMethods U C W)
    (sys : SystemIface W) (new_daemon : W → Daemon W) (conf : Action W (Conf G)) where
  -- `up` as a daemon and `down`, over a daemon that does nothing.
  exec_up-IsInert :
      (login : String → String → Action W LoginNodeResponse) (w : W) (c : Conf G) (w' : W)
      (res : LoginNodeResponse) (w₁ : W)
      → IsInert (new_daemon w₁)
      → conf w ≡ (ok c, w')
      → login c.node_pub_key c.spec.wg_private_key w' ≡ (ok res, w₁)
      → exec_up lib methods sys new_daemon conf login true w ≡ (ok none, w₁)
  unfolding exec_up after_login up_with install_result
  exec_up-IsInert login w c w' res w₁ inert made logged_in =
      ap (bound _) made
      ∙ ap (after_login lib methods sys new_daemon conf login true c) logged_in
      ∙ ap (install_result lib methods sys new_daemon conf login) (inert.installs w₁)

  exec_down-IsInert :
      (w : W) → IsInert (new_daemon w) → exec_down lib methods sys new_daemon conf w ≡ (ok tt, w)
  unfolding exec_down
  exec_down-IsInert w inert = ground (arith, ap (λ p. p.1) (inert.never_installed w))

-- If the logger and the configuration can be made, the login succeeds, and there is no
-- /run/systemd/system where newDaemon looks, then `up` as a daemon, `daemon install` and `daemon
-- uninstall` all return nil, and neither they nor `down` do anything else: no service is installed.
pub linux_commands-Unmanaged :
    {G U C W L : Type 0} (lib : Libraries U C W) (methods : IceMethods U C W) (sys : SystemIface W)
    (daemon_calls : DaemonCalls W) (s : SystemdRecord) (runelog : Action W L)
    (conf : Action W (Conf G)) (login : String → String → Action W LoginNodeResponse) (w : W)
    (l : L) (w₁ : W) (c : Conf G) (w₂ : W) (res : LoginNodeResponse) (w₃ : W)
    → runelog w ≡ (ok l, w₁)
    → conf w₁ ≡ (ok c, w₂)
    → login c.node_pub_key c.spec.wg_private_key w₂ ≡ (ok res, w₃)
    → daemon_calls.file_exists "/run/systemd/system" w₁ ≡ false
    → daemon_calls.file_exists "/run/systemd/system" w₃ ≡ false
    → (let d = new_linux_daemon daemon_calls s in
        (exec_up lib methods sys d conf login true w₁ ≡ (ok none, w₃))
        × (exec_down lib methods sys d conf w₁ ≡ (ok tt, w₁)))
      × (install_daemon runelog (new_linux_daemon daemon_calls s) w ≡ (ok tt, w₁))
      × (uninstall_daemon runelog (new_linux_daemon daemon_calls s) w ≡ (ok tt, w₁))
      × (status_daemon runelog (new_linux_daemon daemon_calls s) w ≡ (ok no_text, w₁))
linux_commands-Unmanaged lib methods sys daemon_calls s runelog conf login w l w₁ c w₂ res w₃ logger
      made logged_in gone still_gone =
    let d = new_linux_daemon daemon_calls s in
    let (installs, uninstalls, prints) =
      daemon_commands-Unmanaged daemon_calls s runelog w l w₁ logger gone in
    (
      (
        exec_up-IsInert lib methods sys d conf login w₁ c w₂ res w₃
            (new_linux_daemon-IsInert daemon_calls s w₃ still_gone) made logged_in,
        exec_down-IsInert lib methods sys d conf w₁
            (new_linux_daemon-IsInert daemon_calls s w₁ gone),
      ),
      installs,
      uninstalls,
      prints,
    )
