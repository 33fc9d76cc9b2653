-- ===== src/Boot/Stopped.antt =====
-- cmd/runetaled/cmd: how `down` ends where the daemon runs.
use mathlib.Core.Path.{subst}
use runetale.Common.{String, ◌≡◌, refl, sym, ap, ◌∙◌, true, not, if◌then◌else◌, ok, panic, Action}
use runetale.ControlPlane.Peer.{IceMethods}
use runetale.ControlPlane.Defs.{Libraries, new_control_plane, close_peers, close}
use runetale.Daemon.Interface.{Daemon}
use runetale.Boot.Conf.{Conf}
use runetale.Boot.Rcn.{SystemIface, new_rcn, remove_held, stop_rcn}
use runetale.Boot.Commands.{or_nil, uninstalled, forget_rcn, down_with, exec_down}

module _ {G U C W : Type 0} (lib : Libraries U C W) (methods : IceMethods U C W)
    (sys : SystemIface W) (new_daemon : W → Daemon W) (conf : Action W (Conf G)) where
  -- Stopping an Rcn on which Setup has not been called.
  stop_rcn-new :
      (tun_name key : String) (w : W)
      → stop_rcn lib methods sys (new_rcn tun_name key, w) ≡ (panic, (new_rcn tun_name key, w))
  unfolding stop_rcn remove_held new_rcn new_control_plane close close_peers
  stop_rcn-new tun_name key w = refl

  down_with-panics :
      (d : Daemon W) (c : Conf G) (w : W)
      → down_with lib methods sys new_daemon conf d c w ≡ (panic, w)
  unfolding down_with
  down_with-panics d c w =
      ap
        (λ o.
          or_nil lib methods sys new_daemon conf
            (λ u w'. uninstalled lib methods sys new_daemon conf (d.uninstall w'))
            (forget_rcn lib methods sys new_daemon conf o))
        (stop_rcn-new c.spec.tun_name c.spec.wg_private_key w)

  -- If the daemon runs and the configuration can be made, then `down` always panics, since it stops
  -- an Rcn that has no interface: the daemon is not uninstalled.
  pub exec_down-panics :
      (w : W) (c : Conf G) (w' : W)
      → ((new_daemon w).status w).1 ≡ true
      → conf w ≡ (ok c, w')
      → exec_down lib methods sys new_daemon conf w ≡ (panic, w')
  unfolding exec_down
  exec_down-panics w c w' runs made =
      subst
        (λ b.
          (if not b
            then (ok tt, w)
            else or_nil lib methods sys new_daemon conf
                (down_with lib methods sys new_daemon conf (new_daemon w)) (conf w))
          ≡ (panic, w'))
        (sym runs)
        (ap
            (or_nil lib methods sys new_daemon conf
              (down_with lib methods sys new_daemon conf (new_daemon w)))
            made
          ∙ down_with-panics (new_daemon w) c w')
