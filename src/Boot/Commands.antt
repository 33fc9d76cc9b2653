-- ===== src/Boot/Commands.antt =====
-- cmd/runetaled/cmd: the commands `up` and `down` of the daemon, by what they call.
use runetale.Common.{
  String, Bool, not, Option, none, some, if◌then◌else◌, Error, Outcome, ok, err, panic, Action,
  gets, ◌>>=◌, ◌>>◌,
}
use runetale.ControlPlane.Peer.{IceMethods}
use runetale.ControlPlane.Defs.{Libraries}
use runetale.Daemon.Interface.{Daemon}
use runetale.Server.Defs.{LoginNodeResponse}
use runetale.Boot.Conf.{Conf}
use runetale.Boot.Rcn.{Rcn, SystemIface, new_rcn, setup_rcn, stop_rcn}

-- `new_daemon` is NewDaemon, which may look at the system, `conf` is NewConf with the flags, and `login` is LoginNode of the server client. What is printed or logged is left out.
module _ {G U C W : Type 0} (lib : Libraries U C W) (methods : IceMethods U C W)
    (sys : SystemIface W) (new_daemon : W → Daemon W) (conf : Action W (Conf G)) where
  -- `if err != nil { return nil }`
  abbrev pub or_nil :
      {A : Type 0} → (A → Action W (Unit {0})) → Outcome A × W → Outcome (Unit {0}) × W
  or_nil f (ok a, w) = f a w
  or_nil f (err e, w) = (ok tt, w)
  or_nil f (panic, w) = (panic, w)

  -- The end of `down`: an error of Uninstall gives nil as well.
  unfoldable pub uninstalled : Option Error × W → Outcome (Unit {0}) × W
  uninstalled (none, w) = (ok tt, w)
  uninstalled (some e, w) = (ok tt, w)

  abbrev pub forget_rcn : {A : Type 0} → Outcome A × (Rcn U × W) → Outcome A × W
  forget_rcn (o, (r, w)) = (o, w)

  -- `down` after NewConf: a new Rcn is stopped, and the daemon is uninstalled.
  unfoldable pub down_with : Daemon W → Conf G → Action W (Unit {0})
  down_with d c w =
      or_nil (λ u w'. uninstalled (d.uninstall w'))
        (forget_rcn (stop_rcn lib methods sys (new_rcn c.spec.tun_name c.spec.wg_private_key, w)))

  -- `execDown` after NewRunelog.
  unfoldable pub exec_down : Action W (Unit {0})
  exec_down w =
      let d = new_daemon w in
      if not (d.status w).1 then (ok tt, w) else or_nil (down_with d) (conf w)

  module _ (login : String → String → Action W LoginNodeResponse) where
    unfoldable pub install_result : Option Error × W → Outcome (Option (Rcn U)) × W
    install_result (none, w) = (ok none, w)
    install_result (some e, w) = (err e, w)

    -- Setup, and the Rcn with which the command goes on.
    unfoldable pub foreground : LoginNodeResponse → Rcn U → Action W (Option (Rcn U))
    foreground res r w =
        forget_rcn ((setup_rcn lib methods sys res.ip res.cidr >> gets λ s. some s.0) (r, w))

    unfoldable pub up_with : Bool → Conf G → LoginNodeResponse → Action W (Option (Rcn U))
    up_with as_daemon c res w =
        if as_daemon
        then install_result ((new_daemon w).install w)
        else foreground res (new_rcn c.spec.tun_name c.spec.wg_private_key) w

    -- A failed login ends the command with nil.
    unfoldable pub after_login :
        Bool → Conf G → Outcome LoginNodeResponse × W → Outcome (Option (Rcn U)) × W
    after_login as_daemon c (ok res, w) = up_with as_daemon c res w
    after_login as_daemon c (err e, w) = (ok none, w)
    after_login as_daemon c (panic, w) = (panic, w)

    -- `execUp` after NewRunelog, with its flag `daemon`, up to the end of Setup. `some r` means that it
    -- goes on in the foreground with `r`: `r.Start()` runs in a goroutine beside the wait for the
    -- channel, after which the command calls Stop. `none` means that it has returned nil.
    unfoldable pub exec_up : Bool → Action W (Option (Rcn U))
    exec_up as_daemon = do
      c ← conf
      λ w. after_login as_daemon c (login c.node_pub_key c.spec.wg_private_key w)
