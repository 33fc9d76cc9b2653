-- ===== src/Boot/DaemonCommands.antt =====
-- cmd/runetaled/cmd/daemon.go, cmd/runetaled/cmd/status.go and cmd/runetale/cmd/login.go.
use runetale.Common.{
  String, Option, none, some, Error, Outcome, ok, err, panic, Action, pure, gets, ◌>>◌,
}
use runetale.Daemon.Systemd.{StatusText}
use runetale.Daemon.Interface.{Daemon}
use runetale.Boot.Conf.{Conf}

-- `if err != nil { return nil }`
abbrev pub nil_or :
    {A W : Type 0} → (A → Action W (Unit {0})) → Outcome A × W → Outcome (Unit {0}) × W
nil_or f (ok a, w) = f a w
nil_or f (err e, w) = (ok tt, w)
nil_or f (panic, w) = (panic, w)

-- `runelog` is NewRunelog with the flags of the command. What is printed or logged is left out.
module _ {L W : Type 0} (runelog : Action W L) where
  -- How the commands begin: a logger that cannot be made ends them with nil.
  unfoldable pub with_runelog : Action W (Unit {0}) → Action W (Unit {0})
  with_runelog m w = nil_or (λ l. m) (runelog w)

  unfoldable pub end_with : Option Error × W → Outcome (Unit {0}) × W
  end_with (none, w) = (ok tt, w)
  end_with (some e, w) = (err e, w)

  -- The commands of the daemon, over the daemon that NewDaemon gives.
  module _ (new_daemon : W → Daemon W) where
    unfoldable pub install_daemon : Action W (Unit {0})
    install_daemon = with_runelog λ w. end_with ((new_daemon w).install w)

    unfoldable pub uninstall_daemon : Action W (Unit {0})
    uninstall_daemon = with_runelog λ w. end_with ((new_daemon w).uninstall w)

    -- The text that `status daemon` prints; a logger that cannot be made ends the process.
    unfoldable pub status_daemon : Action W StatusText
    status_daemon = do runelog; gets λ w. ((new_daemon w).status w).0

  -- `execLogin`: an error of NewConf gives nil, one of loginNode is returned. `login` is loginNode
  -- with the server client of the configuration.
  module _ {G : Type 0} (conf : Action W (Conf G))
      (login : G → String → String → String → Action W (String × String)) where
    unfoldable pub login_with : String → Conf G → Action W (Unit {0})
    login_with access_token c = do
      login c.server_conn access_token c.node_pub_key c.spec.wg_private_key
      pure tt

    unfoldable pub exec_login : String → Action W (Unit {0})
    exec_login access_token = with_runelog λ w. nil_or (login_with access_token) (conf w)
