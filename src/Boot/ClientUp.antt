-- ===== src/Boot/ClientUp.antt =====
-- cmd/runetale/cmd/up.go, process: the client's command `up`, up to the engine whose Start it calls.
use runetale.Common.{
  ℕ, String, Bool, true, false, not, ◌&&◌, Option, none, some, List, [], ◌∷◌, if◌then◌else◌, Error,
  ok, err, Action, ◌>>=◌, Fallible, value, error,
}
use runetale.Daemon.Interface.{Daemon}
use runetale.Engine.Defs.{Engine, new_engine}
use runetale.Boot.Conf.{Conf}

-- The command line that GetRunetaledProcess runs, and whether it finds a process.
unfoldable pub get_runetaled_process : {W : Type 0} → (List String → W → Option Error) → W → Bool
get_runetaled_process combined_output w = elim (combined_output ("pgrep" ∷ "runetaled" ∷ []) w) [
  | none ↦ true
  | some e ↦ false
]

unfoldable pub is_install_runetaled_daemon : {W : Type 0} → Daemon W → W → Bool
is_install_runetaled_daemon d w = (d.status w).1

-- `conf` is NewConf with the flags, `login` is loginNode with the server client of the
-- configuration, and `parse_key` is wgtypes.ParseKey.
module _ {G W : Type 0} (d : Daemon W) (combined_output : List String → W → Option Error)
    (parse_key : String → Fallible (List ℕ)) (conf : Action W (Conf G))
    (login : G → String → String → String → Action W (String × String)) where
  -- `upEngine`: the engine that is started, or the error of NewEngine.
  unfoldable pub up_engine : Conf G → String × String → Action W (Option Engine)
  up_engine c (ip, cidr) w =
      elim (new_engine parse_key c.spec.tun_name c.node_pub_key ip cidr c.spec.wg_private_key
        c.spec.black_list) [ value e ↦ (ok (some e), w) | error e ↦ (err e, w) ]

  unfoldable pub login_and_start : String → Conf G → Action W (Option Engine)
  login_and_start access_token c = do
    address ← login c.server_conn access_token c.node_pub_key c.spec.wg_private_key
    up_engine c address

  -- Without a daemon that is installed or runs, `up` asks for one and ends.
  unfoldable pub with_daemon : String → Conf G → Action W (Option Engine)
  with_daemon access_token c w =
      if not (is_install_runetaled_daemon d w) && not (get_runetaled_process combined_output w)
      then (ok none, w)
      else login_and_start access_token c w

  -- `execUp` of the client after NewRunelog; `none` means that it returns nil without an engine.
  unfoldable pub client_up : String → Action W (Option Engine)
  client_up access_token = do c ← conf; with_daemon access_token c
