-- ===== src/Boot/CommandTests.antt =====
-- cmd/runetaled/cmd/down.go: `down` where the daemon runs.
use runetale.Common.{ℕ, ◌+◌, ◌≡◌, refl, true, false, none, [], external, ok, err, panic, value}
use runetale.ControlPlane.Peer.{IceMethods}
use runetale.ControlPlane.Defs.{Libraries}
use runetale.Daemon.Interface.{Daemon}
use runetale.Daemon.Systemd.{running}
use runetale.Stored.Spec.{new_spec}
use runetale.Boot.Conf.{Conf}
use runetale.Boot.Rcn.{SystemIface}
use runetale.Boot.Commands.{exec_down}
use runetale.Boot.Stopped.{exec_down-panics}

abbrev libraries : Libraries ℕ ℕ ℕ
libraries = record {
  parse_key = λ t. value [];
  key_string = λ k. "key";
  parse_url = λ t. value 0;
  unmarshal_candidate = λ t. value 0;
  get_stun_turn_config = λ w. (err (external 1), w);
  is_ready = λ w. true;
  receives = λ sent. true;
}

abbrev methods : IceMethods ℕ ℕ ℕ
methods = record {
  setup = λ i w. (ok tt, w);
  start_gathering_process = λ i w. (ok tt, w);
  cleanup = λ i w. (ok tt, w);
  send_remote_answer_ch = λ i k u p w. (ok tt, w);
  send_remote_offer_ch = λ i k u p w. (ok tt, w);
  send_remote_candidate = λ i c w. (ok tt, w);
}

abbrev interface_calls : SystemIface ℕ
interface_calls = record { create_iface = λ i w. (ok tt, w); remove_iface = λ t w. (ok tt, w) }

abbrev running_daemon : Daemon ℕ
running_daemon = record {
  install = λ w. (none, w);
  uninstall = λ w. (none, w);
  status = λ w. (running, true);
}

abbrev small_conf : Conf ℕ
small_conf = record {
  signal_conn = 0;
  signal_state = record { state = ""; conn = none; made = 0; closed = λ ch. false };
  server_conn = 0;
  spec = new_spec "" "" 0 "" 0 false;
  node_pub_key = "";
}

exec_down-panics_example :
    exec_down libraries methods interface_calls
      (λ w. running_daemon)
      (λ w. (ok small_conf, w + 1))
      0
    ≡ (panic, 1)
exec_down-panics_example =
    exec_down-panics libraries methods interface_calls (λ w. running_daemon)
      (λ w. (ok small_conf, w + 1)) 0 small_conf 1 refl refl
