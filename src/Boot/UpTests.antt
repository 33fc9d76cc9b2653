-- ===== src/Boot/UpTests.antt =====
-- cmd/runetaled/cmd/up.go: the commands where nothing fails, and on a system without systemd.
use runetale.Common.{ℕ, ◌+◌, ◌≡◌, refl, true, false, none, some, [], external, ok, err, value}
use runetale.ControlPlane.Peer.{IceMethods}
use runetale.ControlPlane.Defs.{Libraries}
use runetale.Daemon.Constants.{linux_service}
use runetale.Daemon.Systemd.{not_exist, DaemonCalls, no_text}
use runetale.Server.Defs.{LoginNodeResponse}
use runetale.Stored.Spec.{new_spec}
use runetale.Boot.Conf.{Conf}
use runetale.Boot.Rcn.{SystemIface}
use runetale.Daemon.Linux.{new_linux_daemon}
use runetale.Boot.Commands.{exec_down, exec_up}
use runetale.Boot.DaemonCommands.{install_daemon, uninstall_daemon, status_daemon}
use runetale.Boot.Unmanaged.{linux_commands-Unmanaged}

-- The world counts what was done: 10 for an interface that is made, 100 for one that is removed.
abbrev quiet : Libraries ℕ ℕ ℕ
quiet = record {
  parse_key = λ t. value [];
  key_string = λ k. "key";
  parse_url = λ t. value 0;
  unmarshal_candidate = λ t. value 0;
  get_stun_turn_config = λ w. (err (external 1), w);
  is_ready = λ w. true;
  receives = λ sent. true;
}

abbrev peer_methods : IceMethods ℕ ℕ ℕ
peer_methods = record {
  setup = λ i w. (ok tt, w);
  start_gathering_process = λ i w. (ok tt, w);
  cleanup = λ i w. (ok tt, w + 1);
  send_remote_answer_ch = λ i k u p w. (ok tt, w);
  send_remote_offer_ch = λ i k u p w. (ok tt, w);
  send_remote_candidate = λ i c w. (ok tt, w);
}

abbrev interfaces : SystemIface ℕ
interfaces = record {
  create_iface = λ i w. (ok tt, w + 10);
  remove_iface = λ t w. (ok tt, w + 100);
}

-- A system with neither init system.
abbrev bare_system : DaemonCalls ℕ
bare_system = record {
  group_id = λ w. some 0;
  get_uid = λ w. 0;
  file_exists = λ p w. false;
  active = λ n w. false;
  main_pid = λ n w. none;
  control = λ a w. (none, w + 1);
  remove = λ p w. (not_exist, w);
  mkdir_all = λ p w. (none, w + 1);
  executable = λ w. value "/usr/bin/runetaled";
  create = λ p w. (none, w + 1);
  open_file = λ p w. (none, w);
  copy = λ a b w. (none, w + 1);
  close_file = λ p w. (none, w);
  chmod = λ p w. (none, w + 1);
  rename = λ a b w. (none, w + 1);
  write_file = λ p t w. (none, w + 1);
}

abbrev plain_conf : Conf ℕ
plain_conf = record {
  signal_conn = 0;
  signal_state = record { state = ""; conn = none; made = 0; closed = λ ch. false };
  server_conn = 0;
  spec = new_spec "" "" 0 "" 0 false;
  node_pub_key = "";
}

abbrev address : LoginNodeResponse
address = record { ip = "10.0.0.1"; cidr = "24"; is_registered = true; login_url = "" }

linux_commands-Unmanaged_example :
    (let d = new_linux_daemon bare_system linux_service in
      (exec_up quiet peer_methods interfaces d
          (λ w. (ok plain_conf, w + 1))
          (λ k p w. (ok address, w + 1))
          true
          1
        ≡ (ok none, 3))
      × (exec_down quiet peer_methods interfaces d (λ w. (ok plain_conf, w + 1)) 1 ≡ (ok tt, 1)))
    × (install_daemon (λ w. (ok tt, w + 1)) (new_linux_daemon bare_system linux_service) 0
        ≡ (ok tt, 1))
    × (uninstall_daemon (λ w. (ok tt, w + 1)) (new_linux_daemon bare_system linux_service) 0
        ≡ (ok tt, 1))
    × (status_daemon (λ w. (ok tt, w + 1)) (new_linux_daemon bare_system linux_service) 0
        ≡ (ok no_text, 1))
linux_commands-Unmanaged_example =
    linux_commands-Unmanaged quiet peer_methods interfaces bare_system linux_service
      (λ w. (ok tt, w + 1)) (λ w. (ok plain_conf, w + 1)) (λ k p w. (ok address, w + 1)) 0 tt 1
      plain_conf 2 address 3 refl refl refl refl refl
