-- ===== src/Boot/Tests.antt =====
-- conf/conf.go: a node that starts twice on one disk.
use runetale.Common.{
  str_eq, ◌≢◌, ℕ, String, ◌≡◌, refl, ap, Bool, false, Option, none, some, List, [], arith, lookup,
  insert, erase, Outcome, ok, Action, value, ok_or,
}
use runetale.Stored.Tests.{
  json_inverts, makes_nines, Disk, temp_name, moved, disk, disk_laws, to_json, of_json, calls_on,
  wg_types,
}
use runetale.Stored.Files.{
  Files, and_then, chmod_unless_windows, remove_deferred, write_temp, after_temp, atomic_write_file,
}
use runetale.Stored.FileStore.{
  ReadResult, found, missing, StoreCalls, bytes_equal, check_stat, check_state_dir_permission,
  mk_state_dir, after_create, after_decode, after_read, after_mkdir, new_file_store, cached,
  after_marshal, write_state, read_state,
}
use runetale.Stored.Spec.{
  SpecCalls, new_spec, after_spec_write, after_spec_marshal, write_spec, after_key, after_spec_read,
  create_spec,
}
use runetale.Key.Client.{new_client_private_key, public_key_text, marshal_text, unmarshal_text}
use runetale.Key.Mem.{is_prefix, byte_lists}
use runetale.Key.Hex.{
  to_hex, encode, hex_digit, parse_hex, parse_digits, from_hex_char, join_digits, store_byte,
}
use runetale.Boot.Conf.{
  Conf, ConfArgs, open_store, saved_keys, node_key, setup_grpc, with_keys, new_conf,
}
use runetale.Boot.Store.{Reads}
use runetale.Boot.Identity.{LeavesState, new_conf-SameNode}
use runetale.Stored.ClientStore.{
  get_public_key, read_and_print, text_of, after_unmarshal, after_write, after_generate,
  read_or_generate, write_private_key,
}

abbrev read_at : Option (List ℕ) → ReadResult
read_at none = missing
read_at (some b) = found b

abbrev store_calls : StoreCalls Disk
store_calls = record (calls_on disk) { read_file = λ p w. read_at (lookup p w) }

found_of : (o : Option (List ℕ)) (b : List ℕ) → read_at o ≡ found b → o ≡ some b
found_of none b e = absurd (ground arith)
found_of (some c) b e = ground arith

reads_disk : Reads store_calls disk_laws
unfolding of_json bytes_equal
reads_disk = record {
  read_found = λ p w b e. ap read_at e;
  found_read = λ p w b e. found_of (lookup p w) b e;
  mkdir_keeps = λ d f m w. refl;
  chmod_keeps = λ d f m w. refl;
  empty_object = refl;
}

-- A configuration file on another disk, which accepts every write.
abbrev other_disk : Files Disk
other_disk = record {
  temp_file = λ f w. (value "t", w);
  write = λ tmp l w. (none, w);
  chmod = λ tmp p w. (none, w);
  sync = λ tmp w. (none, w);
  close = λ tmp w. (none, w);
  remove = λ tmp w. (none, w);
  rename = λ tmp f w. (none, w);
  is_windows = false;
}

abbrev spec_calls : SpecCalls Disk
spec_calls = record {
  files = other_disk;
  read_file = λ p w. missing;
  mkdir_for = λ p w. w;
  marshal_spec = λ s. value [];
  unmarshal_spec = λ b. new_spec "" "" 0 "" 0 false;
  tun_device = "rt0";
  new_generate_key = λ w. (ok "secret", w);
  without = λ p t. t;
  decimal = λ n. "443";
}

abbrev dial_hosts : Bool → String → Action Disk String
dial_hosts is_dev host w = (ok host, w)

leaves_disk : LeavesState byte_lists store_calls wg_types spec_calls dial_hosts "f" disk_laws
unfolding create_spec after_spec_read after_key write_spec after_spec_marshal after_spec_write
    atomic_write_file after_temp write_temp remove_deferred chmod_unless_windows and_then
leaves_disk = record {
  generate_keeps = λ w. refl;
  spec_keeps = λ s w n. refl;
  dial_keeps = λ d h w. refl;
}

abbrev args : ConfArgs
args = record {
  path = "c";
  is_dev = false;
  server_host = "server";
  server_port = 443;
  signal_host = "signal";
  signal_port = 443;
}

abbrev run : Disk → Outcome (Conf String) × Disk
run = new_conf byte_lists store_calls wg_types spec_calls dial_hosts "f" args

abbrev blank : Conf String
blank = record {
  signal_conn = "";
  signal_state = record { state = ""; conn = none; made = 0; closed = λ ch. false };
  server_conn = "";
  spec = new_spec "" "" 0 "" 0 false;
  node_pub_key = "";
}

abbrev first_conf : Conf String
first_conf = ok_or blank (run []).0

abbrev first_disk : Disk
first_disk = (run []).1

abbrev second_conf : Conf String
second_conf = ok_or blank (run first_disk).0

abbrev second_disk : Disk
second_disk = (run first_disk).1

both_runs :
    (run [] ≡ (ok first_conf, first_disk)) × (run first_disk ≡ (ok second_conf, second_disk))
unfolding new_conf open_store saved_keys with_keys node_key setup_grpc new_file_store mk_state_dir
    check_state_dir_permission check_stat after_mkdir after_read after_create after_decode
    read_state write_private_key read_or_generate new_client_private_key after_generate after_write
    after_unmarshal write_state after_marshal cached atomic_write_file after_temp write_temp
    remove_deferred chmod_unless_windows and_then temp_name moved to_json of_json lookup insert
    erase bytes_equal create_spec after_spec_read after_key write_spec after_spec_marshal
    after_spec_write marshal_text unmarshal_text to_hex encode hex_digit parse_hex parse_digits
    from_hex_char join_digits store_byte is_prefix get_public_key read_and_print text_of
    public_key_text
both_runs = (refl, refl)

paths_differ : args.path ≢ "f"
paths_differ e = cc (ap (λ t. str_eq t "c") e)

new_conf-SameNode_example : second_conf.node_pub_key ≡ first_conf.node_pub_key
new_conf-SameNode_example =
    new_conf-SameNode byte_lists store_calls wg_types spec_calls dial_hosts "f" disk_laws reads_disk
      json_inverts makes_nines leaves_disk args [] first_conf first_disk args first_disk second_conf
      second_disk paths_differ paths_differ both_runs.0 refl both_runs.1
