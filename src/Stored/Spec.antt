-- ===== src/Stored/Spec.antt =====
-- conf/spec.go: the configuration file, and the host texts of the clients.
use runetale.Common.{
  ℕ, String, Bool, not, Option, none, some, List, [], ◌∷◌, str_eq, if◌then◌else◌, Error, Outcome,
  ok, err, panic, Action, concat, Fallible, value, error,
}
use runetale.Stored.Files.{Files, atomic_write_file}
use runetale.Stored.FileStore.{ReadResult, found, missing, unreadable}

-- Spec; `path` and `is_debug` are not written to the file.
pub record Spec : Type 0 where
  pub wg_private_key : String
  pub server_host : String
  pub server_port : ℕ
  pub signal_host : String
  pub signal_port : ℕ
  pub tun_name : String
  pub pre_shared_key : String
  pub black_list : List String
  pub path : String
  pub is_debug : Bool

-- The calls of os, encoding/json and strings, and those of the packages tun and types/key. What
-- `unmarshal_spec` gives of a text that is no JSON may be a part of a spec; `mkdir_for` makes the
-- directory of the path, and its error is only logged.
pub record SpecCalls (W : Type 0) : Type 0 where
  pub files : Files W
  pub read_file : String → W → ReadResult
  pub mkdir_for : String → W → W
  pub marshal_spec : Spec → Fallible (List ℕ)
  pub unmarshal_spec : List ℕ → Spec
  pub tun_device : String
  pub new_generate_key : Action W String
  pub without : String → String → String
  pub decimal : ℕ → String

-- `NewSpec`
unfoldable pub new_spec : String → String → ℕ → String → ℕ → Bool → Spec
new_spec path server_host server_port signal_host signal_port is_debug = record {
  wg_private_key = "";
  server_host = server_host;
  server_port = server_port;
  signal_host = signal_host;
  signal_port = signal_port;
  tun_name = "";
  pre_shared_key = "";
  black_list = [];
  path = path;
  is_debug = is_debug;
}

-- The mode 0755.
abbrev pub spec_mode : ℕ
spec_mode = 493

-- The host given on the command line, or else the one in the file.
unfoldable pub host_or : String → String → String
host_or given saved = if str_eq given "" then saved else given

module _ {W : Type 0} (calls : SpecCalls W) where
  unfoldable pub after_spec_write : Spec → Option Error × W → Outcome Spec × W
  after_spec_write s (none, w) = (ok s, w)
  after_spec_write s (some e, w) = (panic, w)

  unfoldable pub after_spec_marshal : Spec → Fallible (List ℕ) → W → Outcome Spec × W
  after_spec_marshal s (error e) w = (panic, w)
  after_spec_marshal s (value b) w =
      after_spec_write s (atomic_write_file calls.files s.path b spec_mode w)

  -- `writeSpec`, which drops the preshared key that it is given.
  unfoldable pub write_spec :
      Spec → String → String → String → ℕ → String → ℕ → List String → String → W → Outcome Spec × W
  write_spec s wg_private_key tun_name server_host server_port signal_host signal_port black_list
        preshared_key w =
      let s' =
        let r : Spec = record s {
          server_host = server_host;
          server_port = server_port;
          signal_host = signal_host;
          signal_port = signal_port;
          wg_private_key = wg_private_key;
          tun_name = tun_name;
          black_list = black_list;
        } in
        r in
      after_spec_marshal s' (calls.marshal_spec s') (calls.mkdir_for s.path w)

  unfoldable pub after_key : Spec → Outcome String × W → Outcome Spec × W
  after_key s (err e, w) = (panic, w)
  after_key s (panic, w) = (panic, w)
  after_key s (ok key, w) =
      write_spec s key calls.tun_device s.server_host s.server_port s.signal_host s.signal_port
        (calls.tun_device ∷ []) "" w

  unfoldable pub after_spec_read : Spec → ReadResult → W → Outcome Spec × W
  after_spec_read s missing w = after_key s (calls.new_generate_key w)
  after_spec_read s (unreadable e) w = (panic, w)
  after_spec_read s (found b) w =
      let spec = calls.unmarshal_spec b in
      write_spec s spec.wg_private_key spec.tun_name (host_or s.server_host spec.server_host)
        s.server_port (host_or s.signal_host spec.signal_host) s.signal_port spec.black_list "" w

  unfoldable pub create_spec : Spec → W → Outcome Spec × W
  create_spec s w = after_spec_read s (calls.read_file s.path w) w

  -- `buildHost`, with `GetServerHost` and `GetSignalHost`; `without` is strings.Replace by "".
  unfoldable pub build_host : Spec → String → ℕ → String
  build_host s host port =
      let h =
        if not s.is_debug then calls.without "https://" host else calls.without "http://" host in
      concat h (concat ":" (calls.decimal port))
