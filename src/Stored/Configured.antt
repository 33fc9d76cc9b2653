-- ===== src/Stored/Configured.antt =====
-- conf/spec.go: what CreateSpec keeps of the configuration file.
use runetale.Common.{
  ℕ, String, ◌≡◌, refl, Option, none, some, List, Error, Outcome, ok, err, panic, Fallible, value,
  error,
}
use runetale.Stored.Files.{atomic_write_file}
use runetale.Stored.Atomic.{FileLaws, Done, atomic_write_file-Done}
use runetale.Stored.FileStore.{found}
use runetale.Stored.Spec.{
  Spec, SpecCalls, spec_mode, host_or, after_spec_write, after_spec_marshal, write_spec,
  after_spec_read, create_spec,
}

module _ {W : Type 0} (calls : SpecCalls W) (laws : FileLaws calls.files) where
  open laws use {content}

  -- CreateSpec panicked and the file is as it was, or it gave a spec that satisfies `P` and that the
  -- file now holds.
  abbrev pub Configured : (Spec → Type 0) → String → Option (List ℕ) → Outcome Spec × W → Type 0
  Configured P path old (ok s, w) =
      P s × ((b : List ℕ) × (calls.marshal_spec s ≡ value b) × (content path w ≡ some b))
  Configured P path old (err e, w) = ⊥
  Configured P path old (panic, w) = content path w ≡ old

  written-Configured :
      (P : Spec → Type 0) (s : Spec) (b : List ℕ) (old : Option (List ℕ)) (out : Option Error × W)
      → P s
      → calls.marshal_spec s ≡ value b
      → Done calls.files laws s.path b old out
      → Configured P s.path old (after_spec_write calls s out)
  unfolding after_spec_write
  written-Configured P s b old (none, w) p m d = (p, (b, m, d))
  written-Configured P s b old (some e, w) p m d = d

  pub marshalled-Configured :
      (P : Spec → Type 0) (s : Spec) (m : Fallible (List ℕ)) (w : W)
      → P s
      → calls.marshal_spec s ≡ m
      → Configured P s.path (content s.path w) (after_spec_marshal calls s m w)
  unfolding after_spec_marshal
  marshalled-Configured P s (error e) w p m = refl
  marshalled-Configured P s (value b) w p m =
      written-Configured P s b (content s.path w)
        (atomic_write_file calls.files s.path b spec_mode w) p m
        (atomic_write_file-Done calls.files laws s.path b spec_mode w)

  -- What stays of the file's spec, and what the command line replaces.
  pub record IsKept (s old s' : Spec) : Type 0 where
    pub same_key : s'.wg_private_key ≡ old.wg_private_key
    pub same_tun : s'.tun_name ≡ old.tun_name
    pub same_black_list : s'.black_list ≡ old.black_list
    pub server : s'.server_host ≡ host_or s.server_host old.server_host
    pub signal : s'.signal_host ≡ host_or s.signal_host old.signal_host
    pub given_ports : (s'.server_port ≡ s.server_port) × (s'.signal_port ≡ s.signal_port)
    pub lost_secret : s'.pre_shared_key ≡ s.pre_shared_key

  -- Where the configuration file exists and making its directory changes no content, CreateSpec
  -- panics and leaves the file as it was, or it writes and returns a spec that keeps the file's
  -- private key, TUN name and black list, has the given hosts or else the file's, the given ports,
  -- and not the file's preshared key but the one it started with.
  pub create_spec-Configured :
      (s : Spec) (w : W) (b : List ℕ)
      → calls.read_file s.path w ≡ found b
      → content s.path (calls.mkdir_for s.path w) ≡ content s.path w
      → Configured
          (IsKept s (calls.unmarshal_spec b))
          s.path
          (content s.path w)
          (create_spec calls s w)
  unfolding create_spec after_spec_read write_spec
  create_spec-Configured s w b read same =
      let old = calls.unmarshal_spec b in
      let s' =
        let r : Spec = record s {
          server_host = host_or s.server_host old.server_host;
          signal_host = host_or s.signal_host old.signal_host;
          wg_private_key = old.wg_private_key;
          tun_name = old.tun_name;
          black_list = old.black_list;
        } in
        r in
      rw (read, ← same)
        (marshalled-Configured (IsKept s old) s' (calls.marshal_spec s') (calls.mkdir_for s.path w)
          (record {
            same_key = refl;
            same_tun = refl;
            same_black_list = refl;
            server = refl;
            signal = refl;
            given_ports = (refl, refl);
            lost_secret = refl;
          })
          refl)
