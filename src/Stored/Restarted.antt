-- ===== src/Stored/Restarted.antt =====
-- conf/spec.go: CreateSpec at the next start.
use mathlib.Core.Path.{subst}
use runetale.Common.{
  ℕ, String, ◌≡◌, refl, sym, ◌∙◌, Option, none, some, List, [], ◌∷◌, arith, Error, Outcome, ok, err,
  panic, value,
}
use runetale.Stored.Atomic.{FileLaws, Done, atomic_write_file-Done}
use runetale.Stored.FileStore.{ReadResult, found, missing, unreadable}
use runetale.Stored.Spec.{
  Spec, SpecCalls, spec_mode, host_or, after_spec_write, after_spec_marshal, write_spec, after_key,
  after_spec_read, create_spec,
}
use runetale.Stored.Configured.{Configured, marshalled-Configured}
use runetale.Stored.Files.{atomic_write_file}

-- The host of the command line stays, however often it is chosen.
host_or-host_or : (a b : String) → host_or a (host_or a b) ≡ host_or a b
unfolding host_or
host_or-host_or a b = ground arith

host_or_self : (a : String) → host_or a a ≡ a
unfolding host_or
host_or_self a = ground arith

module _ {W : Type 0} (calls : SpecCalls W) (laws : FileLaws calls.files) where
  open laws use {content}

  -- The fields that are written to the file are those of the spec.
  pub record SameFields (s s' : Spec) : Type 0 where
    pub key : s'.wg_private_key ≡ s.wg_private_key
    pub tun : s'.tun_name ≡ s.tun_name
    pub black_list : s'.black_list ≡ s.black_list
    pub server : s'.server_host ≡ s.server_host
    pub signal : s'.signal_host ≡ s.signal_host

  -- What CreateSpec relies on of reading and of JSON.
  pub record Rereads : Type 0 where
    pub content_read :
        (p : String) (w : W) (b : List ℕ) → content p w ≡ some b → calls.read_file p w ≡ found b
    pub mkdir_keeps : (p : String) (w : W) → content p (calls.mkdir_for p w) ≡ content p w
    pub parsed :
        (s : Spec) (b : List ℕ)
        → calls.marshal_spec s ≡ value b
        → SameFields s (calls.unmarshal_spec b)

  -- A spec that the flags of `s` lead to.
  pub record FromFlags (s s' : Spec) : Type 0 where
    pub same_path : s'.path ≡ s.path
    pub same_debug : s'.is_debug ≡ s.is_debug
    pub same_secret : s'.pre_shared_key ≡ s.pre_shared_key
    pub same_ports : (s'.server_port ≡ s.server_port) × (s'.signal_port ≡ s.signal_port)
    pub server_stable : host_or s.server_host s'.server_host ≡ s'.server_host
    pub signal_stable : host_or s.signal_host s'.signal_host ≡ s'.signal_host

  -- Where a spec was written, the file holds its JSON.
  abbrev pub Wrote : Spec → Outcome Spec × W → Type 0
  Wrote s (ok s', w) =
      FromFlags s s'
      × ((b : List ℕ) × (calls.marshal_spec s' ≡ value b) × (content s.path w ≡ some b))
  Wrote s (err e, w) = Unit
  Wrote s (panic, w) = Unit

  Configured-Wrote :
      (s : Spec) (old : Option (List ℕ)) (out : Outcome Spec × W)
      → Configured calls laws (FromFlags s) s.path old out
      → Wrote s out
  Configured-Wrote s old (ok s', w) h = h
  Configured-Wrote s old (err e, w) h = absurd h
  Configured-Wrote s old (panic, w) h = tt

  module _ (reads : Rereads) (s : Spec) where
    write_spec-Wrote :
        (key tun : String) (black_list : List String) (server signal : String) (w : W)
        → host_or s.server_host server ≡ server
        → host_or s.signal_host signal ≡ signal
        → Wrote s
            (write_spec calls s key tun server s.server_port signal s.signal_port black_list "" w)
    unfolding write_spec
    write_spec-Wrote key tun black_list server signal w hs hg =
        let s' : Spec = record s {
          server_host = server;
          signal_host = signal;
          wg_private_key = key;
          tun_name = tun;
          black_list = black_list;
        } in
        Configured-Wrote s _ _ (
          marshalled-Configured calls laws (FromFlags s) s' (calls.marshal_spec s')
            (calls.mkdir_for s.path w)
            (record {
              same_path = refl;
              same_debug = refl;
              same_secret = refl;
              same_ports = (refl, refl);
              server_stable = hs;
              signal_stable = hg;
            })
            refl)

    after_key-Wrote : (out : Outcome String × W) → Wrote s (after_key calls s out)
    unfolding after_key
    after_key-Wrote (ok key, w) =
        write_spec-Wrote key calls.tun_device (calls.tun_device ∷ []) s.server_host s.signal_host w
          (host_or_self s.server_host) (host_or_self s.signal_host)
    after_key-Wrote (err e, w) = tt
    after_key-Wrote (panic, w) = tt

    after_spec_read-Wrote : (r : ReadResult) (w : W) → Wrote s (after_spec_read calls s r w)
    unfolding after_spec_read
    after_spec_read-Wrote missing w = after_key-Wrote (calls.new_generate_key w)
    after_spec_read-Wrote (unreadable e) w = tt
    after_spec_read-Wrote (found b) w =
        let old = calls.unmarshal_spec b in
        write_spec-Wrote old.wg_private_key old.tun_name old.black_list
          (host_or s.server_host old.server_host) (host_or s.signal_host old.signal_host) w
          (host_or-host_or s.server_host old.server_host)
          (host_or-host_or s.signal_host old.signal_host)

    create_spec-Wrote : (w : W) → Wrote s (create_spec calls s w)
    unfolding create_spec
    create_spec-Wrote w = after_spec_read-Wrote (calls.read_file s.path w) w

    -- The next start gives the same spec or panics, and the file stays as it was.
    abbrev pub Again : Spec → List ℕ → Outcome Spec × W → Type 0
    Again s₁ b (ok s₂, w) = (s₂ ≡ s₁) × (content s.path w ≡ some b)
    Again s₁ b (err e, w) = ⊥
    Again s₁ b (panic, w) = content s.path w ≡ some b

    after_spec_write-Again :
        (s₁ : Spec) (b : List ℕ) (out : Option Error × W)
        → Done calls.files laws s.path b (some b) out
        → Again s₁ b (after_spec_write calls s₁ out)
    unfolding after_spec_write
    after_spec_write-Again s₁ b (none, w) d = (refl, d)
    after_spec_write-Again s₁ b (some e, w) d = d

    -- The spec that is made of the file is the one that was written to it.
    rewritten :
        (s₁ old : Spec)
        → FromFlags s s₁
        → SameFields s₁ old
        → (let r : Spec = record s {
          server_host = host_or s.server_host old.server_host;
          server_port = s.server_port;
          signal_host = host_or s.signal_host old.signal_host;
          signal_port = s.signal_port;
          wg_private_key = old.wg_private_key;
          tun_name = old.tun_name;
          black_list = old.black_list;
        } in
            r)
          ≡ s₁
    rewritten s₁ old f o =
        rw
          (
            o.key,
            o.tun,
            o.black_list,
            o.server,
            o.signal,
            f.server_stable,
            f.signal_stable,
            ← f.same_path,
            ← f.same_debug,
            ← f.same_secret,
            ← f.same_ports.0,
            ← f.same_ports.1,
          )
          refl

    create_spec-Again :
        (s₁ : Spec) (b : List ℕ) (w : W)
        → FromFlags s s₁
        → calls.marshal_spec s₁ ≡ value b
        → content s.path w ≡ some b
        → Again s₁ b (create_spec calls s w)
    unfolding create_spec after_spec_read write_spec after_spec_marshal
    create_spec-Again s₁ b w f m held =
        let old = calls.unmarshal_spec b in
        let w' = calls.mkdir_for s.path w in
        let out = atomic_write_file calls.files s.path b spec_mode w' in
        rw (reads.content_read s.path w b held, rewritten s₁ old f (reads.parsed s₁ b m), m)
          (subst
            (λ p.
              Again s₁ b
                (after_spec_write calls s₁ (atomic_write_file calls.files p b spec_mode w')))
            (sym f.same_path)
            (after_spec_write-Again s₁ b out (
              subst (λ o. Done calls.files laws s.path b o out) (reads.mkdir_keeps s.path w ∙ held)
                (atomic_write_file-Done calls.files laws s.path b spec_mode w'))))

    -- If a start has made a spec, and the file is as it was when CreateSpec is called again with
    -- the same flags, then that gives the same spec, with the same WireGuard key, or it panics; in
    -- both cases the file holds what it held.
    pub create_spec-Stable :
        (w : W) (s₁ : Spec) (w₁ w₂ : W)
        → create_spec calls s w ≡ (ok s₁, w₁)
        → content s.path w₂ ≡ content s.path w₁
        → (b : List ℕ) × (content s.path w₁ ≡ some b) × Again s₁ b (create_spec calls s w₂)
    create_spec-Stable w s₁ w₁ w₂ first same =
        let (f, (b, m, held)) = subst (Wrote s) first (create_spec-Wrote w) in
        (b, held, create_spec-Again s₁ b w₂ f m (same ∙ held))
