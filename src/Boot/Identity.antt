-- ===== src/Boot/Identity.antt =====
-- conf/conf.go: a node that starts again has the same node key.
use mathlib.Core.Path.{subst}
use runetale.Common.{
  ℕ, String, ◌≡◌, refl, sym, ap, ◌∙◌, ◌≢◌, Bool, Option, none, some, List, arith, Error, Outcome,
  ok, err, panic, Action, Fallible, value, error, bound-ok, ok_or,
}
use runetale.Stored.FileStore.{StoreCalls, FileStore, read_state}
use runetale.Stored.ClientStore.{
  client_private_key_state_key, ClientState, write_private_key, text_of, read_and_print,
  get_public_key,
}
use runetale.Stored.Spec.{Spec, SpecCalls, new_spec, create_spec, build_host}
use runetale.Stored.Reopened.{RoundTrips, InSync}
use runetale.Stored.Persistent.{MakesKeys}
use runetale.Stored.Atomic.{FileLaws}
use runetale.Key.Client.{WgTypes, ClientPrivateState, public_key_text, unmarshal_text}
use runetale.Key.Mem.{Mem}
use runetale.Boot.Conf.{
  Conf, ConfArgs, zero_private, store_result, keys_result, open_store, saved_keys, node_key,
  setup_grpc, with_keys, new_conf,
}
use runetale.Boot.Store.{Reads, Opened, new_file_store-Opened, Same, new_file_store-Same}
use runetale.Boot.Keys.{Stable, Kept, write_private_key-Kept}

module _ {G W : Type 0} (mem : Mem) (store : StoreCalls W) (wg : WgTypes W) (specs : SpecCalls W)
    (dial : Bool → String → Action W G) (state_file : String) (laws : FileLaws store.files) where
  open laws use {content}

  -- What else happens in NewConf leaves the state file as it is: making a key, the configuration
  -- file, and connecting.
  pub record LeavesState : Type 0 where
    pub generate_keeps :
        (w : W) → content state_file (wg.generate_private_key w).1 ≡ content state_file w
    pub spec_keeps :
        (s : Spec) (w : W)
        → s.path ≢ state_file
        → content state_file (create_spec specs s w).1 ≡ content state_file w
    pub dial_keeps :
        (d : Bool) (h : String) (w : W) → content state_file (dial d h w).1 ≡ content state_file w

  -- The state file holds the store, and WritePrivateKey on it does nothing and gives the key.
  pub record Settled (k : ClientPrivateState) (fs : FileStore) (w : W) : Type 0 where
    pub sync : InSync store laws (fs, w)
    pub path : fs.path ≡ state_file
    pub stable : Stable mem store wg laws k fs

  text_of-world :
      (fs : FileStore) (r : Option Error × ClientPrivateState) (w w' : W)
      → (text_of mem store wg (public_key_text wg) r fs w).0
        ≡ (text_of mem store wg (public_key_text wg) r fs w').0
  unfolding text_of
  text_of-world fs (none, k) w w' = refl
  text_of-world fs (some e, k) w w' = refl

  -- The key in the configuration does not depend on the world.
  read_and_print-world :
      (k : ClientPrivateState) (fs : FileStore) (r : Fallible (List ℕ)) (w w' : W)
      → (read_and_print mem store wg (public_key_text wg) r (k, fs, w)).0
        ≡ (read_and_print mem store wg (public_key_text wg) r (k, fs, w')).0
  unfolding read_and_print
  read_and_print-world k fs (error e) w w' = refl
  read_and_print-world k fs (value text) w w' = text_of-world fs (unmarshal_text mem k text) w w'

  node_key-world :
      (keys : ClientPrivateState × FileStore) (w w' : W)
      → node_key mem store wg specs dial state_file keys w
        ≡ node_key mem store wg specs dial state_file keys w'
  unfolding node_key get_public_key
  node_key-world (k, fs) w w' =
      read_and_print-world k fs (read_state store client_private_key_state_key fs) w w'

  store_result-ok :
      (r : Fallible FileStore × W) (fs : FileStore) (w : W)
      → store_result r ≡ (ok fs, w)
      → r ≡ (value fs, w)
  store_result-ok (value fs', w') fs w h =
      ap (λ (p : Outcome FileStore × W). (value (ok_or fs p.0), p.1)) h
  store_result-ok (error e, w') fs w h = absurd (ground (arith, ap (λ p. p.0) h))

  keys_result-ok :
      (r : Outcome (Unit {0}) × ClientState W) (k : ClientPrivateState) (fs : FileStore) (w : W)
      → keys_result r ≡ (ok (k, fs), w)
      → r ≡ (ok tt, (k, fs, w))
  keys_result-ok (ok _, (k', fs', w')) k fs w h =
      ap
        (λ (p : Outcome (ClientPrivateState × FileStore) × W).
          (ok tt, ((ok_or (k, fs) p.0).0, (ok_or (k, fs) p.0).1, p.1)))
        h
  keys_result-ok (err e, s) k fs w h = absurd (ground (arith, ap (λ p. p.0) h))
  keys_result-ok (panic, s) k fs w h = absurd (ground (arith, ap (λ p. p.0) h))

  module _ (reads : Reads store laws) (rt : RoundTrips store laws)
      (makes : MakesKeys mem store wg laws) (leaves : LeavesState) where
    with_keys-Keeps :
        (args : ConfArgs) (keys : ClientPrivateState × FileStore) (w : W) (c : Conf G) (w' : W)
        → args.path ≢ state_file
        → with_keys mem store wg specs dial state_file args keys w ≡ (ok c, w')
        → (content state_file w' ≡ content state_file w)
          × (c.node_pub_key ≡ node_key mem store wg specs dial state_file keys w')
    unfolding with_keys setup_grpc new_spec
    with_keys-Keeps args keys w c w' n h =
        let start =
          new_spec args.path args.server_host args.server_port args.signal_host args.signal_port
            args.is_dev in
        let (spec, e₁, h₁) = bound-ok _ (create_spec specs start w) c w' h in
        let w₁ = (create_spec specs start w).1 in
        let server_host = build_host specs spec spec.server_host spec.server_port in
        let (server, e₂, h₂) = bound-ok _ (dial args.is_dev server_host w₁) c w' h₁ in
        let w₂ = (dial args.is_dev server_host w₁).1 in
        let signal_host = build_host specs spec spec.signal_host spec.signal_port in
        let (signal, e₃, h₃) = bound-ok _ (dial args.is_dev signal_host w₂) c w' h₂ in
        let w₃ = (dial args.is_dev signal_host w₂).1 in
        (
          ap (content state_file) (sym (ap (λ p. p.1) h₃))
              ∙ leaves.dial_keeps args.is_dev signal_host w₂
              ∙ leaves.dial_keeps args.is_dev server_host w₁
              ∙ leaves.spec_keeps start w n,
          sym (ap (λ (p : Outcome (Conf G) × W). (ok_or c p.0).node_pub_key) h₃)
              ∙ node_key-world keys w₃ w',
        )

    -- After the store and the key, both are settled.
    keys-Settled :
        (w : W) (fs : FileStore) (w₁ : W) (k : ClientPrivateState) (fs' : FileStore) (w₂ : W)
        → open_store mem store wg specs dial state_file w ≡ (ok fs, w₁)
        → saved_keys mem store wg specs dial state_file fs w₁ ≡ (ok (k, fs'), w₂)
        → Settled k fs' w₂
    unfolding open_store saved_keys
    keys-Settled w fs w₁ k fs' w₂ opens saves =
        let (sync, path) =
          subst (Opened store laws reads state_file) (store_result-ok _ fs w₁ opens)
            (new_file_store-Opened store laws reads state_file w) in
        let keeps =
          subst (λ p. (v : W) → content p (wg.generate_private_key v).1 ≡ content p v) (sym path)
            leaves.generate_keeps in
        let (sync', path', stable) =
          subst (Kept mem store wg laws fs.path) (keys_result-ok _ k fs' w₂ saves)
            (write_private_key-Kept mem store wg laws fs w₁ rt makes keeps sync) in
        record { sync = sync'; path = path' ∙ path; stable = stable }

    -- Opened again, where the file is as it was, they are the same.
    keys-same :
        (k : ClientPrivateState) (fs : FileStore) (w w₃ : W) (fs₁ : FileStore) (w₄ : W)
        (keys : ClientPrivateState × FileStore) (w₅ : W)
        → Settled k fs w
        → content state_file w₃ ≡ content state_file w
        → open_store mem store wg specs dial state_file w₃ ≡ (ok fs₁, w₄)
        → saved_keys mem store wg specs dial state_file fs₁ w₄ ≡ (ok keys, w₅)
        → keys ≡ (k, fs)
    unfolding open_store saved_keys
    keys-same k fs w w₃ fs₁ w₄ keys w₅ st kept opens saves =
        let (b, held, decoded) = st.sync in
        let at = kept ∙ ap (λ p. content p w) (sym st.path) ∙ held in
        let same =
          subst (Same store laws reads state_file fs b st.path decoded)
            (store_result-ok _ fs₁ w₄ opens)
            (new_file_store-Same store laws reads state_file fs b st.path decoded w₃ at) in
        let again =
          subst
            (λ f.
              keys_result (write_private_key mem store wg (zero_private, f, w₄)) ≡ (ok keys, w₅))
            same saves in
        sym (
          ap (λ (p : Outcome (ClientPrivateState × FileStore) × W). ok_or (k, fs) p.0)
            (sym (ap keys_result (st.stable w₄)) ∙ again))

    -- If NewConf succeeds, nothing but NewConf itself changes the state file, and a later NewConf
    -- succeeds, and no configuration file is the state file, then both have the same node key: the later one finds the key
    -- that the first one found or made.
    pub new_conf-SameNode :
        (args : ConfArgs) (w : W) (c : Conf G) (w₁ : W) (args' : ConfArgs) (w₂ : W) (c' : Conf G)
        (w₃ : W)
        → args.path ≢ state_file
        → args'.path ≢ state_file
        → new_conf mem store wg specs dial state_file args w ≡ (ok c, w₁)
        → content state_file w₂ ≡ content state_file w₁
        → new_conf mem store wg specs dial state_file args' w₂ ≡ (ok c', w₃)
        → c'.node_pub_key ≡ c.node_pub_key
    unfolding new_conf
    new_conf-SameNode args w c w₁ args' w₂ c' w₃ n n' first kept second =
        let (fs, a₁, b₁) =
          bound-ok _ (open_store mem store wg specs dial state_file w) c w₁ first in
        let v₁ = (open_store mem store wg specs dial state_file w).1 in
        let ((k, fs'), a₂, b₂) =
          bound-ok _ (saved_keys mem store wg specs dial state_file fs v₁) c w₁ b₁ in
        let v₂ = (saved_keys mem store wg specs dial state_file fs v₁).1 in
        let settled = keys-Settled w fs v₁ k fs' v₂ a₁ a₂ in
        let (stays, text) = with_keys-Keeps args (k, fs') v₂ c w₁ n b₂ in
        let (fs₁, d₁, e₁) =
          bound-ok _ (open_store mem store wg specs dial state_file w₂) c' w₃ second in
        let u₁ = (open_store mem store wg specs dial state_file w₂).1 in
        let (keys, d₂, e₂) =
          bound-ok _ (saved_keys mem store wg specs dial state_file fs₁ u₁) c' w₃ e₁ in
        let u₂ = (saved_keys mem store wg specs dial state_file fs₁ u₁).1 in
        let same = keys-same k fs' v₂ w₂ fs₁ u₁ keys u₂ settled (kept ∙ stays) d₁ d₂ in
        let (stays', text') = with_keys-Keeps args' keys u₂ c' w₃ n' e₂ in
        text'
        ∙ ap (λ ks. node_key mem store wg specs dial state_file ks w₃) same
        ∙ node_key-world (k, fs') w₃ w₁
        ∙ sym text
