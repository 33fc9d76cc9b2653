-- ===== src/Boot/Keys.antt =====
-- store/client.go: WritePrivateKey leaves a key that a second call finds again.
use runetale.Common.{
  ℕ, String, ◌≡◌, refl, sym, ap, ◌∙◌, ◌≢◌, Option, none, some, List, [], arith, length, All, insert,
  Error, Outcome, ok, err, panic, pure, Fallible, value, error, bound,
}
use runetale.Stored.FileStore.{StoreCalls, FileStore, after_marshal, write_state, read_state}
use runetale.Stored.ClientStore.{
  client_private_key_state_key, ClientState, after_unmarshal, after_write, after_generate,
  read_or_generate, write_private_key,
}
use runetale.Stored.Reopened.{RoundTrips, InSync, write_state-InSync}
use runetale.Stored.Atomic.{FileLaws}
use runetale.Key.Client.{
  WgTypes, ClientPrivateState, new_client_private_key, marshal_text, unmarshal_text,
}
use runetale.Key.Mem.{Mem}
use runetale.Boot.Conf.{zero_private}
use runetale.Stored.Persistent.{MakesKeys, IsKey}
use runetale.Key.RoundTrip.{IsByte}
use runetale.Key.Hex.{to_hex}
use runetale.Key.Accepts.{unmarshal_text-marshal_text}

module _ {W : Type 0} (mem : Mem) (calls : StoreCalls W) (wg : WgTypes W)
    (laws : FileLaws calls.files) where
  -- Another call with this store does nothing and gives the same key.
  abbrev pub Stable : ClientPrivateState → FileStore → Type 0
  Stable k fs = (w : W) → write_private_key mem calls wg (zero_private, fs, w) ≡ (ok tt, (k, fs, w))

  -- The file is in step, under its name, and the key is stable.
  abbrev pub Kept : String → Outcome (Unit {0}) × ClientState W → Type 0
  Kept p (ok _, (k, fs, w)) = InSync calls laws (fs, w) × (fs.path ≡ p) × Stable k fs
  Kept p (err e, s) = Unit
  Kept p (panic, s) = Unit

  read-Stable :
      (k : ClientPrivateState) (fs : FileStore) (text : List ℕ)
      → read_state calls client_private_key_state_key fs ≡ value text
      → unmarshal_text mem zero_private text ≡ (none, k)
      → Stable k fs
  unfolding write_private_key read_or_generate after_unmarshal
  read-Stable k fs text e u w =
      ap (λ r. read_or_generate mem calls wg r (zero_private, fs, w)) e
      ∙ ap (λ r. after_unmarshal mem calls wg r fs w) u

  after_unmarshal-Kept :
      (fs : FileStore) (w : W) (text : List ℕ) (r : Option Error × ClientPrivateState)
      → InSync calls laws (fs, w)
      → read_state calls client_private_key_state_key fs ≡ value text
      → unmarshal_text mem zero_private text ≡ r
      → Kept fs.path (after_unmarshal mem calls wg r fs w)
  unfolding after_unmarshal
  after_unmarshal-Kept fs w text (none, k) sync e u = (sync, refl, read-Stable k fs text e u)
  after_unmarshal-Kept fs w text (some x, k) sync e u = tt

  after_marshal-path :
      (fs : FileStore) (m : Fallible (List ℕ)) (w : W)
      → (after_marshal calls fs m w).1.0.path ≡ fs.path
  unfolding after_marshal
  after_marshal-path fs (error e) w = refl
  after_marshal-path fs (value b) w = refl

  write_state-path :
      (id : String) (bs : List ℕ) (fs : FileStore) (w : W)
      → (write_state calls id bs (fs, w)).1.0.path ≡ fs.path
  unfolding write_state
  write_state-path id bs fs w =
      let fs' = let r : FileStore = record fs { cache = insert id bs fs.cache } in r in
      ground (arith, after_marshal-path fs' (calls.marshal fs'.cache) w)

  marshal_text_nonempty : (k : ClientPrivateState) → marshal_text k ≢ []
  unfolding marshal_text to_hex
  marshal_text_nonempty k e = cc

  after_write-Kept :
      (p : String) (k : ClientPrivateState) (out : Option Error × (FileStore × W))
      → IsKey mem calls wg laws k
      → out.1.0.path ≡ p
      → (out.0 ≡ none
          → InSync calls laws out.1
            × (marshal_text k ≢ []
                → read_state calls client_private_key_state_key out.1.0 ≡ value (marshal_text k)))
      → Kept p (after_write mem calls wg zero_private k out)
  unfolding after_write
  after_write-Kept p k (some e, s) is path h = tt
  after_write-Kept p k (none, (fs, w)) (small, size) path h =
      let (sync, got) = h refl in
      (
        sync,
        path,
        read-Stable k fs (marshal_text k) (got (marshal_text_nonempty k))
            (unmarshal_text-marshal_text mem k zero_private small (sym size)),
      )

  generated-Kept :
      (fs : FileStore) (out : Outcome (List ℕ) × W)
      → RoundTrips calls laws
      → InSync calls laws (fs, out.1)
      → ((l : List ℕ) → out.0 ≡ ok l → All IsByte l × (length l ≡ 32))
      → Kept fs.path (
          after_generate mem calls wg zero_private fs
            (bound (λ l. pure (record { private_key = l })) out))
  unfolding after_generate
  generated-Kept fs (err e, w) rt sync makes = tt
  generated-Kept fs (panic, w) rt sync makes = tt
  generated-Kept fs (ok l, w) rt sync makes =
      let k = let r : ClientPrivateState = record { private_key = l } in r in
      let out = write_state calls client_private_key_state_key (marshal_text k) (fs, w) in
      after_write-Kept fs.path k out (makes l refl)
        (write_state-path client_private_key_state_key (marshal_text k) fs w)
        (write_state-InSync calls laws client_private_key_state_key (marshal_text k) fs w rt sync).0

  read_or_generate-Kept :
      (fs : FileStore) (w : W) (r : Fallible (List ℕ))
      → RoundTrips calls laws
      → MakesKeys mem calls wg laws
      → ((w : W) → laws.content fs.path (wg.generate_private_key w).1 ≡ laws.content fs.path w)
      → InSync calls laws (fs, w)
      → read_state calls client_private_key_state_key fs ≡ r
      → Kept fs.path (read_or_generate mem calls wg r (zero_private, fs, w))
  unfolding read_or_generate new_client_private_key
  read_or_generate-Kept fs w (value text) rt makes keeps sync e =
      after_unmarshal-Kept fs w text (unmarshal_text mem zero_private text) sync e refl
  read_or_generate-Kept fs w (error x) rt makes keeps (b, held, decoded) e =
      generated-Kept fs (wg.generate_private_key w) rt (b, keeps w ∙ held, decoded) (makes w)

  pub write_private_key-Kept :
      (fs : FileStore) (w : W)
      → RoundTrips calls laws
      → MakesKeys mem calls wg laws
      → ((w : W) → laws.content fs.path (wg.generate_private_key w).1 ≡ laws.content fs.path w)
      → InSync calls laws (fs, w)
      → Kept fs.path (write_private_key mem calls wg (zero_private, fs, w))
  unfolding write_private_key
  write_private_key-Kept fs w rt makes keeps sync =
      read_or_generate-Kept fs w (read_state calls client_private_key_state_key fs) rt makes keeps
        sync refl
