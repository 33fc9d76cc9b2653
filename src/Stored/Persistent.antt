-- ===== src/Stored/Persistent.antt =====
-- store/client.go: a key that is generated is the one that every later reader of the store gets.
use runetale.Common.{
  ℕ, ◌≡◌, refl, sym, ◌∙◌, ◌≢◌, Option, none, some, List, [], length, All, Error, Outcome, ok, err,
  panic, pure, value, error, bound,
}
use runetale.Stored.Atomic.{FileLaws}
use runetale.Stored.FileStore.{StoreCalls, FileStore, err_state_not_found, write_state, read_state}
use runetale.Stored.Reopened.{RoundTrips, InSync, write_state-InSync}
use runetale.Stored.ClientStore.{
  client_private_key_state_key, ClientState, after_write, after_generate, read_or_generate,
  write_private_key, text_of, read_and_print, get_public_key, get_private_key,
}
use runetale.Key.Client.{
  WgTypes, ClientPrivateState, new_client_private_key, public_key_text, private_key_text,
  marshal_text,
}
use runetale.Key.RoundTrip.{IsByte}
use runetale.Key.Accepts.{unmarshal_text-marshal_text}
use runetale.Key.Mem.{Mem}
use runetale.Key.Hex.{to_hex}

module _ {W : Type 0} (mem : Mem) (calls : StoreCalls W) (wg : WgTypes W)
    (laws : FileLaws calls.files) where
  -- A key as wgtypes makes it: an array of 32 bytes.
  abbrev pub IsKey : ClientPrivateState → Type 0
  IsKey k = All IsByte k.private_key × (length k.private_key ≡ 32)

  -- What wgtypes generates are such keys.
  abbrev pub MakesKeys : Type 0
  MakesKeys =
      (w : W) (l : List ℕ) → (wg.generate_private_key w).0 ≡ ok l → All IsByte l × (length l ≡ 32)

  -- The store gives this key to whoever reads it into an array of 32 bytes.
  abbrev pub Gives : ClientPrivateState → FileStore → W → Type 0
  Gives k fs w =
      (k₀ : ClientPrivateState)
      → length k₀.private_key ≡ 32
      → ((get_private_key mem calls wg (k₀, fs, w)).0 ≡ private_key_text wg k)
        × ((get_public_key mem calls wg (k₀, fs, w)).0 ≡ public_key_text wg k)

  marshal_text-nonempty : (k : ClientPrivateState) → marshal_text k ≢ []
  unfolding marshal_text to_hex
  marshal_text-nonempty k e = cc

  saved-Gives :
      (k : ClientPrivateState) (fs : FileStore) (w : W)
      → IsKey k
      → read_state calls client_private_key_state_key fs ≡ value (marshal_text k)
      → Gives k fs w
  unfolding get_private_key get_public_key read_and_print text_of
  saved-Gives k fs w (small, size) e k₀ size₀ =
      let same = unmarshal_text-marshal_text mem k k₀ small (size₀ ∙ sym size) in
      (rw (e, same) refl, rw (e, same) refl)

  -- The key was made and saved.
  abbrev pub Saved : Outcome (Unit {0}) × ClientState W → Type 0
  Saved (ok _, (k, fs, w)) = InSync calls laws (fs, w) × Gives k fs w
  Saved (err e, s) = Unit
  Saved (panic, s) = Unit

  after_write-Saved :
      (old k : ClientPrivateState) (out : Option Error × (FileStore × W))
      → IsKey k
      → (out.0 ≡ none
          → InSync calls laws out.1
            × (marshal_text k ≢ []
                → read_state calls client_private_key_state_key out.1.0 ≡ value (marshal_text k)))
      → Saved (after_write mem calls wg old k out)
  unfolding after_write
  after_write-Saved old k (some e, s) is h = tt
  after_write-Saved old k (none, (fs, w)) is h =
      let (sync, got) = h refl in (sync, saved-Gives k fs w is (got (marshal_text-nonempty k)))

  generated-Saved :
      (old : ClientPrivateState) (fs : FileStore) (w : W) (out : Outcome (List ℕ) × W)
      → RoundTrips calls laws
      → InSync calls laws (fs, out.1)
      → ((l : List ℕ) → out.0 ≡ ok l → All IsByte l × (length l ≡ 32))
      → Saved
          (after_generate mem calls wg old fs (bound (λ l. pure (record { private_key = l })) out))
  unfolding after_generate
  generated-Saved old fs w (err e, w') rt sync makes = tt
  generated-Saved old fs w (panic, w') rt sync makes = tt
  generated-Saved old fs w (ok l, w') rt sync makes =
      let k = let r : ClientPrivateState = record { private_key = l } in r in
      after_write-Saved old k
        (write_state calls client_private_key_state_key (marshal_text k) (fs, w')) (makes l refl)
        (write_state-InSync calls laws client_private_key_state_key (marshal_text k) fs w' rt
          sync).0

  -- If no key is saved, generating one leaves the file alone and makes keys of 32 bytes, reading a
  -- JSON text inverts writing it and WritePrivateKey succeeds, then the file holds the cache, and
  -- every client store that reads it with a key array of 32 bytes gives the private and the public
  -- key of the one that was generated.
  pub write_private_key-Saved :
      (k : ClientPrivateState) (fs : FileStore) (w : W)
      → RoundTrips calls laws
      → MakesKeys
      → InSync calls laws (fs, (wg.generate_private_key w).1)
      → read_state calls client_private_key_state_key fs ≡ error err_state_not_found
      → Saved (write_private_key mem calls wg (k, fs, w))
  unfolding write_private_key read_or_generate new_client_private_key
  write_private_key-Saved k fs w rt makes sync e =
      rw e (generated-Saved k fs w (wg.generate_private_key w) rt sync (makes w))
