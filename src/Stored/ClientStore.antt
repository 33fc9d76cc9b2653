-- ===== src/Stored/ClientStore.antt =====
-- store/client.go: the client's private key in the store.
use runetale.Common.{
  ℕ, String, Option, none, some, List, Error, message, Outcome, ok, err, panic, Action, Fallible,
  value, error,
}
use runetale.Stored.FileStore.{StoreCalls, FileStore, write_state, read_state}
use runetale.Key.Client.{
  WgTypes, ClientPrivateState, new_client_private_key, public_key_text, private_key_text,
  marshal_text, unmarshal_text,
}
use runetale.Key.Mem.{Mem}

abbrev pub client_private_key_state_key : String
client_private_key_state_key = "client-private-key"

-- The store's own key, the file store, and the world.
abbrev pub ClientState : Type 0 → Type 0
ClientState W = ClientPrivateState × FileStore × W

module _ {W : Type 0} (mem : Mem) (calls : StoreCalls W) (wg : WgTypes W) where
  -- The saved text is read into the store's key, which a failure may leave changed.
  unfoldable pub after_unmarshal :
      Option Error × ClientPrivateState → FileStore → W → Outcome (Unit {0}) × ClientState W
  after_unmarshal (none, k) fs w = (ok tt, (k, fs, w))
  after_unmarshal (some e, k) fs w = (err (message "unable to unmarshal %s. %v"), (k, fs, w))

  unfoldable pub after_write :
      ClientPrivateState
      → ClientPrivateState
      → Option Error × (FileStore × W)
      → Outcome (Unit {0}) × ClientState W
  after_write old k (some e, (fs, w)) = (err e, (old, fs, w))
  after_write old k (none, (fs, w)) = (ok tt, (k, fs, w))

  unfoldable pub after_generate :
      ClientPrivateState
      → FileStore
      → Outcome ClientPrivateState × W
      → Outcome (Unit {0}) × ClientState W
  after_generate old fs (ok k, w) =
      after_write old k (write_state calls client_private_key_state_key (marshal_text k) (fs, w))
  after_generate old fs (err e, w) = (err e, (old, fs, w))
  after_generate old fs (panic, w) = (panic, (old, fs, w))

  unfoldable pub read_or_generate : Fallible (List ℕ) → Action (ClientState W) (Unit {0})
  read_or_generate (value text) (k, fs, w) = after_unmarshal (unmarshal_text mem k text) fs w
  read_or_generate (error e) (k, fs, w) = after_generate k fs (new_client_private_key wg w)

  unfoldable pub write_private_key : Action (ClientState W) (Unit {0})
  write_private_key (k, fs, w) =
      read_or_generate (read_state calls client_private_key_state_key fs) (k, fs, w)

  -- `GetPublicKey` and `GetPrivateKey`: an unreadable text gives the empty string.
  unfoldable pub text_of :
      (ClientPrivateState → String)
      → Option Error × ClientPrivateState
      → FileStore
      → W
      → String × ClientState W
  text_of print (none, k) fs w = (print k, (k, fs, w))
  text_of print (some e, k) fs w = ("", (k, fs, w))

  unfoldable pub read_and_print :
      (ClientPrivateState → String) → Fallible (List ℕ) → ClientState W → String × ClientState W
  read_and_print print (error e) (k, fs, w) = (print k, (k, fs, w))
  read_and_print print (value text) (k, fs, w) = text_of print (unmarshal_text mem k text) fs w

  unfoldable pub get_public_key : ClientState W → String × ClientState W
  get_public_key (k, fs, w) =
      read_and_print (public_key_text wg) (read_state calls client_private_key_state_key fs)
        (k, fs, w)

  unfoldable pub get_private_key : ClientState W → String × ClientState W
  get_private_key (k, fs, w) =
      read_and_print (private_key_text wg) (read_state calls client_private_key_state_key fs)
        (k, fs, w)
