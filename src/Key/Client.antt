-- ===== src/Key/Client.antt =====
-- types/key/client.go and types/key/wireguard.go: the client's private key. Key generation, public
-- keys and base64 texts are those of wgtypes, parameters here.
use Prim.Native.Char.{code}
use Prim.Native.String.{String}
use runetale.Common.{
  ℕ, zero, suc, Option, List, [], ◌∷◌, Error, Outcome, ok, err, panic, Action, pure, ◌>>=◌,
}
use runetale.Key.Mem.{Mem}
use runetale.Key.Hex.{to_hex, parse_hex}

-- The code points of a text, which are its bytes if it is ASCII.
abbrev pub codes : String → List ℕ
codes String.[] = []
codes (String.◌∷◌ c s) = code c ∷ codes s

abbrev pub client_private_key_prefix : List ℕ
client_private_key_prefix = codes "private_client_key:"

-- wgtypes: keys are arrays of 32 bytes; generating one may fail.
pub record WgTypes (W : Type 0) : Type 0 where
  pub generate_private_key : W → Outcome (List ℕ) × W
  pub generate_key : W → Outcome (List ℕ) × W
  pub public_key : List ℕ → List ℕ
  pub to_string : List ℕ → String
  pub parse_key : String → Outcome (List ℕ)

-- A key array as Go makes it: 32 zero bytes.
abbrev pub zero_key : List ℕ
zero_key = zeros 32
  where
    zeros : ℕ → List ℕ
    zeros zero = []
    zeros (suc n) = 0 ∷ zeros n

pub record ClientPrivateState : Type 0 where
  pub private_key : List ℕ

module _ {W : Type 0} (wg : WgTypes W) where
  unfoldable pub new_client_private_key : Action W ClientPrivateState
  new_client_private_key = do k ← wg.generate_private_key; pure (record { private_key = k })

  -- `NewGenerateKey`, which panics where the generator fails.
  unfoldable pub new_generate_key : Action W String
  new_generate_key w =
      let (r, w') = wg.generate_key w in
      elim r [ ok k ↦ (ok (wg.to_string k), w') | err e ↦ (panic, w') | panic ↦ (panic, w') ]

  unfoldable pub public_key_text : ClientPrivateState → String
  public_key_text s = wg.to_string (wg.public_key s.private_key)

  unfoldable pub private_key_text : ClientPrivateState → String
  private_key_text s = wg.to_string s.private_key

unfoldable pub marshal_text : ClientPrivateState → List ℕ
marshal_text s = to_hex s.private_key client_private_key_prefix

unfoldable pub unmarshal_text :
    (mem : Mem) → ClientPrivateState → List ℕ → Option Error × ClientPrivateState
unmarshal_text mem s b =
    let (e, k) =
      parse_hex mem s.private_key (mem.of_bytes b) (mem.of_bytes client_private_key_prefix) in
    (e, record { private_key = k })
