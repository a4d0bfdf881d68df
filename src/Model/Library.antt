-- ===== src/Model/Library.antt =====
-- What internal/model calls and this repository does not implement: the WireGuard keys of wgctrl, and
-- the standard library's parsers of texts, URLs, addresses and keys. Each is a function of its text.
use th.Base.{Option, Bool}
use th.Base.Int.{ℤ}
use th.Base.Text.{Text}

-- `ecdsa_public k` is an ECDSA key `k`; `ecdsa_private k` one whose public key is `k`.
pub data PublicKey : Type 0 where
  ecdsa_public : Text → PublicKey
  other_public : PublicKey

pub data PrivateKey : Type 0 where
  ecdsa_private : Text → PrivateKey
  other_private : PrivateKey

pub record Library : Type 0 where
  pub parse_key : Text → Option Text
  pub public_key_of : Text → Text
  pub key_string : Text → Text
  pub trim_space : Text → Text
  pub split_host_port : Text → Option (Text × Text)
  pub atoi : Text → Option ℤ
  pub parses_addr : Text → Bool
  pub parse_url : Text → Option (Text × Text)
  pub decode_base64 : Text → Option Text
  pub parse_pkix_public_key : Text → Option PublicKey
  pub decode_pem : Text → Option Text
  pub parse_pkcs8_private_key : Text → Option PrivateKey
  pub sha256 : Text → Text
