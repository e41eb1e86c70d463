-- ===== src/Keyring/Crypto.antt =====
-- The cryptography that the keyring calls: age, ed25519, argon2id, XChaCha20-Poly1305, SHA-256 and
-- base64, and the decimal printer of `strconv`. Nothing of it is under this repository, so it is a
-- parameter; `IsLawful` states the documented behaviour that the keyring relies on.
use reinstate.Base.{
  [], ◌&&◌, leb, ◌-◌, ◌<◌, if◌then◌else◌, ℕ, ◌≡◌, Bool, true, Option, some, length,
}
use reinstate.Keyring.Model.{Bytes, Text}

-- An X25519 identity and a recipient are their text encodings. The first argument of `encrypt`
-- stands for the randomness of that call.
pub record Crypto : Type 0 where
  -- `strconv.Itoa`, `strconv.FormatUint(…, 10)`
  pub itoa : ℕ → Text
  -- `unicode.ToUpper`, which `strings.ToUpper` applies to each character
  pub to_upper : ℕ → ℕ
  -- `base64.StdEncoding`
  pub base64_encode : Bytes → Text
  pub base64_decode : Text → Option Bytes
  -- ed25519, by the seed of the private key
  pub public_key : Bytes → Bytes
  pub sign : Bytes → Bytes → Bytes
  pub verify : Bytes → Bytes → Bytes → Bool
  -- SHA-256 and `argon2.IDKey(password, salt, time, memory, threads, length)`
  pub sha256 : Bytes → Bytes
  pub argon2_id_key : Bytes → Bytes → ℕ → ℕ → ℕ → ℕ → Bytes
  -- age over X25519
  pub identity_recipient : Text → Text
  pub parse_recipient : Text → Option Text
  pub encrypt : ℕ → Text → Bytes → Option Bytes
  pub decrypt : Text → Bytes → Option Bytes
  -- XChaCha20-Poly1305: key, nonce, text, associated data
  pub seal : Bytes → Bytes → Bytes → Bytes → Bytes
  pub open_sealed : Bytes → Bytes → Bytes → Bytes → Option Bytes
  -- the X25519 identity that HKDF derives from a root key of the right size
  pub derive_identity : Bytes → Option Text

pub record IsLawful (C : Crypto) : Type 0 where
  pub itoa_injective : (m n : ℕ) → C.itoa m ≡ C.itoa n → m ≡ n
  pub to_upper_ascii :
      (c : ℕ) → c < 128 → C.to_upper c ≡ (if leb 97 c && leb c 122 then c - 32 else c)
  pub base64_round_trip : (b : Bytes) → C.base64_decode (C.base64_encode b) ≡ some b
  pub base64_empty : (b : Bytes) → C.base64_encode b ≡ [] → b ≡ []
  pub public_key_size : (seed : Bytes) → length (C.public_key seed) ≡ 32
  pub signature_size : (seed message : Bytes) → length (C.sign seed message) ≡ 64
  pub verify-sign :
      (seed message : Bytes) → C.verify (C.public_key seed) message (C.sign seed message) ≡ true
  pub decrypt-encrypt :
      (entropy : ℕ) (identity : Text) (plain cipher : Bytes)
      → C.encrypt entropy (C.identity_recipient identity) plain ≡ some cipher
      → C.decrypt identity cipher ≡ some plain
  pub open_sealed-seal :
      (key nonce plain aad : Bytes)
      → C.open_sealed key nonce (C.seal key nonce plain aad) aad ≡ some plain
