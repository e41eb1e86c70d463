-- ===== src/Examples/Toy.antt =====
-- A lawful stand-in for the cryptography, which hides nothing: it shows that the laws can hold.
use reinstate.Base.{◌-◌, refl, true, ◌&&◌, leb, some, [], ◌∷◌, if◌then◌else◌, arith}
use reinstate.Keyring.Model.{Bytes}
use reinstate.Keyring.Crypto.{Crypto, IsLawful}

abbrev pub thirty_two : Bytes
thirty_two =
    1 ∷ 2 ∷ 3 ∷ 4 ∷ 5 ∷ 6 ∷ 7 ∷ 8 ∷ 1 ∷ 2 ∷ 3 ∷ 4 ∷ 5 ∷ 6 ∷ 7 ∷ 8 ∷ 1 ∷ 2 ∷ 3 ∷ 4 ∷ 5 ∷ 6 ∷ 7 ∷ 8
    ∷ 1 ∷ 2 ∷ 3 ∷ 4 ∷ 5 ∷ 6 ∷ 7 ∷ 8 ∷ []

abbrev pub sixty_four : Bytes
sixty_four =
    1 ∷ 2 ∷ 3 ∷ 4 ∷ 5 ∷ 6 ∷ 7 ∷ 8 ∷ 1 ∷ 2 ∷ 3 ∷ 4 ∷ 5 ∷ 6 ∷ 7 ∷ 8 ∷ 1 ∷ 2 ∷ 3 ∷ 4 ∷ 5 ∷ 6 ∷ 7 ∷ 8
    ∷ 1 ∷ 2 ∷ 3 ∷ 4 ∷ 5 ∷ 6 ∷ 7 ∷ 8 ∷ 1 ∷ 2 ∷ 3 ∷ 4 ∷ 5 ∷ 6 ∷ 7 ∷ 8 ∷ 1 ∷ 2 ∷ 3 ∷ 4 ∷ 5 ∷ 6 ∷ 7 ∷ 8
    ∷ 1 ∷ 2 ∷ 3 ∷ 4 ∷ 5 ∷ 6 ∷ 7 ∷ 8 ∷ 1 ∷ 2 ∷ 3 ∷ 4 ∷ 5 ∷ 6 ∷ 7 ∷ 8 ∷ []

abbrev pub toy : Crypto
toy = record {
  itoa = λ n. n ∷ [];
  to_upper = λ c. if leb 97 c && leb c 122 then c - 32 else c;
  base64_encode = λ b. b;
  base64_decode = λ t. some t;
  public_key = λ seed. thirty_two;
  sign = λ seed message. sixty_four;
  verify = λ public message signature. true;
  sha256 = λ b. thirty_two;
  argon2_id_key = λ password salt time memory threads size. thirty_two;
  identity_recipient = λ identity. identity;
  parse_recipient = λ text. some text;
  encrypt = λ entropy recipient plain. some plain;
  decrypt = λ identity cipher. some cipher;
  seal = λ key nonce plain aad. plain;
  open_sealed = λ key nonce cipher aad. some cipher;
  derive_identity = λ key. some (1 ∷ []);
}

pub toy-IsLawful : IsLawful toy
toy-IsLawful = record {
  itoa_injective = λ m n h. ground arith;
  to_upper_ascii = λ c h. refl;
  base64_round_trip = λ b. refl;
  base64_empty = λ b h. h;
  public_key_size = λ seed. refl;
  signature_size = λ seed message. refl;
  verify-sign = λ seed message. refl;
  decrypt-encrypt = λ entropy identity plain cipher h. ground arith;
  open_sealed-seal = λ key nonce plain aad. refl;
}
