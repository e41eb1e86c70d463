-- ===== src/Keyring/Recovery/Generated.antt =====
-- A generated recovery code is in canonical form (internal/keyring/recovery.go,
-- `GenerateRecoveryCode`).
use reinstate.Base.{
  ℕ, zero, suc, ◌+◌, ◌-◌, ◌*◌, ◌/◌, ◌%◌, ◌^◌, ◌≤◌, ◌<◌, ◌≡◌, refl, true, ◌&&◌, some, [], ◌∷◌, ◌++◌,
  length, length-append, take-append, drop-append, All, ◌==◌, ==_refl, nat_eq, bytes_eq, contains,
  leb, ltb, arith, Bool-cases, inl, inr,
}
use reinstate.Keyring.Model.{Bytes, Text}
use reinstate.Keyring.Crypto.{Crypto, IsLawful}
use reinstate.Keyring.Recovery.{
  crockford, digit, emit_digits, encode_bytes, pad_digits, encode_crockford, format_recovery_code,
  recovery_checksum, check_code, normalize_recovery_code, generate_recovery_code,
}
use reinstate.Keyring.Recovery.Canonical.{IsCrockford, normalize-format}

contains-digit : (cs : Text) (i : ℕ) → i < length cs → contains cs (digit cs i) ≡ true
contains-digit [] i h = absurd (omega arith)
contains-digit (c ∷ cs) zero h = ground arith
contains-digit (c ∷ cs) (suc i) h = ground (arith, contains-digit cs i)

digit-IsCrockford : (i : ℕ) → i < 32 → IsCrockford (digit crockford i)
digit-IsCrockford i h = contains-digit crockford i h

All-append : (xs ys : Text) → All IsCrockford xs → All IsCrockford ys → All IsCrockford (xs ++ ys)
All-append [] ys p q = q
All-append (x ∷ xs) ys p q = (p.0, All-append xs ys p.1 q)

-- What the encoder keeps of its output: Crockford characters, at most `chars` of them.
record IsOutput (chars : ℕ) (out : Text) : Type 0 where
  characters : All IsCrockford out
  bounded : length out ≤ chars

snoc-IsOutput :
    (chars i : ℕ) (out : Text)
    → i < 32
    → length out < chars
    → IsOutput chars out
    → IsOutput chars (out ++ (digit crockford i ∷ []))
snoc-IsOutput chars i out h l o = record {
  characters = All-append out (digit crockford i ∷ []) o.characters (digit-IsCrockford i h, tt);
  bounded = omega (arith, length-append out (digit crockford i ∷ []));
}

emit_digits-IsOutput :
    (fuel chars acc bits : ℕ) (out : Text)
    → IsOutput chars out
    → IsOutput chars (emit_digits fuel chars acc bits out).1
unfolding emit_digits
emit_digits-IsOutput zero chars acc bits out o = o
emit_digits-IsOutput (suc fuel) chars acc bits out o =
    elim (Bool-cases (leb 5 bits && ltb (length out) chars)) [
      | inl e ↦ rw e (
          emit_digits-IsOutput fuel chars acc (bits - 5) _
            (snoc-IsOutput chars (acc / 2 ^ (bits - 5) % 32) out (omega arith) (ground arith) o))
      | inr e ↦ rw e o
    ]

encode_bytes-IsOutput :
    (chars : ℕ) (bs : Bytes) (acc bits : ℕ) (out : Text)
    → IsOutput chars out
    → IsOutput chars (encode_bytes chars bs acc bits out).2
unfolding encode_bytes
encode_bytes-IsOutput chars [] acc bits out o = o
encode_bytes-IsOutput chars (b ∷ bs) acc bits out o =
    let acc' = (acc * 2 ^ 8 + b) % 2 ^ 32 in
    let e = emit_digits (bits + 8) chars acc' (bits + 8) out in
    let o' = emit_digits-IsOutput (bits + 8) chars acc' (bits + 8) out o in
    elim (Bool-cases (length e.1 == chars)) [
      | inl d ↦ rw d o'
      | inr d ↦ rw d (encode_bytes-IsOutput chars bs acc' e.0 e.1 o')
    ]

pad_digits-length :
    (missing acc bits : ℕ) (out : Text)
    → All IsCrockford out
    → All IsCrockford (pad_digits missing acc bits out)
      × (length (pad_digits missing acc bits out) ≡ length out + missing)
unfolding pad_digits
pad_digits-length zero acc bits out a = (a, omega arith)
pad_digits-length (suc missing) acc bits out a =
    let acc' = acc * 2 ^ (5 - bits) % 2 ^ 32 in
    let d = digit crockford (acc' % 32) ∷ [] in
    let ih =
      pad_digits-length missing acc' 0 (out ++ d)
        (All-append out d a (digit-IsCrockford (acc' % 32) (omega arith), tt)) in
    (ih.0, omega (arith, ih.1, length-append out d))

-- The encoder gives exactly the characters asked for, all of the Crockford alphabet.
pub encode_crockford-length :
    (raw : Bytes) (chars : ℕ)
    → All IsCrockford (encode_crockford raw chars) × (length (encode_crockford raw chars) ≡ chars)
unfolding encode_crockford
encode_crockford-length raw chars =
    let e = encode_bytes chars raw 0 0 [] in
    let o =
      encode_bytes-IsOutput chars raw 0 0 [] (record { characters = tt; bounded = omega arith }) in
    let p = pad_digits-length (chars - length e.2) e.0 e.1 e.2 o.characters in
    (p.0, omega (arith, p.1, o.bounded))

module _ (C : Crypto) (L : IsLawful C) where
  recovery_checksum-length :
      (text : Text)
      → All IsCrockford (recovery_checksum C text) × (length (recovery_checksum C text) ≡ 4)
  unfolding recovery_checksum
  recovery_checksum-length text = encode_crockford-length _ 4

  check_code-generated :
      (text sum : Text)
      → length text ≡ 28
      → recovery_checksum C text ≡ sum
      → length sum ≡ 4
      → check_code C (text ++ sum) ≡ some (format_recovery_code (text ++ sum))
  unfolding check_code
  check_code-generated text sum h e l =
      rw (take-append 28 text sum h, drop-append 28 text sum h, e)
        (ground (arith, length-append text sum, ==_refl sum))

  -- A generated code, typed back exactly as it is displayed, is accepted and is its own canonical
  -- form, whatever the random bytes.
  pub normalize-generate :
      (raw : Bytes)
      → normalize_recovery_code C (generate_recovery_code C raw)
        ≡ some (generate_recovery_code C raw)
  unfolding generate_recovery_code
  normalize-generate raw =
      let text = encode_crockford raw 28 in
      let sum = recovery_checksum C text in
      let t = encode_crockford-length raw 28 in
      let c = recovery_checksum-length text in
      normalize-format C L (text ++ sum) (format_recovery_code (text ++ sum))
        (All-append text sum t.0 c.0) (check_code-generated text sum t.1 refl c.1)
