-- ===== src/Keyring/Recovery.antt =====
-- internal/keyring/recovery.go: recovery codes, eight groups of four Crockford base32 characters,
-- the last of them a checksum. Texts are lists of code points.
pub mod Canonical
pub mod Generated
use reinstate.Base.{
  ℕ, zero, suc, ◌+◌, ◌-◌, ◌*◌, ◌/◌, ◌%◌, ◌^◌, Bool, true, false, not, ◌&&◌, ◌||◌, Option, none,
  some, List, [], ◌∷◌, ◌++◌, length, take, drop, ◌==◌, nat_eq, bytes_eq, ltb, leb, contains, codes,
  if◌then◌else◌,
}
use reinstate.Keyring.Model.{Bytes, Text}
use reinstate.Keyring.Crypto.{Crypto}

abbrev recovery_group_len : ℕ
recovery_group_len = 4

abbrev recovery_data_chars : ℕ
recovery_data_chars = recovery_group_len * 7

abbrev pub recovery_total_chars : ℕ
recovery_total_chars = recovery_group_len * 8

abbrev pub crockford : Text
crockford = codes "0123456789ABCDEFGHJKMNPQRSTVWXYZ"

-- `crockford[i]`; the index is below 32.
abbrev pub digit : Text → ℕ → ℕ
digit [] i = 0
digit (c ∷ cs) zero = c
digit (c ∷ cs) (suc i) = digit cs i

-- `for bits >= 5 && out.Len() < chars`, on fuel: each round takes 5 from `bits`.
unfoldable pub emit_digits : ℕ → ℕ → ℕ → ℕ → Text → ℕ × Text
emit_digits zero chars acc bits out = (bits, out)
emit_digits (suc fuel) chars acc bits out =
    let rest =
      emit_digits fuel chars acc (bits - 5)
        (out ++ (digit crockford (acc / 2 ^ (bits - 5) % 32) ∷ [])) in
    if leb 5 bits && ltb (length out) chars then rest else (bits, out)

-- `acc` is a uint32; `acc<<8 | b` adds the byte b below the shifted bits.
unfoldable pub encode_bytes : ℕ → Bytes → ℕ → ℕ → Text → ℕ × ℕ × Text
unfolding emit_digits
encode_bytes chars [] acc bits out = (acc, bits, out)
encode_bytes chars (b ∷ bs) acc bits out =
    let acc' = (acc * 2 ^ 8 + b) % 2 ^ 32 in
    let (bits', out') = emit_digits (bits + 8) chars acc' (bits + 8) out in
    let rest = encode_bytes chars bs acc' bits' out' in
    if length out' == chars then (acc', bits', out') else rest

-- The padding loop, over the characters that are missing.
unfoldable pub pad_digits : ℕ → ℕ → ℕ → Text → Text
pad_digits zero acc bits out = out
pad_digits (suc missing) acc bits out =
    let acc' = acc * 2 ^ (5 - bits) % 2 ^ 32 in
    pad_digits missing acc' 0 (out ++ (digit crockford (acc' % 32) ∷ []))

unfoldable pub encode_crockford : Bytes → ℕ → Text
unfolding encode_bytes pad_digits
encode_crockford raw chars =
    let (acc, bits, out) = encode_bytes chars raw 0 0 [] in
    pad_digits (chars - length out) acc bits out

abbrev separator : ℕ
separator = b'-'

-- Groups of four joined by dashes. The length is a multiple of four wherever this is called.
unfoldable pub format_recovery_code : Text → Text
format_recovery_code (a ∷ b ∷ c ∷ d ∷ e ∷ rest) =
    a ∷ b ∷ c ∷ d ∷ separator ∷ format_recovery_code (e ∷ rest)
format_recovery_code last = last

unfoldable pub is_separator : ℕ → Bool
is_separator r = r == b'-' || r == b' ' || r == 9 || r == 13 || r == 10

abbrev pub prepend : ℕ → Option Text → Option Text
prepend c none = none
prepend c (some cs) = some (c ∷ cs)

-- The body of the loop on an upper-case character, before what the rest gives.
unfoldable pub fold_char : ℕ → Option Text → Option Text
fold_char r rest =
    if is_separator r
    then rest
    else if r == b'O'
    then prepend b'0' rest
    else if r == b'I' || r == b'L'
    then prepend b'1' rest
    else if contains crockford r
    then prepend r rest
    else none

module _ (C : Crypto) where
  -- The error of an invalid character is `none`.
  unfoldable pub compact_crockford : Text → Option Text
  compact_crockford [] = some []
  compact_crockford (t ∷ ts) = fold_char (C.to_upper t) (compact_crockford ts)

  unfoldable pub recovery_checksum : Text → Text
  recovery_checksum text =
      encode_crockford (C.sha256 (codes "reinstate/recovery-code/v1:" ++ text)) recovery_group_len

  unfoldable pub check_code : Text → Option Text
  check_code code =
      if not (length code == recovery_total_chars)
      then none
      else let text = take recovery_data_chars code in
        let check = drop recovery_data_chars code in
        if not (check == recovery_checksum text) then none else some (format_recovery_code code)

  unfoldable pub normalize_recovery_code : Text → Option Text
  normalize_recovery_code typed = elim (compact_crockford typed) [
    | none ↦ none
    | some code ↦ check_code code
  ]

  -- `raw` is what `crypto/rand` gave, 18 bytes.
  unfoldable pub generate_recovery_code : Bytes → Text
  generate_recovery_code raw =
      let text = encode_crockford raw recovery_data_chars in
      format_recovery_code (text ++ recovery_checksum text)
