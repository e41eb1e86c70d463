-- ===== src/SafeText/Classes.antt =====
-- What internal/safetext uses of package unicode: the classes of a code point.
use reinstate.Base.{ℕ, ◌≡◌, Bool, true, List}

-- A text as its code points, which Go calls runes.
abbrev pub Runes : Type 0
Runes = List ℕ

pub record Unicode : Type 0 where
  pub is_space : ℕ → Bool
  pub is_control : ℕ → Bool
  -- The category Cf.
  pub is_format : ℕ → Bool

-- The documented classes of the code points that internal/safetext names.
pub record IsStandard (U : Unicode) : Type 0 where
  pub space_is_space : U.is_space 0x20 ≡ true
  pub escape_is_control : U.is_control 0x1b ≡ true
  pub dcs_is_control : U.is_control 0x90 ≡ true
  pub csi_is_control : U.is_control 0x9b ≡ true
  pub osc_is_control : U.is_control 0x9d ≡ true
  pub pm_is_control : U.is_control 0x9e ≡ true
  pub apc_is_control : U.is_control 0x9f ≡ true
