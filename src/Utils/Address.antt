-- ===== src/Utils/Address.antt =====
-- Addresses as texts: `IsValidEvmAddr` of internal/utils/utils.go, and `strings.ToLower` on ASCII
-- texts, which are all that the service applies it to.
pub mod Number
use d8x_etherfi.Base.{
  ℕ, ◌+◌, ◌≡◌, Bool, true, false, ◌&&◌, ◌||◌, List, [], ◌∷◌, map, Text, leb, eqb, if◌then◌else◌,
  length,
}

-- A character of the class `[0-9a-fA-F]`.
abbrev pub is_hex : ℕ → Bool
is_hex c = (leb b'0' c && leb c b'9') || (leb b'a' c && leb c b'f') || (leb b'A' c && leb c b'F')

abbrev pub all_hex : Text → Bool
all_hex [] = true
all_hex (c ∷ s) = is_hex c && all_hex s

-- The pattern "^0x[0-9a-fA-F]{40}$".
unfoldable pub is_valid_evm_addr : Text → Bool
is_valid_evm_addr [] = false
is_valid_evm_addr (c ∷ []) = false
is_valid_evm_addr (c ∷ x ∷ s) = eqb c b'0' && (eqb x b'x' && (eqb (length s) 40 && all_hex s))

abbrev pub lower : ℕ → ℕ
lower c = if leb b'A' c && leb c b'Z' then c + 32 else c

unfoldable pub to_lower : Text → Text
to_lower = map lower
