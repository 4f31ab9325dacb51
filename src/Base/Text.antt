-- ===== src/Base/Text.antt =====
-- The regular expressions of src/purchase/journal.ts that check identities and digests.
use Prim.Native.Nat.{ℕ}
use Prim.Native.Char.{code}
use Prim.Native.String.{String}
use mathlib.Core.Bool.{Bool, true, false, ◌&&◌, ◌||◌, not}
use mathlib.Core.List.{List, [], ◌∷◌}
use mathlib.Core.Option.{Option, none, some}
use sompi.Base.Tests.{leb, ◌==◌, if◌then◌else◌}
use sompi.Base.Lists.{length}

-- The code points of a text, which is ASCII where one of the checks below accepts it.
unfoldable pub codes : String → List ℕ
codes String.[] = []
codes (String.◌∷◌ c s) = code c ∷ codes s

abbrev pub between : ℕ → ℕ → ℕ → Bool
between lo hi c = leb lo c && leb c hi

unfoldable pub is_digit : ℕ → Bool
is_digit c = between b'0' b'9' c

unfoldable pub is_lower_alnum : ℕ → Bool
is_lower_alnum c = between b'a' b'z' c || between b'0' b'9' c

unfoldable pub is_alnum : ℕ → Bool
is_alnum c = between b'a' b'z' c || between b'A' b'Z' c || between b'0' b'9' c

-- [A-Za-z0-9_-]
unfoldable pub is_base64url : ℕ → Bool
unfolding is_alnum
is_base64url c = is_alnum c || c == b'_' || c == b'-'

-- [A-Za-z0-9._:-]
unfoldable pub is_key_char : ℕ → Bool
unfolding is_alnum
is_key_char c = is_alnum c || c == b'.' || c == b'_' || c == b':' || c == b'-'

-- [a-f0-9]
unfoldable pub is_lower_hex : ℕ → Bool
is_lower_hex c = between b'a' b'f' c || between b'0' b'9' c

abbrev pub all_codes : (ℕ → Bool) → List ℕ → Bool
all_codes p [] = true
all_codes p (c ∷ cs) = p c && all_codes p cs

-- What follows a literal prefix.
unfoldable pub strip_prefix : List ℕ → List ℕ → Option (List ℕ)
strip_prefix [] cs = some cs
strip_prefix (p ∷ ps) [] = none
strip_prefix (p ∷ ps) (c ∷ cs) = if p == c then strip_prefix ps cs else none

abbrev pub sha256_prefix : List ℕ
sha256_prefix = b's' ∷ b'h' ∷ b'a' ∷ b'2' ∷ b'5' ∷ b'6' ∷ b':' ∷ []

abbrev pub kaspatest_prefix : List ℕ
kaspatest_prefix = b'k' ∷ b'a' ∷ b's' ∷ b'p' ∷ b'a' ∷ b't' ∷ b'e' ∷ b's' ∷ b't' ∷ b':' ∷ []

-- /^sha256:[A-Za-z0-9_-]{43}$/, assertDigest.
unfoldable pub is_digest : String → Bool
unfolding codes strip_prefix is_base64url
is_digest s = elim (strip_prefix sha256_prefix (codes s)) [
  | none ↦ false
  | some rest ↦ length rest == 43 && all_codes is_base64url rest
]

-- /^kaspatest:[a-z0-9]+$/ of at most 256 characters.
unfoldable pub is_address : String → Bool
unfolding codes strip_prefix is_lower_alnum
is_address s = elim (strip_prefix kaspatest_prefix (codes s)) [
  | none ↦ false
  | some rest ↦ leb 1 (length rest) && leb (length rest) 246 && all_codes is_lower_alnum rest
]

-- /^[A-Za-z0-9._:-]{1,160}$/, assertTreasuryOperationKey, and the driver owner's check.
unfoldable pub is_operation_key : String → Bool
unfolding codes is_key_char
is_operation_key s =
    let cs = codes s in leb 1 (length cs) && leb (length cs) 160 && all_codes is_key_char cs

abbrev pub head_is_alnum : List ℕ → Bool
unfolding is_alnum
head_is_alnum [] = false
head_is_alnum (c ∷ cs) = is_alnum c

-- /^[A-Za-z0-9][A-Za-z0-9._:-]{0,159}$/, assertCode.
unfoldable pub is_code : String → Bool
unfolding is_operation_key
is_code s = is_operation_key s && head_is_alnum (codes s)

-- /^[a-f0-9]{64}$/, assertTransactionId.
unfoldable pub is_transaction_id : String → Bool
unfolding codes is_lower_hex
is_transaction_id s = let cs = codes s in length cs == 64 && all_codes is_lower_hex cs

abbrev pub transfer_prefix : List ℕ
transfer_prefix = b't' ∷ b'r' ∷ b'f' ∷ b'_' ∷ []

-- /^trf_[A-Za-z0-9_-]{22}$/, assertTransferId.
unfoldable pub is_transfer_id : String → Bool
unfolding codes strip_prefix is_base64url
is_transfer_id s = elim (strip_prefix transfer_prefix (codes s)) [
  | none ↦ false
  | some rest ↦ length rest == 22 && all_codes is_base64url rest
]

-- assertBoundedText, over ASCII texts: something other than spaces, and no control character.
unfoldable pub is_bounded_text : String → ℕ → Bool
unfolding codes
is_bounded_text s max_length =
    let cs = codes s in
    leb (length cs) max_length
    && all_codes (λ c. leb 32 c && not (c == 127)) cs
    && not (all_codes (λ c. c == 32) cs)

-- /[\u0000-\u001f\u007f\s]/ over ASCII: the control characters and the space.
unfoldable pub is_control_or_space : ℕ → Bool
is_control_or_space c = leb c 32 || c == 127

-- assertSafeIdentity, over ASCII texts.
unfoldable pub is_safe_identity : String → ℕ → Bool
unfolding codes is_control_or_space
is_safe_identity s max_length =
    let cs = codes s in
    leb 1 (length cs)
    && leb (length cs) max_length
    && all_codes (λ c. not (is_control_or_space c)) cs
