-- ===== src/Amounts.antt =====
-- src/amount-display.ts: amounts of sompi as decimal KAS texts, given by their code points, and back.
-- BigInt(text), BigInt.toString, padStart and padEnd are written out.
pub mod Digits
pub mod RoundTrip
pub mod Grammar
pub mod Views
use sompi.Base.{
  ℕ, zero, suc, ◌+◌, ◌-◌, ◌*◌, ◌/◌, ◌%◌, ◌^◌, ◌==◌, ◌&&◌, not, Bool, true, false, Option, none,
  some, List, [], ◌∷◌, ◌++◌, leb, ltb, length, if◌then◌else◌, is_digit, ℤ, pos, negsuc, codes,
  String, ◌≡◌, refl,
}

-- SOMPI_PER_KAS.
abbrev pub sompi_per_kas : ℕ
sompi_per_kas = 100000000

-- The number that digits spell behind `n`.
unfoldable pub spelled : ℕ → List ℕ → ℕ
spelled n [] = n
spelled n (c ∷ cs) = spelled (n * 10 + (c - b'0')) cs

-- The last digits of `n` in front of `out`, at most `fuel` of them.
unfoldable pub digits_of : (fuel n : ℕ) → List ℕ → List ℕ
digits_of zero n out = out
digits_of (suc fuel) n out = elim (ltb n 10) [
  | true ↦ (b'0' + n) ∷ out
  | false ↦ digits_of fuel (n / 10) ((b'0' + n % 10) ∷ out)
]

-- BigInt.toString: a number has fewer digits than it has units, but for 0.
unfoldable pub to_decimal : ℕ → List ℕ
unfolding digits_of
to_decimal n = digits_of (suc n) n []

abbrev pub zeros : ℕ → List ℕ
zeros zero = []
zeros (suc n) = b'0' ∷ zeros n

-- `text.replace(/0+$/, "")`.
unfoldable pub strip_zeros : List ℕ → List ℕ
strip_zeros [] = []
strip_zeros (c ∷ cs) = elim (strip_zeros cs) [
  | [] ↦ if c == b'0' then [] else c ∷ []
  | d ∷ ds ↦ c ∷ d ∷ ds
]

-- The absolute value of formatKas.
unfoldable pub format_magnitude : ℕ → List ℕ
unfolding to_decimal strip_zeros
format_magnitude n =
    let whole = to_decimal (n / sompi_per_kas) in
    let remainder = n % sompi_per_kas in
    let digits = to_decimal remainder in
    if remainder == 0
    then whole
    else whole ++ b'.' ∷ strip_zeros (zeros (8 - length digits) ++ digits)

-- formatKas.
unfoldable pub format_kas : ℤ → List ℕ
unfolding format_magnitude
format_kas (pos n) = format_magnitude n
format_kas (negsuc n) = b'-' ∷ format_magnitude (suc n)

abbrev pub all_digits : List ℕ → Bool
all_digits [] = true
all_digits (c ∷ cs) = is_digit c && all_digits cs

-- /^(?:0|[1-9][0-9]*)$/.
unfoldable pub is_canonical : List ℕ → Bool
unfolding is_digit
is_canonical [] = false
is_canonical (c ∷ []) = is_digit c
is_canonical (c ∷ d ∷ cs) = leb b'1' c && leb c b'9' && all_digits (d ∷ cs)

-- The digits in front, and what follows them.
unfoldable pub span_digits : List ℕ → List ℕ × List ℕ
unfolding is_digit
span_digits [] = ([], [])
span_digits (c ∷ cs) =
    let rest = span_digits cs in if is_digit c then (c ∷ rest.0, rest.1) else ([], c ∷ cs)

-- /(?:\.([0-9]{1,8}))?$/: the fraction's digits, none of them if there is no fraction.
unfoldable pub match_fraction : List ℕ → Option (List ℕ)
unfolding is_digit
match_fraction [] = some []
match_fraction (c ∷ cs) =
    if c == b'.' && leb 1 (length cs) && leb (length cs) 8 && all_digits cs then some cs else none

-- The atomic amount of a whole part and a fraction, padded to eight places.
unfoldable pub atomic_amount : List ℕ → List ℕ → ℕ
unfolding spelled
atomic_amount whole fraction =
    spelled 0 whole * sompi_per_kas + spelled 0 (fraction ++ zeros (8 - length fraction))

pub data Network : Type 0 where
  testnet mainnet : Network

-- KasDisplayUnit.
unfoldable pub unit_of : Network → List ℕ
unfolding codes
unit_of mainnet = codes "KAS"
unit_of testnet = codes "tKAS"

-- KasAmountView.
pub record KasAmountView : Type 0 where
  pub atomic : List ℕ
  pub kas : List ℕ
  pub unit : List ℕ
  pub display : List ℕ

-- `string | bigint`.
pub data AtomicInput : Type 0 where
  atomic_text : List ℕ → AtomicInput
  bigint : ℤ → AtomicInput

-- BigInt.toString.
unfoldable pub int_text : ℤ → List ℕ
unfolding to_decimal
int_text (pos n) = to_decimal n
int_text (negsuc n) = b'-' ∷ to_decimal (suc n)

abbrev pub input_text : AtomicInput → List ℕ
unfolding int_text
input_text (atomic_text cs) = cs
input_text (bigint n) = int_text n

unfoldable pub view_of : (canonical : List ℕ) → Network → KasAmountView
unfolding spelled format_kas unit_of
view_of canonical network =
    let kas = format_kas (pos (spelled 0 canonical)) in
    record {
      atomic = canonical;
      kas = kas;
      unit = unit_of network;
      display = kas ++ b' ' ∷ unit_of network;
    }

-- kasAmountView: `none` where it throws, as on a negative number.
unfoldable pub kas_amount_view : AtomicInput → Network → Option KasAmountView
unfolding is_canonical view_of input_text
kas_amount_view atomic network =
    if is_canonical (input_text atomic) then some (view_of (input_text atomic) network) else none

-- displayKas.
unfoldable pub display_kas : AtomicInput → Network → Option (List ℕ)
unfolding kas_amount_view
display_kas atomic network = elim (kas_amount_view atomic network) [
  | none ↦ none
  | some v ↦ some v.display
]

-- displayKasWithAtomic.
unfoldable pub display_kas_with_atomic : AtomicInput → Network → Option (List ℕ)
unfolding kas_amount_view codes
display_kas_with_atomic atomic network = elim (kas_amount_view atomic network) [
  | none ↦ none
  | some v ↦ some (v.display ++ codes " (" ++ v.atomic ++ codes " sompi)")
]

abbrev pub in_range : ℕ → Option (List ℕ)
in_range amount = if ltb 0 amount && leb amount (2 ^ 64 - 1) then some (to_decimal amount) else none

unfoldable pub parse_parts : (whole rest : List ℕ) → Option (List ℕ)
unfolding is_canonical match_fraction atomic_amount to_decimal
parse_parts whole rest =
    if is_canonical whole
    then elim (match_fraction rest) [
      | none ↦ none
      | some fraction ↦ in_range (atomic_amount whole fraction)
    ]
    else none

-- parseKasAmount: `none` where it throws.
unfoldable pub parse_kas_amount : List ℕ → Option (List ℕ)
unfolding span_digits parse_parts
parse_kas_amount text = let parts = span_digits text in parse_parts parts.0 parts.1

format_kas_test : format_kas (negsuc 1049999999) ≡ codes "-10.5"
unfolding format_kas codes
format_kas_test = refl

parse_kas_amount_test : parse_kas_amount (codes "0.00000001") ≡ some (codes "1")
unfolding parse_kas_amount codes
parse_kas_amount_test = refl
