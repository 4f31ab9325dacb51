-- ===== src/Amounts/RoundTrip.antt =====
-- What parseKasAmount of src/amount-display.ts accepts and returns, and formatKas with it.
use sompi.Base.{
  ℕ, zero, suc, ◌+◌, ◌-◌, ◌*◌, ◌/◌, ◌%◌, ◌^◌, ◌≤◌, ◌<◌, ◌==◌, ◌≡◌, refl, sym, ◌∙◌, ap, inl, inr,
  true, false, Option, none, some, List, [], ◌∷◌, ◌++◌, length, if◌then◌else◌, is_digit, Bool-cases,
  pos, arith,
}
use sompi.Amounts.{
  sompi_per_kas, spelled, to_decimal, zeros, strip_zeros, all_digits, is_canonical, span_digits,
  match_fraction, atomic_amount, in_range, format_magnitude, format_kas, parse_kas_amount,
  parse_parts,
}
use sompi.Amounts.Digits.{
  power_of_ten, spelled-append, spelled-zeros, spelled-to_decimal, all_digits-to_decimal,
  length-to_decimal, is_canonical-to_decimal, span_digits-append, length-zeros, all_digits-zeros,
  pad-strip_zeros, all_digits-strip_zeros, length-strip_zeros,
}

-- parseKasAmount on a text whose parts are known.
pub parse-parts :
    (text whole rest fraction : List ℕ)
    → span_digits text ≡ (whole, rest)
    → is_canonical whole ≡ true
    → match_fraction rest ≡ some fraction
    → parse_kas_amount text ≡ in_range (atomic_amount whole fraction)
unfolding parse_kas_amount
parse-parts text whole rest fraction parts canonical matched =
    ap (λ p. parse_parts p.0 p.1) parts ∙ parts_read canonical matched
  where
    parts_read :
        is_canonical whole ≡ true
        → match_fraction rest ≡ some fraction
        → parse_parts whole rest ≡ in_range (atomic_amount whole fraction)
    parts_read canonical matched = unfold parse_parts in rw (canonical, matched) refl

pub ranged : (n : ℕ) → 0 < n → n ≤ 2 ^ 64 - 1 → in_range n ≡ some (to_decimal n)
ranged n low high = ground (arith, low, high)

eight_zeros : spelled 0 (zeros 8) ≡ 0
unfolding spelled
eight_zeros = refl

whole_amount : (w : ℕ) → atomic_amount (to_decimal w) [] ≡ w * sompi_per_kas
unfolding atomic_amount
whole_amount w = omega (arith, ap (λ x. x * sompi_per_kas) (spelled-to_decimal w), eight_zeros)

-- The eight places of a remainder, before its zeros are stripped.
abbrev places : ℕ → List ℕ
places r = zeros (8 - length (to_decimal r)) ++ to_decimal r

length-places : (r : ℕ) → r < 100000000 → length (places r) ≡ 8
length-places r h =
    omega (arith, length-zeros (8 - length (to_decimal r)) (to_decimal r), length-to_decimal r h)

spelled-places : (r : ℕ) → spelled 0 (places r) ≡ r
spelled-places r = spelled-zeros (8 - length (to_decimal r)) (to_decimal r) ∙ spelled-to_decimal r

padded :
    (r : ℕ)
    → r < 100000000
    → strip_zeros (places r) ++ zeros (8 - length (strip_zeros (places r))) ≡ places r
padded r h =
    (λ i.
      strip_zeros (places r) ++ zeros (sym (length-places r h) i - length (strip_zeros (places r))))
    ∙ pad-strip_zeros (places r)

fraction_amount :
    (w r : ℕ)
    → r < 100000000
    → atomic_amount (to_decimal w) (strip_zeros (places r)) ≡ w * sompi_per_kas + r
unfolding atomic_amount
fraction_amount w r h = omega (
  arith,
  ap (λ x. x * sompi_per_kas) (spelled-to_decimal w),
  ap (spelled 0) (padded r h) ∙ spelled-places r,
)

not_stripped : (r : ℕ) → r < 100000000 → (r == 0) ≡ false → 1 ≤ length (strip_zeros (places r))
not_stripped r h other = some_left (strip_zeros (places r)) (padded r h)
  where
    some_left : (o : List ℕ) → o ++ zeros (8 - length o) ≡ places r → 1 ≤ length o
    some_left [] e =
        absurd (ground (arith, sym (ap (spelled 0) e) ∙ eight_zeros, spelled-places r, other))
    some_left (c ∷ cs) e = omega arith

pub fraction_matched :
    (cs : List ℕ)
    → 1 ≤ length cs
    → length cs ≤ 8
    → all_digits cs ≡ true
    → match_fraction (b'.' ∷ cs) ≡ some cs
unfolding match_fraction
fraction_matched cs low high digits = ground (arith, low, high, digits)

pub dot_spans : (cs : List ℕ) → span_digits (b'.' ∷ cs) ≡ ([], b'.' ∷ cs)
unfolding span_digits is_digit
dot_spans cs = refl

appended_nothing : (cs : List ℕ) → cs ++ [] ≡ cs
appended_nothing [] = refl
appended_nothing (c ∷ cs) = ap (λ x. c ∷ x) (appended_nothing cs)

pub no_fraction : match_fraction [] ≡ some []
unfolding match_fraction
no_fraction = refl

pub nothing_spans : span_digits [] ≡ ([], [])
unfolding span_digits
nothing_spans = refl

parse-whole : (w : ℕ) → parse_kas_amount (to_decimal w) ≡ in_range (w * sompi_per_kas)
parse-whole w =
    parse-parts (to_decimal w) (to_decimal w) [] []
      (ap span_digits (sym (appended_nothing (to_decimal w)))
        ∙ span_digits-append (to_decimal w) [] (all_digits-to_decimal w) nothing_spans)
      (is_canonical-to_decimal w) no_fraction
    ∙ ap in_range (whole_amount w)

parse-fraction :
    (w r : ℕ)
    → r < 100000000
    → (r == 0) ≡ false
    → parse_kas_amount (to_decimal w ++ b'.' ∷ strip_zeros (places r))
      ≡ in_range (w * sompi_per_kas + r)
parse-fraction w r h other =
    let cs = strip_zeros (places r) in
    let short : length cs ≤ 8 = omega (arith, length-strip_zeros (places r), length-places r h) in
    let digits =
      all_digits-strip_zeros (places r)
        (all_digits-zeros (8 - length (to_decimal r)) (to_decimal r) (all_digits-to_decimal r)) in
    parse-parts (to_decimal w ++ b'.' ∷ cs) (to_decimal w) (b'.' ∷ cs) cs
      (span_digits-append (to_decimal w) (b'.' ∷ cs) (all_digits-to_decimal w) (dot_spans cs))
      (is_canonical-to_decimal w) (fraction_matched cs (not_stripped r h other) short digits)
    ∙ ap in_range (fraction_amount w r h)

-- Every positive amount of sompi below 2^64 is read back, in its atomic decimal text, from the KAS text
-- that shows it.
pub parse_kas_amount-format_kas :
    (n : ℕ) → 0 < n → n ≤ 2 ^ 64 - 1 → parse_kas_amount (format_kas (pos n)) ≡ some (to_decimal n)
unfolding format_kas format_magnitude
parse_kas_amount-format_kas n low high = elim (Bool-cases (n % sompi_per_kas == 0)) [
  | inl exact ↦
      ap (λ b. parse_kas_amount (if b then to_decimal (n / sompi_per_kas) else with_fraction)) exact
      ∙ parse-whole (n / sompi_per_kas)
      ∙ ap in_range (no_rest n exact)
      ∙ ranged n low high
  | inr rest ↦
      ap (λ b. parse_kas_amount (if b then to_decimal (n / sompi_per_kas) else with_fraction)) rest
      ∙ parse-fraction (n / sompi_per_kas) (n % sompi_per_kas) (omega arith) rest
      ∙ ap in_range (whole_and_rest n)
      ∙ ranged n low high
]
  where
    with_fraction : List ℕ
    with_fraction =
        to_decimal (n / sompi_per_kas) ++ b'.' ∷ strip_zeros (places (n % sompi_per_kas))

    no_rest : (n : ℕ) → (n % sompi_per_kas == 0) ≡ true → n / sompi_per_kas * sompi_per_kas ≡ n
    no_rest n exact = ground arith

    whole_and_rest : (n : ℕ) → n / sompi_per_kas * sompi_per_kas + n % sompi_per_kas ≡ n
    whole_and_rest n = omega arith

pub in_range-cases :
    (amount : ℕ) (out : List ℕ)
    → in_range amount ≡ some out
    → (out ≡ to_decimal amount) × (0 < amount) × (amount ≤ 2 ^ 64 - 1)
in_range-cases amount out h = ground arith

pub parse_parts-cases :
    (whole rest out : List ℕ)
    → parse_parts whole rest ≡ some out
    → (fraction : List ℕ) × (is_canonical whole ≡ true)
      × (match_fraction rest ≡ some fraction)
      × (in_range (atomic_amount whole fraction) ≡ some out)
unfolding parse_parts
parse_parts-cases whole rest out h = elim (Bool-cases (is_canonical whole)) [
  | inl canonical ↦
      let (fraction, matched, ranged_so) = fraction_of (match_fraction rest) (rw canonical at h) in
      (fraction, canonical, matched, ranged_so)
  | inr other ↦ absurd (refused (rw other at h))
]
  where
    refused : none ≡ some out → ⊥
    refused e = cc

    fraction_of :
        (o : Option (List ℕ))
        → elim o [ none ↦ none | some fraction ↦ in_range (atomic_amount whole fraction) ]
          ≡ some out
        → (fraction : List ℕ) × (o ≡ some fraction)
          × (in_range (atomic_amount whole fraction) ≡ some out)
    fraction_of none e = absurd (refused e)
    fraction_of (some fraction) e = (fraction, refl, e)

spelled-zeros_behind : (m k : ℕ) → spelled m (zeros k) ≡ m * power_of_ten k
unfolding spelled
spelled-zeros_behind m zero = omega arith
spelled-zeros_behind m (suc k) = grind (arith, spelled-zeros_behind (m * 10 + (b'0' - b'0')) k)

pub exact_amount :
    (whole fraction : List ℕ)
    → atomic_amount whole fraction
      ≡ spelled 0 whole * sompi_per_kas + spelled 0 fraction * power_of_ten (8 - length fraction)
unfolding atomic_amount
exact_amount whole fraction =
    ap (λ x. spelled 0 whole * sompi_per_kas + x)
      (spelled-append 0 fraction (zeros (8 - length fraction))
        ∙ spelled-zeros_behind (spelled 0 fraction) (8 - length fraction))
