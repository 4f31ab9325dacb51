-- ===== src/Amounts/Grammar.antt =====
-- The texts that parseKasAmount of src/amount-display.ts accepts, by a grammar of their own.
use sompi.Base.{
  ℕ, ◌+◌, ◌-◌, ◌*◌, ◌^◌, ◌≤◌, ◌<◌, ◌==◌, ◌≡◌, ◌↔◌, refl, sym, ◌∙◌, ap, Bool, true, false, some,
  List, [], ◌∷◌, ◌++◌, length, is_digit, Bool-cases, inl, inr, arith,
}
use sompi.Amounts.{
  spelled, to_decimal, all_digits, is_canonical, span_digits, match_fraction, atomic_amount,
  in_range, parse_kas_amount,
}
use sompi.Amounts.Digits.{power_of_ten, span_digits-append}
use sompi.Amounts.RoundTrip.{
  parse-parts, ranged, fraction_matched, dot_spans, no_fraction, nothing_spans, in_range-cases,
  parse_parts-cases, exact_amount,
}

-- A fraction behind its point; without digits there is no point.
abbrev pub fraction_text : List ℕ → List ℕ
fraction_text [] = []
fraction_text (c ∷ cs) = b'.' ∷ c ∷ cs

-- A zero in front of another digit.
abbrev pub leading_zero : List ℕ → Bool
leading_zero (c ∷ d ∷ cs) = c == b'0'
leading_zero _ = false

-- The amount of a whole part and a fraction, in sompi.
abbrev pub exact_sompi : List ℕ → List ℕ → ℕ
exact_sompi whole fraction =
    spelled 0 whole * 100000000 + spelled 0 fraction * power_of_ten (8 - length fraction)

-- `text` is a positive decimal number of KAS below 2^64 sompi, with at most eight places and no zero in front of its
-- other digits, and `out` is its amount of sompi.
pub record Denotes (text out : List ℕ) : Type 0 where
  pub whole : List ℕ
  pub fraction : List ℕ
  pub written : text ≡ whole ++ fraction_text fraction
  pub whole_digits : all_digits whole ≡ true
  pub some_digit : 1 ≤ length whole
  pub no_leading_zero : leading_zero whole ≡ false
  pub fraction_digits : all_digits fraction ≡ true
  pub places : length fraction ≤ 8
  pub positive : 0 < exact_sompi whole fraction
  pub in_64_bits : exact_sompi whole fraction ≤ 2 ^ 64 - 1
  pub amount : out ≡ to_decimal (exact_sompi whole fraction)

canonical-parts :
    (whole : List ℕ)
    → is_canonical whole ≡ true
    → (all_digits whole ≡ true) × (1 ≤ length whole) × (leading_zero whole ≡ false)
unfolding is_canonical is_digit
canonical-parts [] h = cc
canonical-parts (c ∷ []) h = ground (arith, h)
canonical-parts (c ∷ d ∷ cs) h = ground (arith, h)

parts-canonical :
    (whole : List ℕ)
    → all_digits whole ≡ true
    → 1 ≤ length whole
    → leading_zero whole ≡ false
    → is_canonical whole ≡ true
unfolding is_canonical is_digit
parts-canonical [] h one zero_free = absurd (omega (arith, one))
parts-canonical (c ∷ []) h one zero_free = ground (arith, h)
parts-canonical (c ∷ d ∷ cs) h one zero_free = ground (arith, h, zero_free)

-- The two parts of a text make it up.
span-whole : (text : List ℕ) → (span_digits text).0 ++ (span_digits text).1 ≡ text
unfolding span_digits
span-whole [] = refl
span-whole (c ∷ cs) = elim (Bool-cases (is_digit c)) [
  | inl digit ↦ rw digit (ap (λ x. c ∷ x) (span-whole cs))
  | inr other ↦ rw other refl
]

matched-parts :
    (rest fraction : List ℕ)
    → match_fraction rest ≡ some fraction
    → (rest ≡ fraction_text fraction) × (all_digits fraction ≡ true) × (length fraction ≤ 8)
unfolding match_fraction
matched-parts [] [] h = (refl, refl, omega arith)
matched-parts [] (f ∷ fs) h = cc
matched-parts (c ∷ []) fraction h = ground (arith, h)
matched-parts (c ∷ d ∷ cs) [] h = ground (arith, h)
matched-parts (c ∷ d ∷ cs) (f ∷ fs) h = ground (arith, h)

parts-matched :
    (fraction : List ℕ)
    → all_digits fraction ≡ true
    → length fraction ≤ 8
    → match_fraction (fraction_text fraction) ≡ some fraction
parts-matched [] digits short = no_fraction
parts-matched (f ∷ fs) digits short = fraction_matched (f ∷ fs) (omega arith) short digits

fraction-spans :
    (fraction : List ℕ) → span_digits (fraction_text fraction) ≡ ([], fraction_text fraction)
fraction-spans [] = nothing_spans
fraction-spans (f ∷ fs) = dot_spans (f ∷ fs)

accepted : (text out : List ℕ) → parse_kas_amount text ≡ some out → Denotes text out
unfolding parse_kas_amount
accepted text out h =
    let parts = span_digits text in
    let (fraction, canonical, matched, ranged_so) = parse_parts-cases parts.0 parts.1 out h in
    let (decimal, low, high) = in_range-cases (atomic_amount parts.0 fraction) out ranged_so in
    let (digits, one, zero_free) = canonical-parts parts.0 canonical in
    let (rest, fraction_digits, short) = matched-parts parts.1 fraction matched in
    let exact = exact_amount parts.0 fraction in
    record {
      whole = parts.0;
      fraction = fraction;
      written = sym (span-whole text) ∙ ap (λ x. parts.0 ++ x) rest;
      whole_digits = digits;
      some_digit = one;
      no_leading_zero = zero_free;
      fraction_digits = fraction_digits;
      places = short;
      positive = omega (arith, exact, low);
      in_64_bits = omega (arith, exact, high);
      amount = decimal ∙ ap to_decimal exact;
    }

denoted : (text out : List ℕ) → Denotes text out → parse_kas_amount text ≡ some out
denoted text out d =
    let spans =
      span_digits-append d.whole (fraction_text d.fraction) d.whole_digits
        (fraction-spans d.fraction) in
    let exact = exact_amount d.whole d.fraction in
    parse-parts text d.whole (fraction_text d.fraction) d.fraction
      (ap span_digits d.written ∙ spans)
      (parts-canonical d.whole d.whole_digits d.some_digit d.no_leading_zero)
      (parts-matched d.fraction d.fraction_digits d.places)
    ∙ ap in_range exact
    ∙ ranged (exact_sompi d.whole d.fraction) d.positive d.in_64_bits
    ∙ ap (λ x. some x) (sym d.amount)

-- parseKasAmount accepts a text with a result exactly if the text is a positive decimal number of KAS below 2^64
-- sompi, with at most eight places behind its point and no zero in front of its other digits, and the result is
-- the decimal text of its exact amount of sompi.
pub parse_kas_amount-Denotes :
    (text out : List ℕ) → (parse_kas_amount text ≡ some out) ↔ Denotes text out
parse_kas_amount-Denotes text out = (accepted text out, denoted text out)
