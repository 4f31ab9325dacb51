-- ===== src/Amounts/Digits.antt =====
-- The decimal texts behind src/amount-display.ts: the digits of a number spell it, and zeros that are stripped
-- at the end can be padded again.
use sompi.Base.{
  ℕ, zero, suc, ◌+◌, ◌-◌, ◌*◌, ◌/◌, ◌%◌, ◌≤◌, ◌<◌, ◌==◌, ◌&&◌, ◌≡◌, refl, sym, ◌∙◌, ap, inl, inr,
  Bool, true, false, List, [], ◌∷◌, ◌++◌, ltb, length, if◌then◌else◌, is_digit, Bool-cases, arith,
}
use sompi.Amounts.{
  spelled, digits_of, to_decimal, zeros, strip_zeros, all_digits, is_canonical, span_digits,
}

pub spelled-append : (n : ℕ) (xs ys : List ℕ) → spelled n (xs ++ ys) ≡ spelled (spelled n xs) ys
unfolding spelled
spelled-append n [] ys = refl
spelled-append n (x ∷ xs) ys = spelled-append (n * 10 + (x - b'0')) xs ys

pub spelled-zeros : (k : ℕ) (cs : List ℕ) → spelled 0 (zeros k ++ cs) ≡ spelled 0 cs
unfolding spelled
spelled-zeros zero cs = refl
spelled-zeros (suc k) cs = spelled-zeros k cs

pub digits-small :
    (fuel n : ℕ) (out : List ℕ) → ltb n 10 ≡ true → digits_of (suc fuel) n out ≡ (b'0' + n) ∷ out
unfolding digits_of
digits-small fuel n out h = ground arith

pub digits-large :
    (fuel n : ℕ) (out : List ℕ)
    → ltb n 10 ≡ false
    → digits_of (suc fuel) n out ≡ digits_of fuel (n / 10) ((b'0' + n % 10) ∷ out)
unfolding digits_of
digits-large fuel n out h = ground arith

tenth : (n fuel : ℕ) → ltb n 10 ≡ false → n < suc fuel → n / 10 < fuel
tenth n fuel large h = ground arith

spelled_digit : (n : ℕ) (out : List ℕ) → spelled 0 ((b'0' + n) ∷ out) ≡ spelled n out
unfolding spelled
spelled_digit n out = ap (λ m. spelled m out) (the_digit n)
  where
    the_digit : (n : ℕ) → 0 * 10 + (b'0' + n - b'0') ≡ n
    the_digit n = omega arith

spelled_last : (n : ℕ) (out : List ℕ) → spelled (n / 10) ((b'0' + n % 10) ∷ out) ≡ spelled n out
unfolding spelled
spelled_last n out = ap (λ m. spelled m out) (the_last n)
  where
    the_last : (n : ℕ) → n / 10 * 10 + (b'0' + n % 10 - b'0') ≡ n
    the_last n = omega arith

spelled-digits_of :
    (fuel n : ℕ) (out : List ℕ) → n < fuel → spelled 0 (digits_of fuel n out) ≡ spelled n out
spelled-digits_of zero n out h = absurd (omega (arith, h))
spelled-digits_of (suc fuel) n out h = elim (Bool-cases (ltb n 10)) [
  | inl small ↦ ap (spelled 0) (digits-small fuel n out small) ∙ spelled_digit n out
  | inr large ↦
      ap (spelled 0) (digits-large fuel n out large)
      ∙ spelled-digits_of fuel (n / 10) ((b'0' + n % 10) ∷ out) (tenth n fuel large h)
      ∙ spelled_last n out
]

pub spelled-to_decimal : (n : ℕ) → spelled 0 (to_decimal n) ≡ n
unfolding to_decimal spelled
spelled-to_decimal n = spelled-digits_of (suc n) n [] (omega arith)

digit_of : (n : ℕ) → ltb n 10 ≡ true → is_digit (b'0' + n) ≡ true
unfolding is_digit
digit_of n h = ground arith

last_is_digit : (n : ℕ) → is_digit (b'0' + n % 10) ≡ true
unfolding is_digit
last_is_digit n = ground arith

and_true : (a b : Bool) → a ≡ true → b ≡ true → (a && b) ≡ true
and_true true b h k = k
and_true false b h k = cc

all_digits-digits_of :
    (fuel n : ℕ) (out : List ℕ) → all_digits out ≡ true → all_digits (digits_of fuel n out) ≡ true
unfolding digits_of
all_digits-digits_of zero n out h = h
all_digits-digits_of (suc fuel) n out h = elim (Bool-cases (ltb n 10)) [
  | inl small ↦
      ap all_digits (digits-small fuel n out small)
      ∙ and_true (is_digit (b'0' + n)) (all_digits out) (digit_of n small) h
  | inr large ↦
      ap all_digits (digits-large fuel n out large)
      ∙ all_digits-digits_of fuel (n / 10) ((b'0' + n % 10) ∷ out)
          (and_true (is_digit (b'0' + n % 10)) (all_digits out) (last_is_digit n) h)
]

pub all_digits-to_decimal : (n : ℕ) → all_digits (to_decimal n) ≡ true
unfolding to_decimal
all_digits-to_decimal n = all_digits-digits_of (suc n) n [] refl

abbrev pub power_of_ten : ℕ → ℕ
power_of_ten zero = 1
power_of_ten (suc d) = 10 * power_of_ten d

length-digits_of :
    (fuel n d : ℕ) (out : List ℕ)
    → n < power_of_ten (suc d)
    → length (digits_of fuel n out) ≤ suc d + length out
length-digits_of zero n d out h = unfold digits_of in omega arith
length-digits_of (suc fuel) n zero out h =
    omega (arith, ap length (digits-small fuel n out (ground (arith, h))))
length-digits_of (suc fuel) n (suc e) out h = elim (Bool-cases (ltb n 10)) [
  | inl small ↦ omega (arith, ap length (digits-small fuel n out small))
  | inr large ↦ omega (
    arith,
    ap length (digits-large fuel n out large),
    length-digits_of fuel (n / 10) e ((b'0' + n % 10) ∷ out) (omega (arith, h)),
  )
]

pub length-to_decimal : (n : ℕ) → n < 100000000 → length (to_decimal n) ≤ 8
unfolding to_decimal
length-to_decimal n h = omega (arith, length-digits_of (suc n) n 7 [] h)

leads :
    (n : ℕ) (out : List ℕ)
    → 1 ≤ n
    → ltb n 10 ≡ true
    → all_digits out ≡ true
    → is_canonical ((b'0' + n) ∷ out) ≡ true
unfolding is_canonical is_digit
leads n [] one small h = ground arith
leads n (c ∷ cs) one small h = ground arith

is_canonical-digits_of :
    (fuel n : ℕ) (out : List ℕ)
    → 1 ≤ n
    → n < fuel
    → all_digits out ≡ true
    → is_canonical (digits_of fuel n out) ≡ true
is_canonical-digits_of zero n out one h all = absurd (omega (arith, h))
is_canonical-digits_of (suc fuel) n out one h all = elim (Bool-cases (ltb n 10)) [
  | inl small ↦ ap is_canonical (digits-small fuel n out small) ∙ leads n out one small all
  | inr large ↦
      ap is_canonical (digits-large fuel n out large)
      ∙ is_canonical-digits_of fuel (n / 10) ((b'0' + n % 10) ∷ out) (tens n large)
          (tenth n fuel large h)
          (and_true (is_digit (b'0' + n % 10)) (all_digits out) (last_is_digit n) all)
]
  where
    tens : (n : ℕ) → ltb n 10 ≡ false → 1 ≤ n / 10
    tens n large = ground arith

pub is_canonical-to_decimal : (n : ℕ) → is_canonical (to_decimal n) ≡ true
unfolding to_decimal is_canonical is_digit digits_of
is_canonical-to_decimal zero = refl
is_canonical-to_decimal (suc n) =
    is_canonical-digits_of (suc (suc n)) (suc n) [] (omega arith) (omega arith) refl

-- Digits in front of a text that starts with none.
pub span_digits-append :
    (ds rest : List ℕ)
    → all_digits ds ≡ true
    → span_digits rest ≡ ([], rest)
    → span_digits (ds ++ rest) ≡ (ds, rest)
unfolding span_digits
span_digits-append [] rest h e = e
span_digits-append (d ∷ ds) rest h e =
    let (here, there) = both (is_digit d) (all_digits ds) h in
    rw here (ap (λ p. (d ∷ p.0, p.1)) (span_digits-append ds rest there e))
  where
    both : (a b : Bool) → (a && b) ≡ true → (a ≡ true) × (b ≡ true)
    both true b k = (refl, k)
    both false b k = cc

pub length-zeros : (k : ℕ) (cs : List ℕ) → length (zeros k ++ cs) ≡ k + length cs
length-zeros zero cs = omega arith
length-zeros (suc k) cs = omega (arith, length-zeros k cs)

pub all_digits-zeros :
    (k : ℕ) (cs : List ℕ) → all_digits cs ≡ true → all_digits (zeros k ++ cs) ≡ true
unfolding is_digit
all_digits-zeros zero cs h = h
all_digits-zeros (suc k) cs h = all_digits-zeros k cs h

less_one : (a b : ℕ) → suc a - suc b ≡ a - b
less_one a b = omega arith

-- One digit in front of a text, as strip_zeros has it.
abbrev stripped : ℕ → List ℕ → List ℕ
stripped c o = elim o [ [] ↦ if c == b'0' then [] else c ∷ [] | d ∷ ds ↦ c ∷ d ∷ ds ]

restore :
    (c : ℕ) (cs o : List ℕ)
    → o ++ zeros (length cs - length o) ≡ cs
    → stripped c o ++ zeros (suc (length cs) - length (stripped c o)) ≡ c ∷ cs
restore c cs [] h = elim (Bool-cases (c == b'0')) [
  | inl same ↦
      (λ i.
        (if same i then [] else c ∷ [])
        ++ zeros (suc (length cs) - length (if same i then [] else c ∷ [])))
      ∙ ap zeros (none_taken (suc (length cs)))
      ∙ (λ i. zero_code same i ∷ zeros (length cs))
      ∙ ap (λ x. c ∷ x) (ap zeros (sym (none_taken (length cs))) ∙ h)
  | inr other ↦
      (λ i.
        (if other i then [] else c ∷ [])
        ++ zeros (suc (length cs) - length (if other i then [] else c ∷ [])))
      ∙ ap (λ x. c ∷ x) (ap zeros (less_one (length cs) 0) ∙ h)
]
  where
    none_taken : (n : ℕ) → n - 0 ≡ n
    none_taken n = omega arith

    zero_code : (c == b'0') ≡ true → b'0' ≡ c
    zero_code same = ground arith
restore c cs (d ∷ ds) h =
    ap (λ k. c ∷ d ∷ ds ++ zeros k) (less_one (length cs) (suc (length ds))) ∙ ap (λ x. c ∷ x) h

pub pad-strip_zeros :
    (cs : List ℕ) → strip_zeros cs ++ zeros (length cs - length (strip_zeros cs)) ≡ cs
unfolding strip_zeros
pad-strip_zeros [] = refl
pad-strip_zeros (c ∷ cs) = restore c cs (strip_zeros cs) (pad-strip_zeros cs)

all_digits-stripped :
    (c : ℕ) (o : List ℕ)
    → is_digit c ≡ true
    → all_digits o ≡ true
    → all_digits (stripped c o) ≡ true
all_digits-stripped c [] h k = ground (arith, h)
all_digits-stripped c (d ∷ ds) h k = and_true (is_digit c) (all_digits (d ∷ ds)) h k

pub both_true : (a b : Bool) → (a && b) ≡ true → (a ≡ true) × (b ≡ true)
both_true true b k = (refl, k)
both_true false b k = cc

pub all_digits-strip_zeros :
    (cs : List ℕ) → all_digits cs ≡ true → all_digits (strip_zeros cs) ≡ true
unfolding strip_zeros
all_digits-strip_zeros [] h = refl
all_digits-strip_zeros (c ∷ cs) h =
    let (here, there) = both_true (is_digit c) (all_digits cs) h in
    all_digits-stripped c (strip_zeros cs) here (all_digits-strip_zeros cs there)

length-stripped : (c : ℕ) (o : List ℕ) → length (stripped c o) ≤ suc (length o)
length-stripped c [] = ground arith
length-stripped c (d ∷ ds) = omega arith

pub length-strip_zeros : (cs : List ℕ) → length (strip_zeros cs) ≤ length cs
unfolding strip_zeros
length-strip_zeros [] = omega arith
length-strip_zeros (c ∷ cs) =
    omega (arith, length-stripped c (strip_zeros cs), length-strip_zeros cs)
