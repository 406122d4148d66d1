-- ===== src/Text/Decimal.antt =====
-- strconv.ParseInt(s, 10, 64) and the verb %d.
use docpine.Base.{
  ℕ, zero, suc, ◌+◌, ◌-◌, ◌*◌, ◌/◌, ◌%◌, ◌^◌, ◌≤◌, ◌<◌, ◌≡◌, refl, ap, ◌∙◌, Bool, true, false, ◌&&◌,
  Option, none, some, [], ◌∷◌, ◌++◌, Bytes, ltb, leb, ◌==◌, if◌then◌else◌, ℤ, pos, negsuc, arith,
  Bool-cases, inl, inr, lt→ltb,
}
use docpine.Text.Split.{Free, Free-append}

-- %d, a digit for each round; the fuel is above the number.
print_from : ℕ → ℕ → Bytes
print_from zero n = []
print_from (suc f) n =
    let rest = print_from f (n / 10) ++ (n % 10 + b'0') ∷ [] in
    if ltb n 10 then (n + b'0') ∷ [] else rest

unfoldable pub print : ℕ → Bytes
unfolding print_from
print n = print_from (suc n) n

unfoldable pub print_int : ℤ → Bytes
unfolding print
print_int (pos n) = print n
print_int (negsuc n) = b'-' ∷ print (suc n)

-- Digits only; `none` on any other byte.
unfoldable pub parse_digits : ℕ → Bytes → Option ℕ
parse_digits acc [] = some acc
parse_digits acc (c ∷ s) =
    let rest = parse_digits (acc * 10 + (c - b'0')) s in
    if leb b'0' c && leb c b'9' then rest else none

abbrev int64_min_size : ℕ
int64_min_size = 2 ^ 63

unfoldable pub in_range : Bool → ℕ → Option ℤ
in_range false n = if ltb n int64_min_size then some (pos n) else none
in_range true zero = some (pos 0)
in_range true (suc n) = if ltb n int64_min_size then some (negsuc n) else none

unfoldable pub parse_magnitude : Bool → Bytes → Option ℤ
parse_magnitude negative [] = none
parse_magnitude negative (c ∷ s) = elim (parse_digits 0 (c ∷ s)) [
  | none ↦ none
  | some n ↦ in_range negative n
]

-- An optional sign, at least one digit, and a value that an int64 holds.
unfoldable pub parse_int : Bytes → Option ℤ
parse_int [] = none
parse_int (c ∷ s) =
    if c == b'-'
    then parse_magnitude true s
    else if c == b'+'
    then parse_magnitude false s
    else parse_magnitude false (c ∷ s)

parse_digits-append :
    (acc : ℕ) (s : Bytes) (n d : ℕ)
    → parse_digits acc s ≡ some n
    → d < 10
    → parse_digits acc (s ++ (d + b'0') ∷ []) ≡ some (n * 10 + d)
unfolding parse_digits
parse_digits-append acc [] n d h lt = ground arith
parse_digits-append acc (c ∷ s) n d h lt =
    ground (arith, parse_digits-append (acc * 10 + (c - b'0')) s n d)

-- What a text of digits begins with, and that it begins.
abbrev IsNumeral : Bytes → Type 0
IsNumeral [] = ⊥
IsNumeral (c ∷ s) = (b'0' ≤ c) × (c ≤ b'9')

IsNumeral-append : (s t : Bytes) → IsNumeral s → IsNumeral (s ++ t)
IsNumeral-append [] t h = absurd h
IsNumeral-append (c ∷ s) t h = h

print_from-IsNumeral : (f n : ℕ) → n < f → IsNumeral (print_from f n)
unfolding print_from
print_from-IsNumeral zero n h = absurd (omega arith)
print_from-IsNumeral (suc f) n h = elim (Bool-cases (ltb n 10)) [
  | inl small ↦ rw small (ground arith)
  | inr large ↦
      rw large (
        IsNumeral-append (print_from f (n / 10)) _ (print_from-IsNumeral f (n / 10) (ground arith)))
]

parse_digits-print_from : (f n : ℕ) → n < f → parse_digits 0 (print_from f n) ≡ some n
unfolding print_from
parse_digits-print_from zero n h = absurd (omega arith)
parse_digits-print_from (suc f) n h = elim (Bool-cases (ltb n 10)) [
  | inl small ↦ rw small (
      parse_digits-append 0 [] 0 n (unfold parse_digits in refl) (ground arith)
      ∙ ap some (omega arith))
  | inr large ↦ rw large (
      parse_digits-append 0 (print_from f (n / 10)) (n / 10) (n % 10)
        (parse_digits-print_from f (n / 10) (ground arith)) (omega arith)
      ∙ ap some (omega arith))
]

print_from-Free : (sep f n : ℕ) → sep < b'0' → Free sep (print_from f n)
unfolding print_from
print_from-Free sep zero n h = tt
print_from-Free sep (suc f) n h = elim (Bool-cases (ltb n 10)) [
  | inl small ↦ rw small (omega arith, tt)
  | inr large ↦ rw large (
      Free-append sep (print_from f (n / 10)) _ (print_from-Free sep f (n / 10) h)
        (omega arith, tt))
]

pub print-Free : (sep n : ℕ) → sep < b'0' → Free sep (print n)
unfolding print
print-Free sep n h = print_from-Free sep (suc n) n h

parse_magnitude_lem :
    (c : ℕ) (s : Bytes) (n : ℕ)
    → parse_digits 0 (c ∷ s) ≡ some n
    → n < 2 ^ 63
    → parse_magnitude false (c ∷ s) ≡ some (pos n)
unfolding parse_magnitude in_range
parse_magnitude_lem c s n e h = rw (e, parse_magnitude) (rw (lt→ltb n (2 ^ 63) h))

-- A numeral has no sign.
parse_int_of_IsNumeral :
    (s : Bytes) (n : ℕ)
    → IsNumeral s
    → parse_digits 0 s ≡ some n
    → n < 2 ^ 63
    → parse_int s ≡ some (pos n)
unfolding parse_int
parse_int_of_IsNumeral [] n d e h = absurd d
parse_int_of_IsNumeral (c ∷ s) n d e h = ground (arith, parse_magnitude_lem c s n e h)

pub parse_int-print : (n : ℕ) → n < 2 ^ 63 → parse_int (print n) ≡ some (pos n)
unfolding print
parse_int-print n h =
    parse_int_of_IsNumeral (print n) n (print_from-IsNumeral (suc n) n (omega arith))
      (parse_digits-print_from (suc n) n (omega arith)) h
