-- ===== src/Signing/Decimal.antt =====
-- Decimal text as the source prints it (`n.toString()` on a bigint) and reads it back, and the
-- bigint parser `parseBigInt` of client/lib/validation.ts.
use kryon_v.Base.{
  ℕ, zero, suc, ◌+◌, ◌-◌, ◌*◌, ◌/◌, ◌%◌, ◌<◌, ◌≡◌, refl, sym, ap, ◌∙◌, ◌≢◌, Bool, true, ◌&&◌, ◌||◌,
  Option, none, some, [], ◌∷◌, reverse, arith, ◌==◌, ltb, leb, if◌then◌else◌, Text, All, Bool-cases,
  inl, inr, ℤ, pos, ◌-ℤ◌,
}
use mathlib.Core.Option
use mathlib.Core.Option.{some-injective}

-- The digits of `n` before `acc`; one digit falls off in each round, so `n + 1` rounds are enough.
digits_onto : ℕ → ℕ → Text → Text
digits_onto zero n acc = acc
digits_onto (suc f) n acc =
    let more = digits_onto f (n / 10) ((b'0' + n % 10) ∷ acc) in
    if ltb n 10 then (b'0' + n) ∷ acc else more

unfoldable pub to_string : ℕ → Text
unfolding digits_onto
to_string n = digits_onto (suc n) n []

abbrev pub is_digit : ℕ → Bool
is_digit c = leb b'0' c && leb c b'9'

-- The value of a run of digits after `acc`; `none` where the text has another character.
value_onto : ℕ → Text → Option ℕ
value_onto acc [] = some acc
value_onto acc (c ∷ s) =
    let rest = value_onto (acc * 10 + (c - b'0')) s in if is_digit c then rest else none

-- /^\d+$/ and the value
unfoldable pub parse_digits : Text → Option ℕ
unfolding value_onto
parse_digits [] = none
parse_digits (c ∷ s) = value_onto 0 (c ∷ s)

-- ECMAScript white space and line terminators, which `trim` removes.
unfoldable pub is_space : ℕ → Bool
is_space c =
    leb 9 c && leb c 13
    || c == 32
    || c == 160
    || c == 0x1680
    || leb 0x2000 c && leb c 0x200a
    || c == 0x2028
    || c == 0x2029
    || c == 0x202f
    || c == 0x205f
    || c == 0x3000
    || c == 0xfeff

trim_start : Text → Text
trim_start [] = []
trim_start (c ∷ s) = let rest = trim_start s in if is_space c then rest else c ∷ s

unfoldable pub trim : Text → Text
unfolding trim_start is_space
trim s = reverse (trim_start (reverse (trim_start s)))

-- /^-?\d+$/ and `BigInt(s)`
unfoldable pub parse_signed : Text → Option ℤ
unfolding parse_digits
parse_signed [] = none
parse_signed (c ∷ s) =
    if c == b'-'
    then Option.map (λ n. pos 0 -ℤ pos n) (parse_digits s)
    else Option.map pos (parse_digits (c ∷ s))

value_onto-digits_onto :
    (f n : ℕ) (acc : Text) → n < f → value_onto 0 (digits_onto f n acc) ≡ value_onto n acc
unfolding value_onto digits_onto
value_onto-digits_onto zero n acc h = elim h [ ]
value_onto-digits_onto (suc f) n acc h = elim (Bool-cases (ltb n 10)) [
  | inl small ↦ rw small (ground arith)
  | inr big ↦ rw big (ground (arith, value_onto-digits_onto f (n / 10) ((b'0' + n % 10) ∷ acc)))
]

digits_onto-ne-nil : (f n : ℕ) (acc : Text) → n < f → digits_onto f n acc ≢ []
unfolding digits_onto
digits_onto-ne-nil zero n acc h = elim h [ ]
digits_onto-ne-nil (suc f) n acc h =
    ground (arith, digits_onto-ne-nil f (n / 10) ((b'0' + n % 10) ∷ acc))

digits_onto-digits :
    (f n : ℕ) (acc : Text)
    → n < f
    → All (λ c. is_digit c ≡ true) acc
    → All (λ c. is_digit c ≡ true) (digits_onto f n acc)
unfolding digits_onto
digits_onto-digits zero n acc h k = k
digits_onto-digits (suc f) n acc h k =
    ground (arith, digits_onto-digits f (n / 10) ((b'0' + n % 10) ∷ acc))

parse_digits-eq : (s : Text) → s ≢ [] → parse_digits s ≡ value_onto 0 s
unfolding parse_digits
parse_digits-eq [] h = absurd (h refl)
parse_digits-eq (c ∷ s) h = refl

-- Reading back a printed number gives the number.
pub parse_digits-to_string : (n : ℕ) → parse_digits (to_string n) ≡ some n
unfolding to_string value_onto
parse_digits-to_string n =
    parse_digits-eq _ (digits_onto-ne-nil (suc n) n [] (omega arith))
    ∙ value_onto-digits_onto (suc n) n [] (omega arith)

pub to_string-digits : (n : ℕ) → All (λ c. is_digit c ≡ true) (to_string n)
unfolding to_string
to_string-digits n = digits_onto-digits (suc n) n [] (omega arith) tt

pub to_string-injective : (m n : ℕ) → to_string m ≡ to_string n → m ≡ n
to_string-injective m n e =
    some-injective m n
      (sym (parse_digits-to_string m) ∙ ap parse_digits e ∙ parse_digits-to_string n)
