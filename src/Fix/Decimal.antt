-- ===== src/Fix/Decimal.antt =====
-- The decimal text of numbers, as `std::to_string` and `std::format` write it in
-- include/fix/message.h, and its reading.
use native.Mathlib.Nat.{pow-suc}
use fix_feed_simulator.Prelude.{
  ℕ, zero, suc, ◌+◌, ◌-◌, ◌*◌, ◌/◌, ◌%◌, ◌^◌, ◌≤◌, ◌<◌, ◌≡◌, refl, sym, ◌∙◌, arith, [], ◌∷◌, ◌++◌,
  Bool, ◌&&◌, Option, none, some, length, replicate, All, ltb, leb, if◌then◌else◌, length-append,
  length-replicate, All-append,
}
use fix_feed_simulator.Prelude.Bytes.{Bytes, ℤ, pos, negsuc}

-- The digits of `n` before `out`; `fuel` bounds their number.
digits : ℕ → ℕ → Bytes → Bytes
digits zero n out = out
digits (suc fuel) n out =
    let last = (b'0' + n % 10) ∷ out in
    let more = digits fuel (n / 10) last in if ltb n 10 then last else more

-- `{}` of an unsigned number
unfoldable pub decimal : ℕ → Bytes
unfolding digits
decimal n = digits (suc n) n []

-- `std::to_string` of an `int`
unfoldable pub to_string : ℤ → Bytes
to_string (pos n) = decimal n
to_string (negsuc n) = b'-' ∷ decimal (n + 1)

-- `{:03}`: zeros in front, up to three characters
unfoldable pub padded : ℕ → Bytes
padded n = let text = decimal n in replicate (3 - length text) b'0' ++ text

-- A reader: all characters are digits, and there is at least one.
is_digit : ℕ → Bool
is_digit c = leb b'0' c && leb c b'9'

scan : ℕ → Bytes → Option ℕ
scan n [] = some n
scan n (c ∷ s) = if is_digit c then scan (n * 10 + (c - b'0')) s else none

unfoldable pub read_number : Bytes → Option ℕ
unfolding scan is_digit
read_number [] = none
read_number (c ∷ s) = scan 0 (c ∷ s)

scan-digits : (fuel n : ℕ) (out : Bytes) → n < fuel → scan 0 (digits fuel n out) ≡ scan n out
unfolding digits scan is_digit
scan-digits zero n out h = elim h [ ]
scan-digits (suc fuel) n out h = ground (arith, scan-digits fuel (n / 10) ((b'0' + n % 10) ∷ out))

abbrev pub IsDigit : ℕ → Type 0
IsDigit c = (b'0' ≤ c) × (c ≤ b'9')

-- Behind digits come digits, and there is at least one.
digits-IsDigit : (fuel n : ℕ) (out : Bytes) → All IsDigit out → All IsDigit (digits fuel n out)
unfolding digits
digits-IsDigit zero n out h = h
digits-IsDigit (suc fuel) n out h =
    ground (arith, digits-IsDigit fuel (n / 10) ((b'0' + n % 10) ∷ out))

length-digits : (fuel n : ℕ) (out : Bytes) → length out ≤ length (digits fuel n out)
unfolding digits
length-digits zero n out = omega arith
length-digits (suc fuel) n out = ground (arith, length-digits fuel (n / 10) ((b'0' + n % 10) ∷ out))

pub decimal-IsDigit : (n : ℕ) → All IsDigit (decimal n)
unfolding decimal
decimal-IsDigit n = digits-IsDigit (suc n) n [] tt

pub decimal_nonempty : (n : ℕ) → 0 < length (decimal n)
unfolding decimal
decimal_nonempty n = ground (arith, length-digits n (n / 10) ((b'0' + n % 10) ∷ []))

read_number-scan : (s : Bytes) → 0 < length s → read_number s ≡ scan 0 s
unfolding read_number
read_number-scan [] h = absurd (omega arith)
read_number-scan (c ∷ s) h = refl

-- Reading the decimal text of a number gives the number.
pub read_number-decimal : (n : ℕ) → read_number (decimal n) ≡ some n
unfolding decimal
read_number-decimal n =
    read_number-scan (decimal n) (decimal_nonempty n)
    ∙ scan-digits (suc n) n [] (omega arith)
    ∙ unfold scan in refl

length-digits-le :
    (k fuel n : ℕ) (out : Bytes) → n < 10 ^ suc k → length (digits fuel n out) ≤ suc k + length out
unfolding digits
length-digits-le k zero n out h = omega arith
length-digits-le zero (suc fuel) n out h = ground arith
length-digits-le (suc k) (suc fuel) n out h =
    ground (arith, pow-suc 10 (suc k), length-digits-le k fuel (n / 10) ((b'0' + n % 10) ∷ out))

pub length-decimal_le : (k n : ℕ) → n < 10 ^ suc k → length (decimal n) ≤ suc k
unfolding decimal
length-decimal_le k n h = omega (arith, length-digits-le k (suc n) n [] h)

scan-zeros : (k : ℕ) (s : Bytes) → scan 0 (replicate k b'0' ++ s) ≡ scan 0 s
unfolding scan is_digit
scan-zeros zero s = refl
scan-zeros (suc k) s = scan-zeros k s

All-replicate : (k : ℕ) → All IsDigit (replicate k b'0')
All-replicate zero = tt
All-replicate (suc k) = (omega arith, All-replicate k)

pub padded-IsDigit : (n : ℕ) → All IsDigit (padded n)
unfolding padded
padded-IsDigit n =
    All-append IsDigit (replicate (3 - length (decimal n)) b'0') (decimal n)
      (All-replicate (3 - length (decimal n))) (decimal-IsDigit n)

-- Below 1000 the padded text has three characters.
pub length-padded : (n : ℕ) → n < 1000 → length (padded n) ≡ 3
unfolding padded decimal
length-padded n h =
    let zeros = 3 - length (digits (suc n) n []) in
    omega (
      arith,
      length-append (replicate zeros b'0') (digits (suc n) n []),
      length-replicate {A = ℕ} zeros b'0',
      length-digits-le 2 (suc n) n [] h,
    )

-- Padding does not change the number that is read.
pub read_number-padded : (n : ℕ) → read_number (padded n) ≡ some n
unfolding padded
read_number-padded n =
    let zeros = replicate (3 - length (decimal n)) b'0' in
    read_number-scan (zeros ++ decimal n)
      (omega (arith, length-append zeros (decimal n), decimal_nonempty n))
    ∙ scan-zeros (3 - length (decimal n)) (decimal n)
    ∙ sym (read_number-scan (decimal n) (decimal_nonempty n))
    ∙ read_number-decimal n
