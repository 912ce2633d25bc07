-- ===== src/Market/Cents.antt =====
-- A concrete arithmetic for include/market/: integers for its `double`s, in hundredths.
use fix_feed_simulator.Prelude.{
  ℕ, zero, suc, ◌+◌, ◌*◌, ◌-◌, ◌/◌, ◌%◌, ltb, Bool, true, false, if◌then◌else◌, inl, arith,
}
use fix_feed_simulator.Prelude.Bytes.{ℤ, pos, negsuc}
use fix_feed_simulator.Fix.Decimal.{decimal, decimal-IsDigit}
use fix_feed_simulator.Fix.Message.{soh}
use fix_feed_simulator.Fix.RoundTrip.{Lacks, digits-Lacks}
use fix_feed_simulator.Market.Double.{Double}

abbrev minus : ℕ → ℕ → ℤ
minus a b = if ltb a b then negsuc (b - a - 1) else pos (a - b)

abbrev plus : ℤ → ℤ → ℤ
plus (pos a) (pos b) = pos (a + b)
plus (pos a) (negsuc b) = minus a (suc b)
plus (negsuc a) (pos b) = minus b (suc a)
plus (negsuc a) (negsuc b) = negsuc (suc (a + b))

abbrev negated : ℤ → ℤ
negated (pos a) = minus 0 a
negated (negsuc a) = pos (suc a)

abbrev magnitude : ℤ → ℕ
magnitude (pos a) = a
magnitude (negsuc a) = suc a

-- What of a number is printed: nine digits, so that no text is long.
abbrev pub last_digits : ℤ → ℕ
last_digits a = magnitude a % 1000000000

abbrev is_positive : ℤ → Bool
is_positive (pos a) = ltb 0 a
is_positive (negsuc a) = false

abbrev scaled : ℤ → ℤ → ℤ
scaled (pos a) b =
    if is_positive b then pos (a * magnitude b / 100) else minus 0 (a * magnitude b / 100)
scaled (negsuc a) b =
    if is_positive b then minus 0 (suc a * magnitude b / 100) else pos (suc a * magnitude b / 100)

abbrev divided : ℤ → ℤ → ℤ
divided a b = pos (magnitude a * 100 / magnitude b)

abbrev hundredths : ℕ → ℕ → ℤ
hundredths n zero = pos (n * 100)
hundredths n (suc zero) = pos (n * 10)
hundredths n (suc (suc k)) = pos n

abbrev pub cents : Double ℤ
cents = record {
  add = plus;
  sub = λ a b. plus a (negated b);
  mul = scaled;
  div = divided;
  neg = negated;
  abs = λ a. pos (magnitude a);
  exp = λ a. plus (pos 100) a;
  sqrt = λ a. a;
  round = λ a. a;
  of_int = λ n. pos (n * 100);
  lit = hundredths;
  le_zero = λ a. if is_positive a then false else true;
  gt_zero = is_positive;
  format2 = λ a. decimal (last_digits a);
}

pub cents_clean : (x : ℤ) → Lacks soh (cents.format2 x)
cents_clean x =
    digits-Lacks soh (decimal (last_digits x)) (inl (omega arith)) (decimal-IsDigit (last_digits x))
