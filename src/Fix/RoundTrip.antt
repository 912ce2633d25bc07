-- ===== src/Fix/RoundTrip.antt =====
-- A receiver reads back what the builder of include/fix/message.h was given.
use fix_feed_simulator.Prelude.{
  ℕ, ◌+◌, ◌-◌, ◌%◌, ◌^◌, ◌<◌, ◌≡◌, ◌≢◌, refl, ap, ◌∙◌, arith, ◌⊎◌, inl, [], ◌∷◌, ◌++◌, append_assoc,
  true, some, length, length-append, take, take-append, drop-append, All, leb, ◌==◌,
}
use mathlib.Core.List.{foldl}
use fix_feed_simulator.Prelude.Bytes.{Bytes, codes, guard, ◌>>◌}
use fix_feed_simulator.Fix.Decimal.{
  decimal, padded, read_number, IsDigit, decimal-IsDigit, padded-IsDigit, length-padded,
  read_number-decimal, read_number-padded,
}
use fix_feed_simulator.Fix.Message.{soh, FixMessage, accumulate, framed, finalize}
use fix_feed_simulator.Fix.Receiver.{expect, split_at, total, decode}

abbrev pub Lacks : ℕ → Bytes → Type 0
Lacks c = All (λ x. x ≢ c)

pub digits-Lacks : (c : ℕ) (s : Bytes) → (c < b'0') ⊎ (b'9' < c) → All IsDigit s → Lacks c s
digits-Lacks c [] h _ = tt
digits-Lacks c (x ∷ s) h ((lo, hi), more) =
    ((λ e. omega (arith, lo, hi, e, h)), digits-Lacks c s h more)

expect-append : (p s : Bytes) → expect p (p ++ s) ≡ some s
unfolding expect
expect-append [] s = refl
expect-append (c ∷ p) s = ground (arith, expect-append p s)

pub split_at-append : (c : ℕ) (p s : Bytes) → Lacks c p → split_at c (p ++ c ∷ s) ≡ some (p, s)
unfolding split_at
split_at-append c [] s h = ground arith
split_at-append c (x ∷ p) s (h, more) = ground (arith, split_at-append c p s more)

accumulate-total_from :
    (s : Bytes) (a : ℕ) → foldl (λ sum b. (sum + b) % 2 ^ 32) a s % 256 ≡ (a + total s) % 256
unfolding total
accumulate-total_from [] a = omega arith
accumulate-total_from (x ∷ s) a = omega (arith, accumulate-total_from s ((a + x) % 2 ^ 32))

-- The sum that wraps has the remainder of the true sum.
pub accumulate-total : (s : Bytes) → accumulate s % 256 ≡ total s % 256
unfolding accumulate
accumulate-total s = omega (arith, accumulate-total_from s 0)

-- A message with a right frame is read as its begin string and its body, if the checksum is right.
pub decode_frame :
    (begin_string length_text body sum_text : Bytes) (msg : Bytes) (sum : ℕ)
    → let tail = codes "10=" ++ (sum_text ++ soh ∷ []) in
      msg
        ≡ codes "8="
          ++ (begin_string ++ soh ∷ (codes "9=" ++ (length_text ++ soh ∷ (body ++ tail))))
      → Lacks soh begin_string
      → Lacks soh length_text
      → read_number length_text ≡ some (length body)
      → Lacks soh sum_text
      → length sum_text ≡ 3
      → read_number sum_text ≡ some sum
      → decode msg ≡ (
          guard (sum == total (take (length msg - length tail) msg) % 256)
          >> some (begin_string, body))
unfolding decode
decode_frame begin_string length_text body sum_text msg sum e hb hl hn hs h3 hr =
    let tail = codes "10=" ++ (sum_text ++ soh ∷ []) in
    let after_length = body ++ tail in
    let after_begin = codes "9=" ++ (length_text ++ soh ∷ after_length) in
    let fits : leb (length body) (length after_length) ≡ true =
      ground (arith, length-append body tail) in
    let three : (length sum_text == 3) ≡ true = ground arith in
    rw (
      ap (expect (codes "8=")) e ∙ expect-append (codes "8=") (begin_string ++ soh ∷ after_begin),
      split_at-append soh begin_string after_begin hb,
      expect-append (codes "9=") (length_text ++ soh ∷ after_length),
      split_at-append soh length_text after_length hl,
      hn,
      fits,
      drop-append body tail,
      take-append body tail,
      expect-append (codes "10=") (sum_text ++ soh ∷ []),
      split_at-append soh sum_text [] hs,
      three,
      hr,
    )

-- The frame of a built message, laid out from the left.
pub framed_lem :
    (m : FixMessage) (tail : Bytes)
    → framed m ++ tail
      ≡ codes "8="
        ++ (m.begin_string
            ++ soh
              ∷ (codes "9=" ++ (decimal (length m.body_buffer) ++ soh ∷ (m.body_buffer ++ tail))))
unfolding framed
framed_lem m tail = simp append_assoc

-- What is sent as the trailer of a message.
abbrev pub trailer : FixMessage → Bytes
trailer m = codes "10=" ++ (padded (accumulate (framed m) % 256) ++ soh ∷ [])

-- A message with the frame and the body of one builder and the trailer of another, whose checksum is
-- then compared.
pub decode-trailer :
    (m n : FixMessage)
    → Lacks soh m.begin_string
    → decode (framed m ++ trailer n) ≡ (
        guard (accumulate (framed n) % 256 == total (framed m) % 256)
        >> some (m.begin_string, m.body_buffer))
decode-trailer m n h =
    let sum = accumulate (framed n) % 256 in
    let tail = trailer n in
    let front : take (length (framed m ++ tail) - length tail) (framed m ++ tail) ≡ framed m =
      ap (λ n. take n (framed m ++ tail)) (omega (arith, length-append (framed m) tail))
      ∙ take-append (framed m) tail in
    decode_frame m.begin_string (decimal (length m.body_buffer)) m.body_buffer (padded sum)
      (framed m ++ tail) sum (framed_lem m tail) h
      (digits-Lacks soh _ (inl (omega arith)) (decimal-IsDigit (length m.body_buffer)))
      (read_number-decimal (length m.body_buffer))
      (digits-Lacks soh _ (inl (omega arith)) (padded-IsDigit sum))
      (length-padded sum (omega arith)) (read_number-padded sum)
    ∙ ap (λ l. guard (sum == total l % 256) >> some (m.begin_string, m.body_buffer)) front

-- Every message that `finalize` builds is read back by the receiver: the length and the checksum
-- are right, and the begin string and the body come out as they went in, if the begin string has no
-- separator. The body may hold any bytes.
pub decode-finalize :
    (m : FixMessage)
    → Lacks soh m.begin_string
    → decode (finalize m).1 ≡ some (m.begin_string, m.body_buffer)
unfolding finalize
decode-finalize m h =
    let same : (accumulate (framed m) % 256 == total (framed m) % 256) ≡ true =
      ground (arith, accumulate-total (framed m)) in
    decode-trailer m m h ∙ rw same refl

pub finalize-ne-nil : (m : FixMessage) → (finalize m).1 ≢ []
unfolding finalize framed
finalize-ne-nil m e = cc
