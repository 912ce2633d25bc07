-- ===== src/Fix/Receiver.antt =====
-- How a receiver reads a FIX message: the frame of tags 8, 9 and 10, with length and checksum
-- verified, and the fields of a body. It is the independent description of
-- include/fix/message.h, written from the format of the protocol.
use fix_feed_simulator.Prelude.{
  ℕ, zero, suc, ◌+◌, ◌-◌, ◌%◌, List, [], ◌∷◌, Bool, true, false, Option, none, some, length, take,
  drop, leb, ◌==◌, if◌then◌else◌,
}
use mathlib.Core.Option
use fix_feed_simulator.Prelude.Bytes.{Bytes, codes, ◌>>=◌, ◌>>◌, guard}
use fix_feed_simulator.Fix.Decimal.{read_number}
use fix_feed_simulator.Fix.Message.{soh}

-- What follows a given beginning.
unfoldable pub expect : Bytes → Bytes → Option Bytes
expect [] s = some s
expect (c ∷ p) [] = none
expect (c ∷ p) (x ∷ s) = let rest = expect p s in if x == c then rest else none

-- The text before the first `c`, and the text behind it.
unfoldable pub split_at : ℕ → Bytes → Option (Bytes × Bytes)
split_at c [] = none
split_at c (x ∷ s) =
    let rest = split_at c s in
    if x == c then some ([], s) else Option.map (λ (before, after). (x ∷ before, after)) rest

-- The sum of the bytes, with no bound.
unfoldable pub total : Bytes → ℕ
total [] = 0
total (x ∷ s) = x + total s

abbrev pub is_empty : Bytes → Bool
is_empty [] = true
is_empty (x ∷ s) = false

-- Begin string and body of a message whose length and checksum are right.
unfoldable pub decode : Bytes → Option (Bytes × Bytes)
decode msg = do
  after_8 ← expect (codes "8=") msg
  (begin_string, after_begin) ← split_at soh after_8
  after_9 ← expect (codes "9=") after_begin
  (length_text, after_length) ← split_at soh after_9
  body_length ← read_number length_text
  guard (leb body_length (length after_length))
  let trailer = drop body_length after_length
  after_10 ← expect (codes "10=") trailer
  (sum_text, rest) ← split_at soh after_10
  guard (is_empty rest)
  guard (length sum_text == 3)
  sum ← read_number sum_text
  guard (sum == total (take (length msg - length trailer) msg) % 256)
  some (begin_string, take body_length after_length)

-- The fields of a body, each "tag=value<SOH>"; the fuel bounds their number.
unfoldable pub fields : ℕ → Bytes → Option (List (ℕ × Bytes))
fields zero s = if is_empty s then some [] else none
fields (suc fuel) s = if is_empty s then some [] else do
  (field, rest) ← split_at soh s
  (tag_text, value) ← split_at b'=' field
  tag ← read_number tag_text
  more ← fields fuel rest
  some ((tag, value) ∷ more)
