-- ===== src/Fix/Message.antt =====
-- include/fix/message.h: `FIXMessage`. A byte is a number below 256; the two buffers are vectors of
-- bytes, and an insertion at the end is `++`.
use fix_feed_simulator.Prelude.{ℕ, ◌+◌, ◌%◌, ◌^◌, List, [], ◌∷◌, ◌++◌, length}
use mathlib.Core.List.{foldl}
use fix_feed_simulator.Prelude.Bytes.{Bytes, codes, ℤ, pos}
use fix_feed_simulator.Fix.Decimal.{decimal, to_string, padded}

-- Start of Heading, the separator of FIX.
abbrev pub soh : ℕ
soh = 1

pub record FixMessage : Type 0 where
  pub body_buffer : Bytes
  pub final_message_buffer : Bytes
  pub begin_string : Bytes

-- The constructor.
abbrev pub create : Bytes → FixMessage
create begin_string = record {
  body_buffer = [];
  final_message_buffer = [];
  begin_string = begin_string;
}

-- "tag=value<SOH>", behind what the body holds.
unfoldable pub add_field : FixMessage → ℤ → Bytes → FixMessage
add_field m tag value =
    let tag_str = to_string tag in
    record m { body_buffer = (((m.body_buffer ++ tag_str) ++ b'=' ∷ []) ++ value) ++ soh ∷ [] }

-- `std::accumulate` from the `int` 0, converted to `unsigned`: sums modulo 2 ^ 32.
unfoldable pub accumulate : Bytes → ℕ
accumulate = foldl (λ sum b. (sum + b) % 2 ^ 32) 0

-- Header and body, as they stand before the checksum is taken.
unfoldable pub framed : FixMessage → Bytes
framed m =
    let with_begin = (codes "8=" ++ m.begin_string) ++ soh ∷ [] in
    let with_length = with_begin ++ (codes "9=" ++ decimal (length m.body_buffer) ++ soh ∷ []) in
    with_length ++ m.body_buffer

-- The message is built anew in the second buffer, and a view of that is returned.
unfoldable pub finalize : FixMessage → FixMessage × Bytes
finalize m =
    let built = framed m in
    let check_sum = accumulate built % 256 in
    let final = built ++ (codes "10=" ++ padded check_sum ++ soh ∷ []) in
    (record m { final_message_buffer = final }, final)

unfoldable pub body_of : FixMessage → Bytes
body_of m = m.body_buffer

unfoldable pub clear_body : FixMessage → FixMessage
clear_body m = record m { body_buffer = [] }

-- The defaulted moves, as the new state of the object and that of the other one. A vector that is
-- moved from by construction is empty; what a string holds then, and what anything holds that was
-- assigned from, is not said by the standard: it is `left`.
unfoldable pub move_construct : Bytes → FixMessage → FixMessage × FixMessage
move_construct left other = (other, create left)

unfoldable pub move_assign : FixMessage → FixMessage → FixMessage → FixMessage × FixMessage
move_assign left m other = (other, left)

-- A chain of calls of `addField`, one for each field.
unfoldable pub add_fields : FixMessage → List (ℕ × Bytes) → FixMessage
add_fields m [] = m
add_fields m ((tag, value) ∷ rest) = add_fields (add_field m (pos tag) value) rest
