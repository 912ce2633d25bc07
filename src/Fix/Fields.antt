-- ===== src/Fix/Fields.antt =====
-- The fields put into a message of include/fix/message.h, and those read from its body.
use fix_feed_simulator.Prelude.{
  ℕ, suc, zero, ◌≤◌, ◌<◌, ◌≡◌, ◌≢◌, refl, sym, ap, ◌∙◌, arith, inl, inr, List, [], ◌∷◌, ◌++◌,
  append_assoc, append-nil, false, Option, some, length, All, All-append,
}
use fix_feed_simulator.Prelude.Bytes.{Bytes, pos, ◌>>=◌}
use fix_feed_simulator.Fix.Decimal.{
  decimal, to_string, decimal-IsDigit, decimal_nonempty, read_number-decimal,
}
use fix_feed_simulator.Fix.Message.{
  soh, FixMessage, create, add_field, add_fields, clear_body, finalize, framed, move_construct,
  move_assign,
}
use fix_feed_simulator.Fix.Receiver.{decode, fields, is_empty}
use fix_feed_simulator.Fix.RoundTrip.{Lacks, digits-Lacks, split_at-append, decode-finalize}

-- The text of a list of fields.
unfoldable pub encoded : List (ℕ × Bytes) → Bytes
encoded [] = []
encoded ((tag, value) ∷ rest) = (decimal tag ++ b'=' ∷ value) ++ soh ∷ encoded rest

-- No value holds the separator.
abbrev pub Separable : List (ℕ × Bytes) → Type 0
Separable = All (λ (f : ℕ × Bytes). Lacks soh f.1)

pub add_fields-body :
    (fs : List (ℕ × Bytes)) (m : FixMessage)
    → (add_fields m fs).body_buffer ≡ m.body_buffer ++ encoded fs
unfolding add_fields add_field encoded to_string
add_fields-body [] m = sym (append-nil m.body_buffer)
add_fields-body ((tag, value) ∷ rest) m =
    add_fields-body rest (add_field m (pos tag) value) ∙ simp append_assoc

pub add_fields-begin :
    (fs : List (ℕ × Bytes)) (m : FixMessage) → (add_fields m fs).begin_string ≡ m.begin_string
unfolding add_fields add_field
add_fields-begin [] m = refl
add_fields-begin ((tag, value) ∷ rest) m = add_fields-begin rest (add_field m (pos tag) value)

not_empty : (s t : Bytes) → 0 < length s → is_empty (s ++ t) ≡ false
not_empty [] t h = absurd (omega arith)
not_empty (x ∷ s) t h = refl

-- The receiver reads from a text of fields just those fields.
pub fields-encoded :
    (fs : List (ℕ × Bytes)) (fuel : ℕ)
    → length fs ≤ fuel
    → Separable fs
    → fields fuel (encoded fs) ≡ some fs
unfolding fields encoded
fields-encoded [] zero h _ = refl
fields-encoded [] (suc fuel) h _ = refl
fields-encoded (f ∷ rest) zero h _ = absurd (omega arith)
fields-encoded ((tag, value) ∷ rest) (suc fuel) h (clean, more) =
    let field = decimal tag ++ b'=' ∷ value in
    let clean_field : Lacks soh field =
      All-append (λ x. x ≢ soh) (decimal tag) (b'=' ∷ value)
        (digits-Lacks soh _ (inl (omega arith)) (decimal-IsDigit tag)) ((omega arith), clean) in
    let filled : is_empty (field ++ soh ∷ encoded rest) ≡ false =
      ap is_empty (append_assoc (decimal tag) (b'=' ∷ value) (soh ∷ encoded rest))
      ∙ not_empty (decimal tag) _ (decimal_nonempty tag) in
    rw (
      filled,
      split_at-append soh field (encoded rest) clean_field,
      split_at-append b'=' (decimal tag) value
          (digits-Lacks b'=' _ (inr (omega arith)) (decimal-IsDigit tag)),
      read_number-decimal tag,
      fields-encoded rest fuel (omega arith) more,
    )

-- What a receiver makes of a message: its begin string and its fields.
abbrev pub received : ℕ → Bytes → Option (Bytes × List (ℕ × Bytes))
received fuel msg = do
  (begin_string, body) ← decode msg
  read ← fields fuel body
  some (begin_string, read)

-- The receiver of a new builder's message gets the begin string and the fields that were added, in
-- order, and nothing else, if neither the begin string nor a value has a separator.
pub received-finalize :
    (begin_string : Bytes) (fs : List (ℕ × Bytes))
    → Lacks soh begin_string
    → Separable fs
    → received (length fs) (finalize (add_fields (create begin_string) fs)).1
      ≡ some (begin_string, fs)
received-finalize begin_string fs h clean =
    let m = add_fields (create begin_string) fs in
    let same = add_fields-begin fs (create begin_string) in
    rw (
      decode-finalize m (rw same h),
      same,
      add_fields-body fs (create begin_string),
      fields-encoded fs (length fs) (omega arith) clean,
    )

-- What is built depends on the begin string and the body alone.
finalize_same :
    (m n : FixMessage)
    → m.begin_string ≡ n.begin_string
    → m.body_buffer ≡ n.body_buffer
    → (finalize m).1 ≡ (finalize n).1
unfolding finalize framed
finalize_same m n e f = cc

-- A builder that is cleared and filled again gives the same bytes as a new one: nothing of the
-- message before is left.
pub finalize-clear_body :
    (m : FixMessage) (fs : List (ℕ × Bytes))
    → (finalize (add_fields (clear_body m) fs)).1
      ≡ (finalize (add_fields (create m.begin_string) fs)).1
unfolding clear_body
finalize-clear_body m fs =
    let fresh = create m.begin_string in
    finalize_same (add_fields (clear_body m) fs) (add_fields fresh fs)
      (add_fields-begin fs (clear_body m) ∙ sym (add_fields-begin fs fresh))
      (add_fields-body fs (clear_body m) ∙ sym (add_fields-body fs fresh))

add_fields-append :
    (m : FixMessage) (fs gs : List (ℕ × Bytes))
    → add_fields (add_fields m fs) gs ≡ add_fields m (fs ++ gs)
unfolding add_fields
add_fields-append m [] gs = refl
add_fields-append m ((tag, value) ∷ fs) gs = add_fields-append (add_field m (pos tag) value) fs gs

-- A builder that is moved half way, by construction or by assignment, gives the message of one that
-- stays; the object that it was moved from plays no part.
pub finalize-move_construct :
    (begin_string left : Bytes) (old rest : FixMessage) (fs gs : List (ℕ × Bytes))
    → let half = add_fields (create begin_string) fs in
      let whole = (finalize (add_fields (create begin_string) (fs ++ gs))).1 in
      ((finalize (add_fields (move_construct left half).0 gs)).1 ≡ whole)
      × ((finalize (add_fields (move_assign rest old half).0 gs)).1 ≡ whole)
unfolding move_construct move_assign
finalize-move_construct begin_string left old rest fs gs =
    let same = ap (λ m. (finalize m).1) (add_fields-append (create begin_string) fs gs) in
    (same, same)
