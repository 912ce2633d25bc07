-- ===== src/Dashboard/Layout.antt =====
-- A message of include/fix/message.h as dashboard.py takes it apart: texts with a separator behind
-- each.
use fix_feed_simulator.Prelude.{
  ℕ, ◌%◌, ◌<◌, ◌≡◌, ◌≢◌, refl, sym, ap, ◌∙◌, arith, List, [], ◌∷◌, ◌++◌, append_assoc, inl, All,
  All-append, length,
}
use fix_feed_simulator.Prelude.Bytes.{Bytes, codes}
use fix_feed_simulator.Fix.Decimal.{decimal, padded, IsDigit, decimal-IsDigit, padded-IsDigit}
use fix_feed_simulator.Fix.Message.{soh, FixMessage, accumulate, framed, finalize}
use fix_feed_simulator.Fix.RoundTrip.{Lacks, digits-Lacks, framed_lem, trailer}
use fix_feed_simulator.Fix.Fields.{encoded}
use fix_feed_simulator.Dashboard.Text.{IsAscii, split, split_part}

abbrev pub joined : List Bytes → Bytes
joined [] = []
joined (part ∷ parts) = part ++ soh ∷ joined parts

-- A text that Python takes as it is and does not split.
abbrev pub IsPart : Bytes → Type 0
IsPart part = Lacks soh part × All (λ b. b < 128) part

pub joined-append : (ps qs : List Bytes) → joined (ps ++ qs) ≡ joined ps ++ joined qs
joined-append [] qs = refl
joined-append (p ∷ ps) qs =
    ap (λ s. p ++ soh ∷ s) (joined-append ps qs)
    ∙ sym (append_assoc p (soh ∷ joined ps) (joined qs))

pub split-joined : (ps : List Bytes) → All IsPart ps → split soh (joined ps) ≡ ps ++ [] ∷ []
split-joined [] h = unfold split in refl
split-joined (p ∷ ps) ((clean, ascii), others) =
    split_part soh p (joined ps) clean ∙ ap (λ l. p ∷ l) (split-joined ps others)

pub joined-IsAscii : (ps : List Bytes) → All IsPart ps → IsAscii (joined ps)
joined-IsAscii [] h = tt
joined-IsAscii (p ∷ ps) ((clean, ascii), others) =
    All-append (λ b. b < 128) p (soh ∷ joined ps) ascii (omega arith, joined-IsAscii ps others)

abbrev pub texts : List (ℕ × Bytes) → List Bytes
texts [] = []
texts ((tag, value) ∷ fields) = (decimal tag ++ b'=' ∷ value) ∷ texts fields

encoded-joined : (fields : List (ℕ × Bytes)) → encoded fields ≡ joined (texts fields)
unfolding encoded
encoded-joined [] = refl
encoded-joined ((tag, value) ∷ fields) =
    ap (λ s. (decimal tag ++ b'=' ∷ value) ++ soh ∷ s) (encoded-joined fields)

-- Header, fields and trailer of a message, with the length and the checksum as they come out.
abbrev pub parts : Bytes → ℕ → List (ℕ × Bytes) → ℕ → List Bytes
parts begin_string n fields sum =
    (codes "8=" ++ begin_string)
    ∷ (codes "9=" ++ decimal n)
    ∷ (texts fields ++ (codes "10=" ++ padded sum) ∷ [])

pub finalize-parts :
    (m : FixMessage) (fields : List (ℕ × Bytes))
    → m.body_buffer ≡ encoded fields
    → (finalize m).1
      ≡ joined (parts m.begin_string (length m.body_buffer) fields (accumulate (framed m) % 256))
unfolding finalize
finalize-parts m fields e =
    let tail = trailer m in
    framed_lem m tail
    ∙ ap
        (λ s.
          codes "8="
          ++ (m.begin_string ++ soh ∷ (codes "9=" ++ (decimal (length m.body_buffer) ++ soh ∷ s))))
        (ap (λ s. s ++ tail) (e ∙ encoded-joined fields)
          ∙ sym (
              joined-append (texts fields)
                ((codes "10=" ++ padded (accumulate (framed m) % 256)) ∷ [])))

digits-IsAscii : (s : Bytes) → All IsDigit s → IsAscii s
digits-IsAscii [] h = tt
digits-IsAscii (x ∷ s) ((lo, hi), more) = (omega (arith, hi), digits-IsAscii s more)

pub digits-IsPart : (s : Bytes) → All IsDigit s → IsPart s
digits-IsPart s h = (digits-Lacks soh s (inl (omega arith)) h, digits-IsAscii s h)

pub IsPart-append : (s t : Bytes) → IsPart s → IsPart t → IsPart (s ++ t)
IsPart-append s t (clean, ascii) (clean', ascii') =
    (All-append (λ b. b ≢ soh) s t clean clean', All-append (λ b. b < 128) s t ascii ascii')

texts-IsPart :
    (fields : List (ℕ × Bytes))
    → All (λ (f : ℕ × Bytes). IsPart f.1) fields
    → All IsPart (texts fields)
texts-IsPart [] h = tt
texts-IsPart ((tag, value) ∷ fields) (part, others) = (
  IsPart-append (decimal tag) (b'=' ∷ value) (digits-IsPart (decimal tag) (decimal-IsDigit tag))
      ((omega arith, part.0), (omega arith, part.1)),
  texts-IsPart fields others,
)

pub parts-IsPart :
    (begin_string : Bytes) (n : ℕ) (fields : List (ℕ × Bytes)) (sum : ℕ)
    → IsPart begin_string
    → All (λ (f : ℕ × Bytes). IsPart f.1) fields
    → All IsPart (parts begin_string n fields sum)
parts-IsPart begin_string n fields sum begin values = (
  IsPart-append (codes "8=") begin_string (omega arith) begin,
  (
    IsPart-append (codes "9=") (decimal n) (omega arith)
        (digits-IsPart (decimal n) (decimal-IsDigit n)),
    All-append IsPart (texts fields) ((codes "10=" ++ padded sum) ∷ []) (texts-IsPart fields values)
        (
          IsPart-append (codes "10=") (padded sum) (omega arith)
              (digits-IsPart (padded sum) (padded-IsDigit sum)),
          tt,
        ),
  ),
)
