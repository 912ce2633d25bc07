-- ===== src/Dashboard/Text.antt =====
-- Python's texts, as dashboard.py uses them: the code points of a text, `bytes.decode`, `str.split`
-- and comparison.
use fix_feed_simulator.Prelude.{
  ℕ, zero, suc, ◌+◌, ◌-◌, ◌*◌, ◌<◌, ◌≡◌, refl, arith, List, [], ◌∷◌, ◌++◌, Bool, true, false, ◌&&◌,
  ◌||◌, All, Option, none, some, length, drop, leb, ltb, ◌==◌, if◌then◌else◌,
}
use fix_feed_simulator.Prelude.Bytes.{Bytes}
use fix_feed_simulator.Fix.RoundTrip.{Lacks}

abbrev pub Text : Type 0
Text = List ℕ

abbrev between : ℕ → ℕ → ℕ → Bool
between lo hi b = leb lo b && leb b hi

abbrev continues : ℕ → Bool
continues = between 0x80 0xbf

-- A code point that starts with byte `b` of 128 or more, and how many more bytes it takes; `none` if
-- none is well formed.
abbrev two_bytes : ℕ → Bytes → Option (ℕ × ℕ)
two_bytes b (c ∷ s) =
    if between 0xc2 0xdf b && continues c then some ((b - 0xc0) * 64 + (c - 0x80), 1) else none
two_bytes b [] = none

-- No longer form than needed, and no surrogate.
abbrev second_of_three : ℕ → ℕ → Bool
second_of_three b c =
    (b == 0xe0 && between 0xa0 0xbf c)
    || (b == 0xed && between 0x80 0x9f c)
    || ((between 0xe1 0xec b || between 0xee 0xef b) && continues c)

abbrev three_bytes : ℕ → Bytes → Option (ℕ × ℕ)
three_bytes b (c ∷ d ∷ s) =
    if second_of_three b c && continues d
    then some ((b - 0xe0) * 4096 + (c - 0x80) * 64 + (d - 0x80), 2)
    else none
three_bytes b _ = none

-- Up to U+10FFFF.
abbrev second_of_four : ℕ → ℕ → Bool
second_of_four b c =
    (b == 0xf0 && between 0x90 0xbf c)
    || (b == 0xf4 && between 0x80 0x8f c)
    || (between 0xf1 0xf3 b && continues c)

abbrev four_bytes : ℕ → Bytes → Option (ℕ × ℕ)
four_bytes b (c ∷ d ∷ e ∷ s) =
    if second_of_four b c && continues d && continues e
    then some ((b - 0xf0) * 262144 + (c - 0x80) * 4096 + (d - 0x80) * 64 + (e - 0x80), 3)
    else none
four_bytes b _ = none

abbrev or_else {ℓ} : {A : Type ℓ} → Option A → Option A → Option A
or_else (some a) o = some a
or_else none o = o

abbrev ignoring : Option (ℕ × ℕ) → Text × ℕ
ignoring (some (point, more)) = (point ∷ [], more)
ignoring none = ([], 0)

-- What a byte gives, and how many of the bytes behind it belong to it.
first_of : ℕ → Bytes → Text × ℕ
first_of b s =
    if ltb b 128
    then (b ∷ [], 0)
    else ignoring (or_else (two_bytes b s) (or_else (three_bytes b s) (four_bytes b s)))

decode_from : ℕ → Bytes → Text
unfolding first_of
decode_from k [] = []
decode_from (suc k) (b ∷ s) = decode_from k s
decode_from zero (b ∷ s) = let (points, more) = first_of b s in points ++ decode_from more s

-- `raw.decode("utf-8", errors="ignore")`. A byte that starts nothing well formed is left out; so are
-- those behind it that would continue it, since they start nothing either.
unfoldable pub decode : Bytes → Text
unfolding decode_from
decode = decode_from 0

-- `text.split(c)` for one character: always at least one part.
abbrev pub prepend : ℕ → List Text → List Text
prepend x [] = (x ∷ []) ∷ []
prepend x (part ∷ parts) = (x ∷ part) ∷ parts

unfoldable pub split : ℕ → Text → List Text
split c [] = [] ∷ []
split c (x ∷ s) = let rest = split c s in if x == c then [] ∷ rest else prepend x rest

-- `text.replace(c, d)` for single characters.
unfoldable pub replace : ℕ → ℕ → Text → Text
replace c d [] = []
replace c d (x ∷ s) = (if x == c then d else x) ∷ replace c d s

unfoldable pub same : Text → Text → Bool
same [] [] = true
same (x ∷ s) (y ∷ t) = x == y && same s t
same _ _ = false

-- `deque.append` with a `maxlen`: the oldest go.
unfoldable pub append_bounded {ℓ} : {A : Type ℓ} → ℕ → List A → A → List A
append_bounded maxlen q x = let longer = q ++ x ∷ [] in drop (length longer - maxlen) longer

abbrev pub IsAscii : Bytes → Type 0
IsAscii = All (λ b. b < 128)

-- ASCII is decoded as it is.
pub decode_ascii : (s : Bytes) → IsAscii s → decode s ≡ s
unfolding decode decode_from first_of
decode_ascii [] h = refl
decode_ascii (b ∷ s) (small, more) = ground (arith, decode_ascii s more)

-- The parts of a text that is made of parts with a separator behind each.
pub split_part : (c : ℕ) (part s : Text) → Lacks c part → split c (part ++ c ∷ s) ≡ part ∷ split c s
unfolding split
split_part c [] s h = ground arith
split_part c (x ∷ part) s (ne, more) = ground (arith, split_part c part s more)
