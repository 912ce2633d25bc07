-- ===== src/Fix/Tests.antt =====
-- The builder at concrete inputs.
use fix_feed_simulator.Prelude.{ℕ, ◌≡◌, ◌%◌, refl, arith, List, [], ◌∷◌, ◌++◌, some, none}
use fix_feed_simulator.Prelude.Bytes.{Bytes, codes, negsuc}
use fix_feed_simulator.Fix.Decimal.{decimal, to_string, padded, read_number, read_number-decimal}
use fix_feed_simulator.Fix.Message.{
  soh, FixMessage, create, add_field, add_fields, accumulate, framed, finalize,
}
use fix_feed_simulator.Fix.Receiver.{total}
use fix_feed_simulator.Fix.RoundTrip.{accumulate-total}
use fix_feed_simulator.Fix.Fields.{received, received-finalize}

abbrev version : Bytes
version = codes "FIX.4.2"

abbrev quote : List (ℕ × Bytes)
quote = (35, codes "W") ∷ (55, codes "ESZ5") ∷ []

abbrev built : FixMessage
unfolding add_fields add_field to_string decimal
built = add_fields (create version) quote

decimals :
    (decimal 0 ≡ codes "0")
    × (decimal 1234 ≡ codes "1234")
    × (padded 21 ≡ codes "021")
    × (padded 0 ≡ codes "000")
    × (to_string (negsuc 49) ≡ codes "-50")
unfolding decimal padded to_string
decimals = (refl, refl, refl, refl, refl)

not_a_number : (read_number [] ≡ none) × (read_number (codes "1x") ≡ none)
unfolding read_number
not_a_number = (refl, refl)

finalize-quote :
    (finalize (add_fields (create version) quote)).1
    ≡ codes "8=FIX.4.2"
      ++ soh ∷ codes "9=13"
      ++ soh ∷ codes "35=W"
      ++ soh ∷ codes "55=ESZ5"
      ++ soh ∷ codes "10=198"
      ++ soh ∷ []
unfolding finalize framed accumulate add_fields add_field to_string decimal padded
finalize-quote = refl

received-finalize_example :
    received 2 (finalize (add_fields (create version) quote)).1 ≡ some (version, quote)
received-finalize_example = received-finalize version quote (omega arith) (omega arith)

accumulate-total_example : accumulate (255 ∷ 2 ∷ []) % 256 ≡ total (255 ∷ 2 ∷ []) % 256
accumulate-total_example = accumulate-total (255 ∷ 2 ∷ [])

read_number-decimal_example : read_number (decimal 4096) ≡ some 4096
read_number-decimal_example = read_number-decimal 4096
