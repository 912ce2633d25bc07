-- ===== src/Dashboard/Parser.antt =====
-- dashboard.py: `parse_fix_message`. How Python reads a number from a text is left open.
use fix_feed_simulator.Prelude.{
  List, [], ◌∷◌, Bool, false, ◌&&◌, ◌||◌, Option, none, some, if◌then◌else◌,
}
use fix_feed_simulator.Prelude.Bytes.{Bytes, codes, ℤ, pos, ◌>>=◌}
use fix_feed_simulator.Fix.Message.{soh}
use fix_feed_simulator.Fix.Receiver.{split_at}
use fix_feed_simulator.Market.Double.{Double}
use fix_feed_simulator.Dashboard.Text.{Text, decode, split, replace, same}

-- `float(text)` and `int(text)`; `none` is a `ValueError`.
pub record Reading {ℓ} (F : Type ℓ) : Type ℓ where
  pub float : Text → Option F
  pub int : Text → Option ℤ

-- The dictionary. The keys that may be missing are options.
pub record Parsed {ℓ} (F : Type ℓ) : Type ℓ where
  pub raw_message : Text
  pub bid_price : F
  pub bid_size : ℤ
  pub ask_price : F
  pub ask_size : ℤ
  pub message_type : Option Text
  pub symbol : Option Text
  pub mid_price : Option F

-- `failed` is the dictionary with the one key `error`.
pub data Outcome {ℓ} (F : Type ℓ) : Type ℓ where
  parsed : Parsed F → Outcome F
  failed : Outcome F

-- The variables of the loop.
pub record Walk {ℓ} (F : Type ℓ) : Type ℓ where
  pub current_entry_type : Option Text
  pub result : Parsed F

abbrev is_entry : Text → Option Text → Bool
is_entry kind none = false
is_entry kind (some text) = same text kind

module _ {ℓ} {F : Type ℓ} where
  set_price : Walk F → F → Walk F
  set_price w price =
      if is_entry (codes "0") w.current_entry_type
      then record w { result = record (w.result) { bid_price = price } }
      else if is_entry (codes "1") w.current_entry_type
      then record w { result = record (w.result) { ask_price = price } }
      else w

  set_size : Walk F → ℤ → Walk F
  set_size w size =
      if is_entry (codes "0") w.current_entry_type
      then record w { result = record (w.result) { bid_size = size } }
      else if is_entry (codes "1") w.current_entry_type
      then record w { result = record (w.result) { ask_size = size } }
      else w

  -- Only a price or a size of a known entry type is read as a number.
  known_entry : Walk F → Bool
  known_entry w =
      is_entry (codes "0") w.current_entry_type || is_entry (codes "1") w.current_entry_type

  read_price : Reading F → Walk F → Text → Option (Walk F)
  unfolding set_price known_entry
  read_price python w value =
      if known_entry w then python.float value >>= (λ price. some (set_price w price)) else some w

  read_size : Reading F → Walk F → Text → Option (Walk F)
  unfolding set_size known_entry
  read_size python w value =
      if known_entry w then python.int value >>= (λ size. some (set_size w size)) else some w

  unfoldable pub take_field : Reading F → Walk F → Text → Text → Option (Walk F)
  unfolding read_price read_size
  take_field python w tag value =
      if same tag (codes "35")
      then some (record w { result = record (w.result) { message_type = some value } })
      else if same tag (codes "55")
      then some (record w { result = record (w.result) { symbol = some value } })
      else if same tag (codes "269")
      then some (record w { current_entry_type = some value })
      else if same tag (codes "270")
      then read_price python w value
      else if same tag (codes "271")
      then read_size python w value
      else some w

  -- The body of the loop: a field without "=" is passed over.
  unfoldable pub visit : Reading F → Walk F → Text → Option (Walk F)
  visit python w field = elim (split_at b'=' field) [
    | none ↦ some w
    | some (tag, value) ↦ take_field python w tag value
  ]

  unfoldable pub walk : Reading F → Walk F → List Text → Option (Walk F)
  walk python w [] = some w
  walk python w (field ∷ fields) = visit python w field >>= λ w'. walk python w' fields

  -- `mid_price`, when both prices are above zero.
  unfoldable pub with_mid : Double F → Parsed F → Parsed F
  with_mid d p =
      if d.gt_zero p.bid_price && d.gt_zero p.ask_price
      then record p { mid_price = some (d.div (d.add p.bid_price p.ask_price) (d.lit 2 0)) }
      else p

  abbrev pub defaults : Double F → Text → Parsed F
  defaults d text = record {
    raw_message = replace soh b'|' text;
    bid_price = d.lit 0 0;
    bid_size = pos 0;
    ask_price = d.lit 0 0;
    ask_size = pos 0;
    message_type = none;
    symbol = none;
    mid_price = none;
  }

  abbrev finish : Double F → Option (Walk F) → Outcome F
  finish d none = failed
  finish d (some w) = parsed (with_mid d w.result)

  unfoldable pub parse_fix_message : Double F → Reading F → Bytes → Outcome F
  parse_fix_message d python raw_bytes =
      let decoded = decode raw_bytes in
      finish d (
        walk python (record { current_entry_type = none; result = defaults d decoded })
          (split soh decoded))
