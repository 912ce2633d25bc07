-- ===== src/Market/Snapshot.antt =====
-- The message of a tick, as `consumerThread` in include/market/market_data_system_rw.h builds it
-- with include/fix/message.h, all the way to the receiver.
use fix_feed_simulator.Prelude.{ℕ, ◌≡◌, refl, ap, ◌∙◌, arith, List, [], ◌∷◌, some, inl}
use fix_feed_simulator.Prelude.Bytes.{Bytes, codes, pos}
use fix_feed_simulator.Fix.Decimal.{to_string, decimal, decimal-IsDigit}
use fix_feed_simulator.Fix.Message.{soh, FixMessage, add_field, add_fields, clear_body, finalize}
use fix_feed_simulator.Fix.RoundTrip.{Lacks, digits-Lacks}
use fix_feed_simulator.Fix.Fields.{Separable, received, received-finalize, finalize-clear_body}
use fix_feed_simulator.Market.Double.{Double}
use fix_feed_simulator.Market.Tick.{MarketTick}

module _ {ℓ} {F : Type ℓ} (d : Double F) where
  -- The builder is reused from tick to tick.
  unfoldable pub encode : FixMessage → MarketTick F → FixMessage × Bytes
  encode message tick =
      let m₁ =
        add_field
          (add_field (add_field (clear_body message) (pos 35) (codes "W")) (pos 55) tick.symbol)
          (pos 268) (codes "2") in
      let m₂ =
        add_field (add_field (add_field m₁ (pos 269) (codes "0")) (pos 270) (d.format2 tick.bid))
          (pos 271) (to_string (pos tick.bid_size)) in
      let m₃ =
        add_field (add_field (add_field m₂ (pos 269) (codes "1")) (pos 270) (d.format2 tick.ask))
          (pos 271) (to_string (pos tick.ask_size)) in
      finalize m₃

  -- What a receiver should read: a snapshot of two entries, the bid and the ask.
  unfoldable pub snapshot : MarketTick F → List (ℕ × Bytes)
  snapshot tick =
      (35, codes "W")
      ∷ (55, tick.symbol)
      ∷ (268, codes "2")
      ∷ (269, codes "0")
      ∷ (270, d.format2 tick.bid)
      ∷ (271, decimal tick.bid_size)
      ∷ (269, codes "1")
      ∷ (270, d.format2 tick.ask)
      ∷ (271, decimal tick.ask_size)
      ∷ []

  pub encode-add_fields :
      (message : FixMessage) (tick : MarketTick F)
      → (encode message tick).1 ≡ (finalize (add_fields (clear_body message) (snapshot tick))).1
  unfolding encode add_fields snapshot to_string
  encode-add_fields message tick = refl

  -- The begin string is the builder's for good.
  pub encode-begin :
      (message : FixMessage) (tick : MarketTick F)
      → (encode message tick).0.begin_string ≡ message.begin_string
  unfolding encode finalize add_field clear_body
  encode-begin message tick = refl

  snapshot-Separable :
      (tick : MarketTick F)
      → Lacks soh tick.symbol
      → ((x : F) → Lacks soh (d.format2 x))
      → Separable (snapshot tick)
  unfolding snapshot
  snapshot-Separable tick symbol_clean format_clean =
      let number =
        λ (n : ℕ). digits-Lacks soh (decimal n) (inl (omega arith)) (decimal-IsDigit n) in
      let entry = λ (x : F) (n : ℕ).
        let both : Lacks soh (d.format2 x) × Lacks soh (decimal n) = (format_clean x, number n) in
        both in
      let bid = entry tick.bid tick.bid_size in
      let ask = entry tick.ask tick.ask_size in
      (
        omega arith,
        (
          symbol_clean,
          (omega arith, (omega arith, (bid.0, (bid.1, (omega arith, (ask.0, (ask.1, tt))))))),
        ),
      )

  -- The receiver of the bytes that the consumer builds reads begin string and snapshot of the tick,
  -- whatever message the builder held before, if symbol and formatted prices have no separator.
  pub received-encode :
      (message : FixMessage) (tick : MarketTick F)
      → Lacks soh message.begin_string
      → Lacks soh tick.symbol
      → ((x : F) → Lacks soh (d.format2 x))
      → received 9 (encode message tick).1 ≡ some (message.begin_string, snapshot tick)
  unfolding snapshot
  received-encode message tick begin_clean symbol_clean format_clean =
      ap (received 9) (encode-add_fields message tick ∙ finalize-clear_body message (snapshot tick))
      ∙ received-finalize message.begin_string (snapshot tick) begin_clean
          (snapshot-Separable tick symbol_clean format_clean)
