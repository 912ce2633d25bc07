-- ===== src/Market/Wire.antt =====
-- What the messages that the systems of include/market/ send say to a receiver.
use fix_feed_simulator.Prelude.{
  ℕ, ◌<◌, ◌≡◌, refl, sym, ap, ◌∙◌, subst, arith, List, [], ◌∷◌, ◌++◌, some,
}
use fix_feed_simulator.Prelude.Bytes.{Bytes, codes}
use fix_feed_simulator.Fix.Message.{soh, FixMessage}
use fix_feed_simulator.Fix.RoundTrip.{Lacks}
use fix_feed_simulator.Fix.Fields.{received}
use fix_feed_simulator.Network.Sender.{SendOutcome, complete, partial, hard_error, throws}
use fix_feed_simulator.Market.Double.{Double}
use fix_feed_simulator.Market.Tick.{MarketTick, make_tick}
use fix_feed_simulator.Market.Snapshot.{encode, snapshot, received-encode}
use fix_feed_simulator.Market.NonBlocking.{wired}

-- The symbol and the sizes are those that the program gives its ticks.
abbrev pub Proper {ℓ} : {F : Type ℓ} → MarketTick F → Type 0
Proper tick = (tick.symbol ≡ codes "ESZ5") × (tick.bid_size < 150) × (tick.ask_size < 150)

module _ {ℓ} {F : Type ℓ} (d : Double F) where
  pub make_tick-Proper :
      (mid_price : F) (rand_max rand₁ rand₂ : ℕ)
      → Proper (make_tick d mid_price rand_max rand₁ rand₂)
  unfolding make_tick
  make_tick-Proper mid_price rand_max rand₁ rand₂ = (refl, omega arith, omega arith)

  -- A builder of the program makes the message of the tick.
  abbrev pub Made : Bytes → MarketTick F → Type 0
  Made message tick =
      (builder : FixMessage) × (builder.begin_string ≡ codes "FIX.4.2")
      × Proper tick
      × (message ≡ (encode d builder tick).1)

  -- The message is that of the tick, and a receiver reads it as the snapshot of the tick.
  abbrev pub Reads : Bytes → MarketTick F → Type 0
  Reads message tick =
      (received 9 message ≡ some (codes "FIX.4.2", snapshot d tick)) × Made message tick

  -- Each message is the snapshot of a tick of its own, in the order of the ticks; there may be ticks
  -- without a message.
  pub data Tells : List (MarketTick F) → List Bytes → Type ℓ where
    nothing : Tells [] []
    untold :
        {ticks : List (MarketTick F)} {wire : List Bytes} (tick : MarketTick F)
        → Tells ticks wire
        → Tells (ticks ++ tick ∷ []) wire
    told :
        {ticks : List (MarketTick F)} {wire : List Bytes} (tick : MarketTick F) (message : Bytes)
        → Tells ticks wire
        → Reads message tick
        → Tells (ticks ++ tick ∷ []) (wire ++ message ∷ [])

  -- The message under way is that of the last tick taken.
  abbrev pub Pending : List (MarketTick F) → List Bytes → Bytes → Type ℓ
  Pending popped wire message =
      (before : List (MarketTick F)) × (tick : MarketTick F) × (popped ≡ before ++ tick ∷ [])
      × Tells before wire
      × Reads message tick

  pub after_send :
      (outcome : SendOutcome) (popped : List (MarketTick F)) (wire : List Bytes) (message : Bytes)
      → Pending popped wire message
      → Tells popped (wired outcome message wire)
  after_send complete popped wire message (before, tick, e, told_before, reads) =
      subst (λ p. Tells p (wire ++ message ∷ [])) (sym e) (told tick message told_before reads)
  after_send partial popped wire message (before, tick, e, told_before, reads) =
      subst (λ p. Tells p wire) (sym e) (untold tick told_before)
  after_send hard_error popped wire message (before, tick, e, told_before, reads) =
      subst (λ p. Tells p wire) (sym e) (untold tick told_before)
  after_send throws popped wire message (before, tick, e, told_before, reads) =
      subst (λ p. Tells p wire) (sym e) (untold tick told_before)

  -- The message of a tick that was made is the snapshot of it.
  pub encode-Reads :
      (builder : FixMessage) (tick : MarketTick F)
      → ((x : F) → Lacks soh (d.format2 x))
      → builder.begin_string ≡ codes "FIX.4.2"
      → Proper tick
      → Reads (encode d builder tick).1 tick
  encode-Reads builder tick format_clean begin named = (
    received-encode d builder tick (subst (Lacks soh) (sym begin) (omega arith))
          (subst (Lacks soh) (sym named.0) (omega arith)) format_clean
        ∙ ap (λ b. some (b, snapshot d tick)) begin,
    (builder, begin, named, refl),
  )
