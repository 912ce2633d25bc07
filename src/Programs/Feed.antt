-- ===== src/Programs/Feed.antt =====
-- Producer and analyzer together: what src/analyzer_main.cpp shows of the messages of
-- the systems of include/market/, over a network that may lose, double and reorder datagrams.
pub mod Sent
mod Tests
use fix_feed_simulator.Prelude.{
  ℕ, ◌%◌, ◌*◌, ◌≡◌, ◌≢◌, refl, subst, ap, sym, ◌∙◌, arith, List, [], ◌∷◌, ◌++◌, Bool, inl, inr,
  some, none, length, All,
}
use mathlib.Core.List.Memᴰ
use mathlib.Core.List.{Memᴰ}
use fix_feed_simulator.Prelude.Bytes.{Bytes}
use fix_feed_simulator.Fix.Message.{soh}
use fix_feed_simulator.Fix.RoundTrip.{Lacks}
use fix_feed_simulator.Fix.Fields.{received}
use fix_feed_simulator.Fix.Receiver.{decode, expect}
use fix_feed_simulator.Network.Capturer.{Answers}
use fix_feed_simulator.Market.Double.{Double}
use fix_feed_simulator.Market.Tick.{MarketTick}
use fix_feed_simulator.Market.Wire.{Reads, Tells, nothing, untold, told}
use fix_feed_simulator.Programs.Sources.{Emitted, Emitted-Tells}
use fix_feed_simulator.Programs.Analyzer.{
  Frame, IsOpen, IsWhole, captured, shown, greeting, capture_line, main, analyzer_shows,
}

-- A frame with the headers that its first byte of the IP header speaks of.
abbrev pub HasHeaders : Frame → Type 0
HasHeaders f =
    (length f.eth ≡ 14) × (length (f.first ∷ f.ip) ≡ f.first % 16 * 4) × (length f.udp ≡ 8)

-- Every frame carries one of the messages, whichever.
abbrev pub Carries : List Bytes → Frame → Type 0
Carries wire f = HasHeaders f × Memᴰ f.payload wire

module _ {ℓ} {F : Type ℓ} (d : Double F) where
  -- A message that is the snapshot of one of the ticks.
  abbrev pub Snapshot : List (MarketTick F) → Bytes → Type ℓ
  Snapshot ticks message = (tick : MarketTick F) × Memᴰ tick ticks × Reads d message tick

  more_ticks :
      (ticks : List (MarketTick F)) (tick : MarketTick F) (message : Bytes)
      → Snapshot ticks message
      → Snapshot (ticks ++ tick ∷ []) message
  more_ticks ticks tick message (t, mem, reads) = (t, Memᴰ.append_left (tick ∷ []) mem, reads)

  pub Tells-Snapshot :
      {ticks : List (MarketTick F)} {wire : List Bytes} (message : Bytes)
      → Tells d ticks wire
      → Memᴰ message wire
      → Snapshot ticks message
  Tells-Snapshot message nothing mem = absurd (Memᴰ.not-nil mem)
  Tells-Snapshot message (untold {ticks} {wire} tick before) mem =
      more_ticks ticks tick message (Tells-Snapshot message before mem)
  Tells-Snapshot message (told {ticks} {wire} tick m before reads) mem =
      elim (Memᴰ.append_cases wire mem) [
        | inl earlier ↦ more_ticks ticks tick message (Tells-Snapshot message before earlier)
        | inr last ↦ (
          tick,
          Memᴰ.append_right ticks (Memᴰ.head refl),
          subst (λ b. Reads d b tick) (sym (Memᴰ.eq_of_singleton last)) reads,
        )
      ]

  Reads-ne-nil : (message : Bytes) (tick : MarketTick F) → Reads d message tick → message ≢ []
  Reads-ne-nil message tick reads e =
      let empty : received 9 [] ≡ none = unfold decode expect in refl in
      let both = sym empty ∙ ap (received 9) (sym e) ∙ reads.0 in cc

  -- What is shown of frames that carry messages of the wire.
  frames_ok :
      {ticks : List (MarketTick F)} {wire : List Bytes} (fs : List Frame)
      → Tells d ticks wire
      → All (Carries wire) fs
      → All IsWhole fs × All (λ f. Snapshot ticks f.payload) fs
  frames_ok [] tells carried = (tt, tt)
  frames_ok (f ∷ fs) tells (((he, hi, hu), mem), others) =
      let (whole, snapshots) = frames_ok fs tells others in
      let (tick, tick_mem, reads) = Tells-Snapshot f.payload tells mem in
      (
        ((he, hi, hu, Reads-ne-nil f.payload tick reads), whole),
        ((tick, tick_mem, reads), snapshots),
      )

  -- From the price to the analyzer's screen: in every reachable state of any of the four systems,
  -- if the frames captured carry messages that are on its wire, whichever, in whatever order and
  -- however often, then the analyzer, once libpcap has opened the device, prints for each frame the
  -- size of its message and the message, and each of these is the message that a builder makes of a
  -- tick that the system has taken from its ring, and is read by a receiver as the snapshot of that
  -- tick; if the text of a price has no separator.
  pub feed_shown :
      (format_clean : (x : F) → Lacks soh (d.format2 x)) (rand_max : ℕ)
      {ticks : List (MarketTick F)} {wire : List Bytes} (a : Answers) (fs : List Frame)
      → Emitted d rand_max ticks wire
      → IsOpen a
      → All (Carries wire) fs
      → (main a (captured fs)
          ≡ some (record { lines = greeting ++ capture_line ∷ shown fs; status = 0 }))
        × All (λ f. Snapshot ticks f.payload) fs
  feed_shown format_clean rand_max a fs emitted opened carried =
      let (whole, snapshots) =
        frames_ok fs (Emitted-Tells d rand_max format_clean emitted) carried in
      (analyzer_shows a fs opened whole, snapshots)
