-- ===== src/Market/NonBlocking/Span.antt =====
-- The span that the consumer of include/market/market_data_system_rw_nonblocking.h sends from.
use fix_feed_simulator.Prelude.{
  ℕ, ◌≡◌, refl, subst, ◌⊎◌, inl, inr, Bool, true, false, if◌then◌else◌,
}
use fix_feed_simulator.Prelude.Bytes.{Bytes}
use fix_feed_simulator.Fix.Message.{FixMessage, finalize}
use fix_feed_simulator.Market.Double.{Double}
use fix_feed_simulator.Market.Tick.{MarketTick}
use fix_feed_simulator.Market.Snapshot.{encode}
use fix_feed_simulator.Market.NonBlocking.{
  System, Step, produce, produce_end, push_ok, push_refused, push_again, push_abandon,
  count_generated, consume, consume_end, pop_refused, pop_ok, send_test, send_stopped, send_throws,
  send_returns, count_sent, watch, watch_end, wait_over, wait_stopped, take_generated, take_sent,
  stop, start, Reach, here, later, Consumer,
}

-- The consumer sends from a span over the builder's buffer: at the test of the sending loop and at
-- `send` the buffer holds the message.
abbrev pub SpanOk : Bytes → Consumer → Type 0
SpanOk buffer (Consumer.retrying message) = buffer ≡ message
SpanOk buffer (Consumer.sending message) = buffer ≡ message
SpanOk buffer Consumer.looping = Unit
SpanOk buffer Consumer.polling = Unit
SpanOk buffer Consumer.counting = Unit
SpanOk buffer Consumer.finished = Unit

pub span_at :
    (buffer : Bytes) (c : Consumer) {c' : Consumer} → c' ≡ c → SpanOk buffer c' → SpanOk buffer c
span_at buffer c at ok = subst (SpanOk buffer) at ok

-- The span that `finalize` returns.
pub made_SpanOk {ℓ} :
    {F : Type ℓ} (d : Double F) (has_sender : Bool) (builder : FixMessage) (tick : MarketTick F)
    → SpanOk
        (encode d builder tick).0.final_message_buffer
        (if has_sender then Consumer.retrying (encode d builder tick).1 else Consumer.looping)
unfolding encode finalize
made_SpanOk d true builder tick = refl
made_SpanOk d false builder tick = tt

module _ {ℓ} {F : Type ℓ} (d : Double F) (rand_max : ℕ) where
  abbrev SpanOf : System F → Type 0
  SpanOf s = SpanOk s.builder.final_message_buffer s.consumer

  Step-SpanOk : {s t : System F} → Step d rand_max s t → SpanOf s → SpanOf t
  Step-SpanOk (produce z rand₁ rand₂ at go) ok = ok
  Step-SpanOk (produce_end at go) ok = ok
  Step-SpanOk (push_ok tick at room) ok = ok
  Step-SpanOk (push_refused tick at) ok = ok
  Step-SpanOk (push_again tick at go) ok = ok
  Step-SpanOk (push_abandon tick at go) ok = ok
  Step-SpanOk (count_generated at) ok = ok
  Step-SpanOk (consume at go) ok = tt
  Step-SpanOk (consume_end at go) ok = tt
  Step-SpanOk (pop_refused at) ok = tt
  Step-SpanOk {s} (pop_ok tick rest at front) ok = made_SpanOk d s.has_sender s.builder tick
  Step-SpanOk {s} (send_test message at go) ok =
      span_at s.builder.final_message_buffer (Consumer.retrying message) at ok
  Step-SpanOk (send_stopped message at go) ok = tt
  Step-SpanOk {s} (send_throws message answer at e) ok =
      span_at s.builder.final_message_buffer (Consumer.sending message) at ok
  Step-SpanOk (send_returns message answer outcome at e ne) ok = tt
  Step-SpanOk (count_sent at) ok = tt
  Step-SpanOk (watch at go) ok = ok
  Step-SpanOk (watch_end at go) ok = ok
  Step-SpanOk (wait_over at go) ok = ok
  Step-SpanOk (wait_stopped at go) ok = ok
  Step-SpanOk (take_generated at) ok = ok
  Step-SpanOk (take_sent at) ok = ok
  Step-SpanOk (stop go) ok = ok

  Reach-SpanOk : {has_sender : Bool} {s : System F} → Reach d rand_max has_sender s → SpanOf s
  Reach-SpanOk here = unfold start in tt
  Reach-SpanOk (later r st) = Step-SpanOk st (Reach-SpanOk r)

  -- In every reachable state, from the test of the sending loop to the end of `send`, also after
  -- failures, the span that the consumer sends from is valid: the builder's buffer, which `finalize`
  -- gave it a view of, still holds the message that was built.
  pub span_valid :
      {has_sender : Bool} {s : System F} (message : Bytes)
      → Reach d rand_max has_sender s
      → (s.consumer ≡ Consumer.retrying message) ⊎ (s.consumer ≡ Consumer.sending message)
      → s.builder.final_message_buffer ≡ message
  span_valid {s = s} message r (inl at) =
      span_at s.builder.final_message_buffer (Consumer.retrying message) at (Reach-SpanOk r)
  span_valid {s = s} message r (inr at) =
      span_at s.builder.final_message_buffer (Consumer.sending message) at (Reach-SpanOk r)
