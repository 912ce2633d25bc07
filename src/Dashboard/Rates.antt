-- ===== src/Dashboard/Rates.antt =====
-- What the throughput that dashboard.py shows says of the datagrams received.
use fix_feed_simulator.Prelude.{
  ℕ, ◌+◌, ◌*◌, ◌≤◌, ◌≡◌, refl, sym, subst, ap, ◌∙◌, arith, List, [], ◌∷◌, ◌++◌, append_assoc,
  append-nil, replicate,
}
use fix_feed_simulator.Dashboard.Text.{append_bounded}
use fix_feed_simulator.Dashboard.Bounded.{latest, append_bounded-latest}
use fix_feed_simulator.Dashboard.Metrics.{
  throughput_points, At, sleeping, measured, counted, drawn, Metrics, Event, packet, price, turn,
  advance, step, run, initial,
}

-- The difference that the thread puts into the history.
abbrev told_at : At → List ℕ
told_at (measured diff) = diff ∷ []
told_at _ = []

-- A datagram that comes now is counted between the thread's two readings of the counter.
abbrev between_at : At → ℕ
between_at sleeping = 0
between_at _ = 1

abbrev pub sum : List ℕ → ℕ
sum [] = 0
sum (n ∷ ns) = n + sum ns

sum-append : (ms ns : List ℕ) → sum (ms ++ ns) ≡ sum ms + sum ns
sum-append [] ns = omega arith
sum-append (m ∷ ms) ns = omega (arith, sum-append ms ns)

abbrev pub rates : List ℕ → List ℕ
rates [] = []
rates (n ∷ ns) = n * 10 ∷ rates ns

rates-append : (ms ns : List ℕ) → rates (ms ++ ns) ≡ rates ms ++ rates ns
rates-append [] ns = refl
rates-append (m ∷ ms) ns = ap (λ l. m * 10 ∷ l) (rates-append ms ns)

-- What is told and what came between make up the counter as it was last read.
Balance : At → ℕ → ℕ → ℕ → ℕ → Type 0
Balance sleeping counter previous shown missed = (shown + missed ≡ previous) × (previous ≤ counter)
Balance (measured diff) counter previous shown missed = shown + diff + missed ≡ counter
Balance counted counter previous shown missed = shown + missed ≡ counter
Balance drawn counter previous shown missed = shown + missed ≡ counter

packet-Balance :
    (at : At) (counter previous shown missed : ℕ)
    → Balance at counter previous shown missed
    → Balance at (counter + 1) previous shown (missed + between_at at)
unfolding Balance
packet-Balance sleeping counter previous shown missed b = omega (arith, b.0, b.1)
packet-Balance (measured diff) counter previous shown missed b = omega (arith, b)
packet-Balance counted counter previous shown missed b = omega (arith, b)
packet-Balance drawn counter previous shown missed b = omega (arith, b)

module _ {ℓ} {F : Type ℓ} where
  -- All differences that a run puts into the history.
  abbrev pub told : List (Event F) → Metrics F → List ℕ
  told [] s = []
  told (packet ∷ es) s = told es (step s packet)
  told (price mid ∷ es) s = told es (step s (price mid))
  told (turn ∷ es) s = told_at s.at ++ told es (step s turn)

  -- How many datagrams come between two such readings.
  abbrev pub between : List (Event F) → Metrics F → ℕ
  between [] s = 0
  between (packet ∷ es) s = between_at s.at + between es (step s packet)
  between (price mid ∷ es) s = between es (step s (price mid))
  between (turn ∷ es) s = between es (step s turn)

  abbrev IsBalanced : Metrics F → ℕ → ℕ → Type 0
  IsBalanced s = Balance s.at s.packet_counter s.previous_packet_counter

  advance-IsBalanced :
      (at : At) (s : Metrics F) (shown missed : ℕ)
      → Balance at s.packet_counter s.previous_packet_counter shown missed
      → IsBalanced (advance at s) (shown + sum (told_at at)) missed
  unfolding advance Balance
  advance-IsBalanced sleeping s shown missed b = omega (arith, b.0, b.1)
  advance-IsBalanced (measured diff) s shown missed b = omega (arith, b)
  advance-IsBalanced counted s shown missed b = omega (arith, b)
  advance-IsBalanced drawn s shown missed b = (omega (arith, b), omega arith)

  run-IsBalanced :
      (es : List (Event F)) (s : Metrics F) (shown missed : ℕ)
      → IsBalanced s shown missed
      → IsBalanced (run es s) (shown + sum (told es s)) (missed + between es s)
  unfolding run
  run-IsBalanced [] s shown missed b =
      let same : shown ≡ shown + 0 = omega arith in
      let same' : missed ≡ missed + 0 = omega arith in
      subst (λ n. IsBalanced s n (missed + 0)) same (subst (IsBalanced s shown) same' b)
  run-IsBalanced (packet ∷ es) s shown missed b =
      let t = step s packet in
      let next : IsBalanced t shown (missed + between_at s.at) =
        unfold step in
        packet-Balance s.at s.packet_counter s.previous_packet_counter shown missed b in
      let total : missed + between_at s.at + between es t
          ≡ missed + (between_at s.at + between es t) =
        omega arith in
      subst (IsBalanced (run es t) (shown + sum (told es t))) total
        (run-IsBalanced es t shown (missed + between_at s.at) next)
  run-IsBalanced (price mid ∷ es) s shown missed b =
      run-IsBalanced es (step s (price mid)) shown missed (unfold step in b)
  run-IsBalanced (turn ∷ es) s shown missed b =
      let t = step s turn in
      let next : IsBalanced t (shown + sum (told_at s.at)) missed =
        unfold step in advance-IsBalanced s.at s shown missed b in
      let total = sum-append (told_at s.at) (told es t) in
      let total' : shown + sum (told_at s.at) + sum (told es t)
          ≡ shown + sum (told_at s.at ++ told es t) =
        omega (arith, total) in
      subst (λ n. IsBalanced (run es t) n (missed + between es t)) total'
        (run-IsBalanced es t (shown + sum (told_at s.at)) missed next)

  advance-history :
      (at : At) (s : Metrics F) (all : List ℕ)
      → s.throughput_history ≡ latest throughput_points all
      → (advance at s).throughput_history ≡ latest throughput_points (all ++ rates (told_at at))
  unfolding advance
  advance-history sleeping s all e = e ∙ ap (latest throughput_points) (sym (append-nil all))
  advance-history (measured diff) s all e =
      ap (λ l. append_bounded throughput_points l (diff * 10)) e
      ∙ append_bounded-latest throughput_points all (diff * 10)
  advance-history counted s all e = e ∙ ap (latest throughput_points) (sym (append-nil all))
  advance-history drawn s all e = e ∙ ap (latest throughput_points) (sym (append-nil all))

  run-history :
      (es : List (Event F)) (s : Metrics F) (all : List ℕ)
      → s.throughput_history ≡ latest throughput_points all
      → (run es s).throughput_history ≡ latest throughput_points (all ++ rates (told es s))
  unfolding run
  run-history [] s all e = e ∙ ap (latest throughput_points) (sym (append-nil all))
  run-history (packet ∷ es) s all e = run-history es (step s packet) all (unfold step in e)
  run-history (price mid ∷ es) s all e = run-history es (step s (price mid)) all (unfold step in e)
  run-history (turn ∷ es) s all e =
      let next = advance-history s.at s all e in
      let more = rates (told_at s.at) in
      run-history es (step s turn) (all ++ more) (unfold step in next)
      ∙ ap (latest throughput_points) (
          append_assoc all more (rates (told es (step s turn)))
          ∙ ap (λ l. all ++ l) (sym (rates-append (told_at s.at) (told es (step s turn)))))

  -- When the metrics thread sleeps, however the receiver came in between, the throughput shown is
  -- the last fifty of fifty zeros and ten times each difference told, and the datagrams that the
  -- thread is done with are the sum of the differences told and the datagrams that came between its
  -- two readings of the counter, which it never tells.
  pub told_lem :
      (hundred : F) (es : List (Event F))
      → let start = initial hundred in
        let s = run es start in
        s.at ≡ sleeping
        → (s.throughput_history
            ≡ latest throughput_points (replicate throughput_points 0 ++ rates (told es start)))
          × (sum (told es start) + between es start ≡ s.previous_packet_counter)
          × (s.previous_packet_counter ≤ s.packet_counter)
  told_lem hundred es asleep =
      let start : IsBalanced (initial hundred) 0 0 =
        unfold initial Balance in (refl, omega arith) in
      let s = run es (initial hundred) in
      let there : Balance sleeping s.packet_counter s.previous_packet_counter
          (0 + sum (told es (initial hundred))) (0 + between es (initial hundred)) =
        subst
          (λ at.
            Balance at s.packet_counter s.previous_packet_counter
              (0 + sum (told es (initial hundred))) (0 + between es (initial hundred)))
          asleep (run-IsBalanced es (initial hundred) 0 0 start) in
      (
        run-history es (initial hundred) (replicate throughput_points 0) (unfold initial in refl),
        (unfold Balance in omega (arith, there.0)),
        (unfold Balance in omega (arith, there.1)),
      )
