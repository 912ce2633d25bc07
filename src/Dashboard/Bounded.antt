-- ===== src/Dashboard/Bounded.antt =====
-- Bounded queues of dashboard.py, `collections.deque` with a `maxlen`: the last elements of all that
-- were appended.
use fix_feed_simulator.Prelude.{
  ℕ, zero, suc, ◌+◌, ◌-◌, ◌≤◌, ◌≡◌, refl, sym, ap, ◌∙◌, arith, List, [], ◌∷◌, ◌++◌, length, drop,
  length-append, length-drop,
}
use fix_feed_simulator.Dashboard.Text.{append_bounded}

abbrev pub latest {ℓ} : {A : Type ℓ} → ℕ → List A → List A
latest n xs = drop (length xs - n) xs

drop-append_short {ℓ} :
    {A : Type ℓ} (k : ℕ) (xs ys : List A) → k ≤ length xs → drop k (xs ++ ys) ≡ drop k xs ++ ys
drop-append_short zero xs ys h = refl
drop-append_short (suc k) [] ys h = absurd (omega arith)
drop-append_short (suc k) (x ∷ xs) ys h = drop-append_short k xs ys (omega arith)

drop-nil {ℓ} : {A : Type ℓ} (k : ℕ) → drop {A = A} k [] ≡ []
drop-nil zero = refl
drop-nil (suc k) = refl

drop-drop {ℓ} : {A : Type ℓ} (j k : ℕ) (xs : List A) → drop j (drop k xs) ≡ drop (k + j) xs
drop-drop j zero xs = ap (λ i. drop i xs) (omega arith)
drop-drop j (suc k) [] = drop-nil j ∙ sym (drop-nil (suc k + j))
drop-drop j (suc k) (x ∷ xs) =
    let same : suc (k + j) ≡ suc k + j = omega arith in
    drop-drop j k xs ∙ ap (λ i. drop i (x ∷ xs)) same

-- Cutting after each addition gives what cutting at the end gives.
pub append_bounded-latest {ℓ} :
    {A : Type ℓ} (n : ℕ) (xs : List A) (x : A)
    → append_bounded n (latest n xs) x ≡ latest n (xs ++ x ∷ [])
unfolding append_bounded
append_bounded-latest n xs x =
    let k = length xs - n in
    let e = sym (drop-append_short k xs (x ∷ []) (omega arith)) in
    let l = length-append xs (x ∷ []) in
    let m = length-drop k (xs ++ x ∷ []) in
    ap (λ l. drop (length l - n) l) e
    ∙ drop-drop (length (drop k (xs ++ x ∷ [])) - n) k (xs ++ x ∷ [])
    ∙ ap (λ j. drop j (xs ++ x ∷ [])) (omega (arith, l, m))
