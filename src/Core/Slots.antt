-- ===== src/Core/Slots.antt =====
-- A stretch of positions of a ring: position `h` lives in slot `h % cap` of the array.
use native.Mathlib.Nat.{suc-mod, div-add-mod, mod-lt}
use fix_feed_simulator.Prelude.{
  ℕ, suc, ◌+◌, ◌%◌, ◌≤◌, ◌<◌, ◌≡◌, ◌≢◌, sym, ap, ◌∙◌, List, [], ◌∷◌, ◌++◌, some, length, get_elem?,
  get_or, get_or_of_get_elem?, set, get_elem?-set_self, get_elem?-set_ne, arith,
}

-- Positions less than `cap` apart have different slots.
pub slot_ne : (cap h t : ℕ) → h < t → t < h + cap → h % cap ≢ t % cap
slot_ne cap h t lo hi same = grind (arith, div-add-mod h cap, div-add-mod t cap)

pub slot_next : (cap h h' : ℕ) → h % cap ≡ h' % cap → suc h % cap ≡ suc h' % cap
slot_next cap h h' e = suc-mod h cap ∙ ap (λ r. suc r % cap) e ∙ sym (suc-mod h' cap)

module _ {ℓ} {A : Type ℓ} where
  -- The slots from position `h` on hold the items of `q`, in order.
  abbrev pub Holds : List A → ℕ → ℕ → List A → Type ℓ
  Holds buf cap h [] = Unit
  Holds buf cap h (x ∷ q) = (get_elem? buf (h % cap) ≡ some x) × Holds buf cap (suc h) q

  -- Only the slots matter, not the positions.
  pub Holds-mod :
      (buf : List A) (cap h h' : ℕ) (q : List A)
      → h % cap ≡ h' % cap
      → Holds buf cap h q
      → Holds buf cap h' q
  Holds-mod buf cap h h' [] _ _ = tt
  Holds-mod buf cap h h' (x ∷ q) e (here, later) = (
    ap (get_elem? buf) (sym e) ∙ here,
    Holds-mod buf cap (suc h) (suc h') q (slot_next cap h h' e) later,
  )

  -- A write to a position past the stretch, less than a round ahead, leaves it alone.
  pub Holds-set :
      (buf : List A) (cap h t : ℕ) (v : A) (q : List A)
      → h + length q ≤ t
      → t < h + cap
      → Holds buf cap h q
      → Holds (set buf (t % cap) v) cap h q
  Holds-set buf cap h t v [] lo hi _ = tt
  Holds-set buf cap h t v (x ∷ q) lo hi (here, later) = (
    get_elem?-set_ne buf (t % cap) (h % cap) v (λ e. slot_ne cap h t (omega arith) hi (sym e))
        ∙ here,
    Holds-set buf cap (suc h) t v q (omega arith) (omega arith) later,
  )

  -- An item in the slot just past the stretch extends it.
  pub Holds-append :
      (buf : List A) (cap h : ℕ) (v : A) (q : List A)
      → Holds buf cap h q
      → get_elem? buf ((h + length q) % cap) ≡ some v
      → Holds buf cap h (q ++ v ∷ [])
  Holds-append buf cap h v [] _ e = (ap (λ t. get_elem? buf (t % cap)) (omega arith) ∙ e, tt)
  Holds-append buf cap h v (x ∷ q) (here, later) e = (
    here,
    Holds-append buf cap (suc h) v q later (ap (λ t. get_elem? buf (t % cap)) (omega arith) ∙ e),
  )

  -- Writing just past a stretch that leaves room extends it by the item.
  pub Holds-push :
      (buf : List A) (cap h : ℕ) (v : A) (q : List A)
      → cap ≤ length buf
      → length q < cap
      → Holds buf cap h q
      → Holds (set buf ((h + length q) % cap) v) cap h (q ++ v ∷ [])
  Holds-push buf cap h v q fits room held =
      let t = h + length q in
      Holds-append (set buf (t % cap) v) cap h v q
        (Holds-set buf cap h t v q (omega arith) (omega arith) held)
        (get_elem?-set_self buf (t % cap) v (omega (arith, mod-lt t {m = cap})))

  -- The first item of a stretch that is not empty can be read.
  pub Holds-first :
      (buf : List A) (cap h : ℕ) (q : List A) (d : A)
      → 0 < length q
      → Holds buf cap h q
      → get_elem? buf (h % cap) ≡ some (get_or buf (h % cap) d)
  Holds-first buf cap h [] d some_held _ = absurd (omega arith)
  Holds-first buf cap h (x ∷ q) d _ (here, _) =
      here ∙ ap some (sym (get_or_of_get_elem? buf (h % cap) d here))
