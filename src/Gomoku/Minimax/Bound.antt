-- ===== src/Gomoku/Minimax/Bound.antt =====
-- Maxima and minima over a list of positions, and the range of the values.
use workplace.Common.{Bool, List, [], arith, false, if◌then◌else◌, inl, inr, not, refl, suc, true}
use workplace.Common.{zero, ℕ, ◌↔◌, ◌∈◌, ◌∷◌, ◌≡◌, ◌⊎◌}
use workplace.Common.Int.{max_ℤ, max_ℤ-parts, min_ℤ, min_ℤ-parts, order_laws, ℤ, ◌-ℤ◌, ◌≤ℤ◌}
use workplace.Gomoku.Board.{Board, Pos, ai_player, candidates, human_player, put}
use workplace.Gomoku.Evaluate.Bounds.{evaluate_total}
use workplace.Gomoku.Minimax.{best_from, current, int_max, int_min, leaf, value, worst}

abbrev pub InRange : ℤ → Type 0
InRange v = (int_min ≤ℤ v) × (v ≤ℤ int_max)

-- A difference of two scores is an `int`.
pub leaf-InRange : (b : Board) → InRange (leaf b)
unfolding leaf ◌-ℤ◌
leaf-InRange b = ground (arith, (evaluate_total b ai_player).1, (evaluate_total b human_player).1)

-- For one player: `a` is at least as good as `b`.
abbrev pub Better : Bool → ℤ → ℤ → Type 0
Better true a b = b ≤ℤ a
Better false a b = a ≤ℤ b

abbrev pub pick : Bool → ℤ → ℤ → ℤ
pick maximizing a b = if maximizing then max_ℤ a b else min_ℤ a b

pick_bound :
    (m : Bool) (a b : ℤ)
    → Better m (pick m a b) a
      × Better m (pick m a b) b
      × (Better m a (pick m a b) ⊎ Better m b (pick m a b))
pick_bound true a b = max_ℤ-parts a b
pick_bound false a b = min_ℤ-parts a b

Better-refl : (m : Bool) (a : ℤ) → Better m a a
Better-refl true a = omega arith
Better-refl false a = omega arith

Better-trans : (m : Bool) (a b c : ℤ) → Better m a b → Better m b c → Better m a c
Better-trans true a b c h k = omega arith
Better-trans false a b c h k = omega arith

Better-antisym : (m : Bool) (a b : ℤ) → Better m a b → Better m b a → a ≡ b
Better-antisym true a b h k = omega order_laws
Better-antisym false a b h k = omega order_laws

pub best_from-start :
    (m : Bool) (f : Pos → ℤ) (ps : List Pos) (best : ℤ) → Better m (best_from m f ps best) best
unfolding best_from
best_from-start m f [] best = Better-refl m best
best_from-start m f (p ∷ ps) best =
    Better-trans m _ (pick m best (f p)) best (best_from-start m f ps (pick m best (f p)))
      (pick_bound m best (f p)).0

pub best_from-bound :
    (m : Bool) (f : Pos → ℤ) (ps : List Pos) (best : ℤ) (p : Pos)
    → p ∈ ps
    → Better m (best_from m f ps best) (f p)
unfolding best_from
best_from-bound m f [] best p h = absurd h
best_from-bound m f (q ∷ ps) best p (inl e) = rw e (
    Better-trans m _ (pick m best (f q)) (f q) (best_from-start m f ps (pick m best (f q)))
      (pick_bound m best (f q)).1)
best_from-bound m f (q ∷ ps) best p (inr h) = best_from-bound m f ps (pick m best (f q)) p h

best_from_attained :
    (m : Bool) (f : Pos → ℤ) (ps : List Pos) (best : ℤ)
    → Better m best (best_from m f ps best)
      ⊎ ((p : Pos) × (p ∈ ps) × Better m (f p) (best_from m f ps best))
unfolding best_from
best_from_attained m f [] best = inl (Better-refl m best)
best_from_attained m f (q ∷ ps) best = elim (best_from_attained m f ps (pick m best (f q))) [
  | inr (p, h, k) ↦ inr (p, inr h, k)
  | inl h ↦ elim (pick_bound m best (f q)).2 [
    | inl k ↦ inl (Better-trans m best (pick m best (f q)) _ k h)
    | inr k ↦ inr (q, inl refl, Better-trans m (f q) (pick m best (f q)) _ k h)
  ]
]

best_from-subset :
    (m : Bool) (f : Pos → ℤ) (ps qs : List Pos) (best : ℤ)
    → ((p : Pos) → p ∈ ps → p ∈ qs)
    → Better m (best_from m f qs best) (best_from m f ps best)
best_from-subset m f ps qs best h = elim (best_from_attained m f ps best) [
  | inl k ↦ Better-trans m _ best _ (best_from-start m f qs best) k
  | inr (p, l, k) ↦ Better-trans m _ (f p) _ (best_from-bound m f qs best p (h p l)) k
]

-- The best value depends on which positions are listed, and not on their order.
pub best_from-same :
    (m : Bool) (f : Pos → ℤ) (ps qs : List Pos) (best : ℤ)
    → ((p : Pos) → (p ∈ ps) ↔ (p ∈ qs))
    → best_from m f ps best ≡ best_from m f qs best
best_from-same m f ps qs best h =
    Better-antisym m _ _ (best_from-subset m f qs ps best (λ p. (h p).1))
      (best_from-subset m f ps qs best (λ p. (h p).0))

pick-InRange : (m : Bool) (a b : ℤ) → InRange a → InRange b → InRange (pick m a b)
pick-InRange true a b h k = omega order_laws
pick-InRange false a b h k = omega order_laws

best_from-InRange :
    (m : Bool) (f : Pos → ℤ) (ps : List Pos) (best : ℤ)
    → ((p : Pos) → InRange (f p))
    → InRange best
    → InRange (best_from m f ps best)
unfolding best_from
best_from-InRange m f [] best all h = h
best_from-InRange m f (p ∷ ps) best all h =
    best_from-InRange m f ps (pick m best (f p)) all (pick-InRange m best (f p) h (all p))

worst-InRange : (m : Bool) → InRange (worst m)
worst-InRange true = omega arith
worst-InRange false = omega arith

pub value-InRange :
    (ended : Bool) (depth : ℕ) (m : Bool) (b : Board) → InRange (value ended depth m b)
unfolding value
value-InRange ended zero m b = leaf-InRange b
value-InRange true (suc depth) m b = leaf-InRange b
value-InRange false (suc depth) m b =
    best_from-InRange m _ (candidates b) (worst m)
      (λ p. value-InRange false depth (not m) (put b p.0 p.1 (current m))) (worst-InRange m)
