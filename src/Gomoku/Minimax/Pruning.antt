-- ===== src/Gomoku/Minimax/Pruning.antt =====
-- Pruning and sorting do not change the value that `minimax` returns, and it leaves the board as
-- it was.
use workplace.Common.{Bool, Bool-cases, List, [], ap, arith, false, inl, inr, not, refl, some}
use workplace.Common.{subst, suc, true, zero, ℕ, ◌∈◌, ◌∙◌, ◌∷◌, ◌≡◌, ◌⊎◌}
use workplace.Common.Int.{eq_of_parts, ltb_ℤ, ltb_ℤ→le, ltb_ℤ→lt, max_ℤ, min_ℤ, order_laws, ℤ, ◌<ℤ◌}
use workplace.Common.Int.{◌≤ℤ◌}
use workplace.Gomoku.Board.{Board, Cell, Pos, black, candidates, cell_at, empty, put, white}
use workplace.Gomoku.Board.Laws.{candidates-empty, put_undo}
use workplace.Gomoku.Minimax.{Rearranges, Sort, best_from, current, int_max, int_min, minimax}
use workplace.Gomoku.Minimax.{prefers, search_loop, value, worst}
use workplace.Gomoku.Minimax.Bound.{best_from-same, best_from-start, value-InRange}

-- `r` is the value `v` as far as the window from `alpha` to `beta` needs it: it bounds `v` from
-- above unless it reaches `beta`, and from below unless it is at most `alpha`.
abbrev pub Sound : ℤ → ℤ → ℤ → ℤ → Type 0
Sound alpha beta r v = ((beta ≤ℤ r) ⊎ (v ≤ℤ r)) × ((r ≤ℤ alpha) ⊎ (r ≤ℤ v))

-- What the loop keeps for the maximizing player: `a` is the larger of the first `alpha` and the
-- best score, and `best` stands for the value `v` so far.
record MaxInv (alpha a beta best v : ℤ) : Type 0 where
  raised : alpha ≤ℤ a
  covers : best ≤ℤ a
  tight : (a ≤ℤ alpha) ⊎ (a ≤ℤ best)
  sound : Sound alpha beta best v

MaxInv-step :
    (alpha a beta best v s w : ℤ)
    → MaxInv alpha a beta best v
    → a <ℤ beta
    → Sound a beta s w
    → MaxInv alpha (max_ℤ a (max_ℤ best s)) beta (max_ℤ best s) (max_ℤ v w)
MaxInv-step alpha a beta best v s w i open_window h = record {
  raised = omega order_laws;
  covers = omega order_laws;
  tight = omega order_laws;
  sound = (omega order_laws, omega order_laws);
}

-- After a cut the rest of the candidates may be anything.
MaxInv-stop :
    (alpha a beta best v w : ℤ)
    → MaxInv alpha a beta best v
    → alpha <ℤ beta
    → beta ≤ℤ a
    → v ≤ℤ w
    → Sound alpha beta best w
MaxInv-stop alpha a beta best v w i l h k = (omega arith, omega arith)

record MinInv (beta b alpha best v : ℤ) : Type 0 where
  lowered : b ≤ℤ beta
  covers : b ≤ℤ best
  tight : (beta ≤ℤ b) ⊎ (best ≤ℤ b)
  sound : Sound alpha beta best v

MinInv-step :
    (beta b alpha best v s w : ℤ)
    → MinInv beta b alpha best v
    → alpha <ℤ b
    → Sound alpha b s w
    → MinInv beta (min_ℤ b (min_ℤ best s)) alpha (min_ℤ best s) (min_ℤ v w)
MinInv-step beta b alpha best v s w i open_window h = record {
  lowered = omega order_laws;
  covers = omega order_laws;
  tight = omega order_laws;
  sound = (omega order_laws, omega order_laws);
}

MinInv-stop :
    (beta b alpha best v w : ℤ)
    → MinInv beta b alpha best v
    → alpha <ℤ beta
    → b ≤ℤ alpha
    → w ≤ℤ v
    → Sound alpha beta best w
MinInv-stop beta b alpha best v w i l h k = (omega arith, omega arith)

-- A search that restores the board and is sound in every open window.
abbrev Good : (ℤ → ℤ → Board → ℤ × Board) → (Board → ℤ) → Type 0
Good rec v =
    (alpha beta : ℤ) (b : Board)
    → int_min ≤ℤ alpha
    → beta ≤ℤ int_max
    → alpha <ℤ beta
    → ((rec alpha beta b).1 ≡ b) × Sound alpha beta (rec alpha beta b).0 (v b)

abbrev AllEmpty : Board → List Pos → Type 0
AllEmpty b ps = (p : Pos) → p ∈ ps → cell_at b p.0 p.1 ≡ some empty

-- The stone of a child search is taken off again.
restored :
    (rec : ℤ → ℤ → Board → ℤ × Board) (alpha beta : ℤ) (b : Board) (i j : ℕ) (c : Cell)
    → (rec alpha beta (put b i j c)).1 ≡ put b i j c
    → cell_at b i j ≡ some empty
    → put (rec alpha beta (put b i j c)).1 i j empty ≡ b
restored rec alpha beta b i j c e free = ap (λ q. put q i j empty) e ∙ put_undo b i j c free

-- The value of a candidate: that of the board after the player's stone.
abbrev child_value : (Board → ℤ) → Board → Bool → Pos → ℤ
child_value v b m p = v (put b p.0 p.1 (current m))

module _ (rec : ℤ → ℤ → Board → ℤ × Board) (v : Board → ℤ) (good : Good rec v) (b : Board) where
  loop_max :
      (ps : List Pos) (alpha a beta best m : ℤ)
      → AllEmpty b ps
      → int_min ≤ℤ a
      → beta ≤ℤ int_max
      → a <ℤ beta
      → MaxInv alpha a beta best m
      → ((search_loop rec true ps best a beta b).1 ≡ b)
        × Sound alpha beta
            (search_loop rec true ps best a beta b).0
            (best_from true (child_value v b true) ps m)
  unfolding search_loop best_from
  loop_max [] alpha a beta best m free low high w i = (refl, i.sound)
  loop_max ((x, y) ∷ ps) alpha a beta best m free low high w i =
      let (same, s) = good a beta (put b x y white) low high w in
      let back = restored rec a beta b x y white same (free (x, y) (inl refl)) in
      let score = (rec a beta (put b x y white)).0 in
      let child = v (put b x y white) in
      let i' = MaxInv-step alpha a beta best m score child i w s in
      elim (Bool-cases (ltb_ℤ (max_ℤ a (max_ℤ best score)) beta)) [
        | inl go ↦
            rw (go, back)
              (loop_max ps alpha (max_ℤ a (max_ℤ best score)) beta (max_ℤ best score)
                (max_ℤ m child) (λ p h. free p (inr h)) (omega order_laws) high
                (ltb_ℤ→lt (max_ℤ a (max_ℤ best score)) beta go) i')
        | inr stop ↦
            rw (stop, back)
              (
                refl,
                MaxInv-stop alpha (max_ℤ a (max_ℤ best score)) beta (max_ℤ best score)
                    (max_ℤ m child) _ i' (omega (arith, i.raised))
                    (ltb_ℤ→le (max_ℤ a (max_ℤ best score)) beta stop)
                    (best_from-start true (child_value v b true) ps (max_ℤ m child)),
              )
      ]

  loop_min :
      (ps : List Pos) (alpha beta a best m : ℤ)
      → AllEmpty b ps
      → int_min ≤ℤ alpha
      → a ≤ℤ int_max
      → alpha <ℤ a
      → MinInv beta a alpha best m
      → ((search_loop rec false ps best alpha a b).1 ≡ b)
        × Sound alpha beta
            (search_loop rec false ps best alpha a b).0
            (best_from false (child_value v b false) ps m)
  unfolding search_loop best_from
  loop_min [] alpha beta a best m free low high w i = (refl, i.sound)
  loop_min ((x, y) ∷ ps) alpha beta a best m free low high w i =
      let (same, s) = good alpha a (put b x y black) low high w in
      let back = restored rec alpha a b x y black same (free (x, y) (inl refl)) in
      let score = (rec alpha a (put b x y black)).0 in
      let child = v (put b x y black) in
      let i' = MinInv-step beta a alpha best m score child i w s in
      elim (Bool-cases (ltb_ℤ alpha (min_ℤ a (min_ℤ best score)))) [
        | inl go ↦
            rw (go, back)
              (loop_min ps alpha beta (min_ℤ a (min_ℤ best score)) (min_ℤ best score)
                (min_ℤ m child) (λ p h. free p (inr h)) low (omega order_laws)
                (ltb_ℤ→lt alpha (min_ℤ a (min_ℤ best score)) go) i')
        | inr stop ↦
            rw (stop, back)
              (
                refl,
                MinInv-stop beta (min_ℤ a (min_ℤ best score)) alpha (min_ℤ best score)
                    (min_ℤ m child) _ i' (omega (arith, i.lowered))
                    (ltb_ℤ→le alpha (min_ℤ a (min_ℤ best score)) stop)
                    (best_from-start false (child_value v b false) ps (min_ℤ m child)),
              )
      ]

  loop-Sound :
      (m : Bool) (ps : List Pos) (alpha beta : ℤ)
      → AllEmpty b ps
      → int_min ≤ℤ alpha
      → beta ≤ℤ int_max
      → alpha <ℤ beta
      → ((search_loop rec m ps (worst m) alpha beta b).1 ≡ b)
        × Sound alpha beta
            (search_loop rec m ps (worst m) alpha beta b).0
            (best_from m (child_value v b m) ps (worst m))
  loop-Sound true ps alpha beta free low high w =
      loop_max ps alpha alpha beta int_min int_min free low high w (record {
        raised = omega arith;
        covers = low;
        tight = inl (omega arith);
        sound = (inr (omega arith), inr (omega arith));
      })
  loop-Sound false ps alpha beta free low high w =
      loop_min ps alpha beta beta int_max int_max free low high w (record {
        lowered = omega arith;
        covers = high;
        tight = inl (omega arith);
        sound = (inr (omega arith), inr (omega arith));
      })

module _ (sort : Sort) (rearranges : Rearranges sort) where
  minimax-Good :
      (ended : Bool) (depth : ℕ) (m : Bool)
      → Good (minimax sort ended depth m) (value ended depth m)
  unfolding minimax value
  minimax-Good ended zero m alpha beta b low high w = (refl, (inr (omega arith), inr (omega arith)))
  minimax-Good true (suc depth) m alpha beta b low high w =
      (refl, (inr (omega arith), inr (omega arith)))
  minimax-Good false (suc depth) m alpha beta b low high w =
      let sorted = sort (prefers m b) (candidates b) in
      let run =
        loop-Sound (minimax sort false depth (not m)) (value false depth (not m))
          (minimax-Good false depth (not m)) b m sorted alpha beta
          (λ p h. candidates-empty b p ((rearranges (prefers m b) (candidates b) p).0 h)) low high
          w in
      (
        run.0,
        subst (Sound alpha beta (minimax sort false (suc depth) m alpha beta b).0)
            (best_from-same m (child_value (value false depth (not m)) b m) sorted (candidates b)
              (worst m) (rearranges (prefers m b) (candidates b)))
            run.1,
      )

  -- With the full window, `minimax` returns the value of full search, whatever order `std::sort`
  -- puts the candidates in and whatever it prunes, and the board that it was given, at any depth,
  -- for either player, on any board; `std::sort` is assumed to rearrange its range.
  pub minimax_lem :
      (ended : Bool) (depth : ℕ) (m : Bool) (b : Board)
      → minimax sort ended depth m int_min int_max b ≡ (value ended depth m b, b)
  minimax_lem ended depth m b =
      let (same, s) =
        minimax-Good ended depth m int_min int_max b (omega arith) (omega arith) (omega arith) in
      let r = (minimax sort ended depth m int_min int_max b).0 in
      let v = value ended depth m b in
      let range = value-InRange ended depth m b in
      let e : r ≡ v = eq_of_parts r v (omega arith) in ground (arith, e, same)
