-- ===== src/Gomoku/Minimax.antt =====
-- `AiGame::minimax`: depth-limited search with pruning, on one board that is written and restored
-- in place. `std::sort` is a parameter; its comparison writes the board and restores it, which
-- changes nothing (`Laws.put_undo`), so the comparison is a function of the two positions.
pub mod Bound
pub mod Pruning
use workplace.Common.{Bool, List, [], if◌then◌else◌, ltb, not, suc, zero, ℕ, ◌↔◌, ◌∈◌, ◌∷◌}
use workplace.Common.Int.{ltb_ℤ, max_ℤ, min_ℤ, negsuc, pos, ℤ, ◌-ℤ◌}
use workplace.Gomoku.Board.{Board, Cell, Pos, ai_player, candidates, empty, human_player, put}
use workplace.Gomoku.Evaluate.{evaluate_board}

abbrev pub int_min : ℤ
int_min = negsuc 2147483647

abbrev pub int_max : ℤ
int_max = pos 2147483647

-- `std::sort(candidates.begin(), candidates.end(), less)`.
abbrev pub Sort : Type 0
Sort = (Pos → Pos → Bool) → List Pos → List Pos

-- What the code relies on: a sorted range holds the same elements as before.
abbrev pub Rearranges : Sort → Type 0
Rearranges sort =
    (less : Pos → Pos → Bool) (xs : List Pos) (p : Pos) → (p ∈ sort less xs) ↔ (p ∈ xs)

-- `maximizing ? AI_PLAYER : HUMAN_PLAYER`.
abbrev pub current : Bool → Cell
current maximizing = if maximizing then ai_player else human_player

-- The value at a leaf: the difference of two scores.
unfoldable pub leaf : Board → ℤ
unfolding ◌-ℤ◌
leaf b = pos (evaluate_board b ai_player) -ℤ pos (evaluate_board b human_player)

-- The score by which a candidate is sorted.
unfoldable pub score_after : Board → Cell → Pos → ℕ
score_after b player (i, j) = evaluate_board (put b i j player) player

-- The comparison: descending for the maximizing player, ascending for the other.
abbrev pub prefers : Bool → Board → Pos → Pos → Bool
prefers maximizing b p q =
    if maximizing
    then ltb (score_after b (current maximizing) q) (score_after b (current maximizing) p)
    else ltb (score_after b (current maximizing) p) (score_after b (current maximizing) q)

abbrev pub worst : Bool → ℤ
worst maximizing = if maximizing then int_min else int_max

-- The loop over the sorted candidates. `rec` is the recursive call, which returns the score and
-- the board as it leaves it.
unfoldable pub search_loop :
    (ℤ → ℤ → Board → ℤ × Board) → Bool → List Pos → ℤ → ℤ → ℤ → Board → ℤ × Board
search_loop rec maximizing [] best alpha beta b = (best, b)
search_loop rec maximizing ((i, j) ∷ ps) best alpha beta b =
    let (score, b') = rec alpha beta (put b i j (current maximizing)) in
    let b'' = put b' i j empty in
    let best' = if maximizing then max_ℤ best score else min_ℤ best score in
    let alpha' = if maximizing then max_ℤ alpha best' else alpha in
    let beta' = if maximizing then beta else min_ℤ beta best' in
    let rest = search_loop rec maximizing ps best' alpha' beta' b'' in
    if ltb_ℤ alpha' beta' then rest else (best', b'')

-- `ended` is `isGameOver() || isDraw()`, which reads fields that the search does not write.
module _ (sort : Sort) (ended : Bool) where
  unfoldable pub minimax : ℕ → Bool → ℤ → ℤ → Board → ℤ × Board
  unfolding leaf search_loop max_ℤ min_ℤ
  minimax zero maximizing alpha beta b = (leaf b, b)
  minimax (suc depth) maximizing alpha beta b =
      let search =
        search_loop (minimax depth (not maximizing)) maximizing
          (sort (prefers maximizing b) (candidates b)) (worst maximizing) alpha beta b in
      if ended then (leaf b, b) else search

-- The value of a position by full search, with neither pruning nor sorting: what `minimax` means.
unfoldable pub best_from : Bool → (Pos → ℤ) → List Pos → ℤ → ℤ
best_from maximizing f [] best = best
best_from maximizing f (p ∷ ps) best =
    best_from maximizing f ps (if maximizing then max_ℤ best (f p) else min_ℤ best (f p))

unfoldable pub value : Bool → ℕ → Bool → Board → ℤ
unfolding best_from
value ended zero maximizing b = leaf b
value ended (suc depth) maximizing b =
    if ended
    then leaf b
    else best_from maximizing
        (λ p. value ended depth (not maximizing) (put b p.0 p.1 (current maximizing)))
        (candidates b) (worst maximizing)
