-- ===== src/WebApp/Own.antt =====
-- Whose games the handlers of the game change.
use workplace.Common.{Bool-cases, List, Option, ap, false, inl, inr, none, refl, some, true, ℕ, ◌∙◌}
use workplace.Common.{◌≡◌, ◌≢◌}
use workplace.Common.Int.{int_eq, ℤ}
use workplace.Common.Text.{Text}
use workplace.Gomoku.Game.{AiGame}
use workplace.Http.Request.{HttpRequest}
use workplace.Http.Response.{HttpResponse}
use workplace.Http.Server.Invariant.{Left}
use workplace.WebApp.IntMap.{find_int, find_int-erase_int, find_int-set_int, int_eq_iff}
use workplace.WebApp.Libraries.{Libraries, Tried, Tried-cases, ◌>>=◌}
use workplace.WebApp.Play.{Turn, drawn_by_ai, drawn_by_human, fresh_game, game_page, going}
use workplace.WebApp.Play.{keep_turn, move, move_request, place, refused, restart, show_page}
use workplace.WebApp.Play.{start_game, turn_of, undefined, won_by_ai, won_by_human}
use workplace.WebApp.Playing.{find_int-fresh}
use workplace.WebApp.State.{App, is_logged_in, open_session, page, user_id_at}

keep_turn-other :
    (id j : ℤ) (t : Turn) (games : List (ℤ × AiGame))
    → int_eq id j ≡ false
    → find_int j (keep_turn id t games) ≡ find_int j games
keep_turn-other id j (refused g) games e = find_int-set_int id j g games ∙ rw e refl
keep_turn-other id j (won_by_human g) games e = find_int-erase_int id j games ∙ rw e refl
keep_turn-other id j (drawn_by_human g) games e = find_int-erase_int id j games ∙ rw e refl
keep_turn-other id j (won_by_ai g) games e = find_int-erase_int id j games ∙ rw e refl
keep_turn-other id j (drawn_by_ai g) games e = find_int-erase_int id j games ∙ rw e refl
keep_turn-other id j (going g) games e = find_int-set_int id j g games ∙ rw e refl
keep_turn-other id j undefined games e = refl

abbrev both_read : Tried ℤ → Tried (ℤ × ℤ) → Tried (ℤ × ℤ × ℤ)
both_read u p = do i ← u; (k, l) ← p; inr (i, k, l)

first_of :
    (u : Tried ℤ) (p : Tried (ℤ × ℤ)) {id x y : ℤ} → both_read u p ≡ inr (id, x, y) → u ≡ inr id
first_of (inl what) p e = absurd (cc)
first_of (inr i) (inl what) e = absurd (cc)
first_of (inr i) (inr (k, l)) e = cc

module _ {L : Libraries} where
  -- The game of a user and the users that are online stay.
  abbrev pub Untouched : ℤ → App L → App L → Type 0
  Untouched j w w' =
      (find_int j w'.game_map ≡ find_int j w.game_map) × (w'.online_users ≡ w.online_users)

  -- Two users are different if the session is not that of the second one.
  other_user :
      (a : ℕ) (w : App L) (id j : ℤ)
      → user_id_at a w ≢ inr j
      → user_id_at a w ≡ inr id
      → int_eq id j ≡ false
  other_user a w id j not_own named = elim (Bool-cases (int_eq id j)) [
    | inr e ↦ e
    | inl e ↦ absurd (not_own (named ∙ ap inr ((int_eq_iff id j).0 e)))
  ]

  show_page-Left :
      (P : App L → Type 0) (html : Option Text) (req : HttpRequest) (resp : HttpResponse)
      (w : App L)
      → P w
      → Left P (show_page html req resp w)
  show_page-Left P none req resp w v = v
  show_page-Left P (some html) req resp w v = v

  move_request-user :
      (a : ℕ) (req : HttpRequest) (w : App L) {id x y : ℤ}
      → move_request a req w ≡ inr (id, x, y)
      → user_id_at a w ≡ inr id
  unfolding move_request
  move_request-user a req w e = first_of (user_id_at a w) (place L req.content) e

  start_game-Untouched :
      (req : HttpRequest) (resp : HttpResponse) (w : App L) (j : ℤ)
      → let (a, resp', w') = open_session req resp w in
        (is_logged_in a w' ≡ true → user_id_at a w' ≢ inr j)
        → Left (Untouched j w) (start_game req resp w)
  unfolding start_game open_session
  start_game-Untouched req resp w j not_own =
      let (a, resp', w') = open_session req resp w in
      elim (Bool-cases (is_logged_in a w')) [
        | inr e ↦ rw (e, start_game) (refl, refl)
        | inl e ↦ elim (Tried-cases (user_id_at a w')) [
          | inl (what, n) ↦ rw (e, n, start_game) (refl, refl)
          | inr (id, n) ↦
              let other = other_user a w' id j (not_own e) n in
              rw (e, n, start_game)
                (show_page-Left (Untouched j w) (page L.read_file game_page) req resp'
                  (fresh_game id w') (find_int-fresh id j w.game_map ∙ rw other refl, refl))
        ]
      ]

  restart-Untouched :
      (req : HttpRequest) (resp : HttpResponse) (w : App L) (j : ℤ)
      → let (a, resp', w') = open_session req resp w in
        (is_logged_in a w' ≡ true → user_id_at a w' ≢ inr j)
        → Left (Untouched j w) (restart req resp w)
  unfolding restart open_session
  restart-Untouched req resp w j not_own =
      let (a, resp', w') = open_session req resp w in
      elim (Bool-cases (is_logged_in a w')) [
        | inr e ↦ rw (e, restart) (refl, refl)
        | inl e ↦ elim (Tried-cases (user_id_at a w')) [
          | inl (what, n) ↦ rw (e, n, restart) (refl, refl)
          | inr (id, n) ↦
              let other = other_user a w' id j (not_own e) n in
              rw (e, n, restart) (find_int-fresh id j w.game_map ∙ rw other refl, refl)
        ]
      ]

  move-Untouched :
      (req : HttpRequest) (resp : HttpResponse) (w : App L) (j : ℤ)
      → let (a, resp', w') = open_session req resp w in
        (is_logged_in a w' ≡ true → user_id_at a w' ≢ inr j)
        → Left (Untouched j w) (move req resp w)
  unfolding move open_session
  move-Untouched req resp w j not_own =
      let (a, resp', w') = open_session req resp w in
      elim (Bool-cases (is_logged_in a w')) [
        | inr e ↦ rw (e, move) (refl, refl)
        | inl e ↦ elim (Tried-cases (move_request a req w')) [
          | inl (what, n) ↦ rw (e, n, move) (refl, refl)
          | inr ((id, x, y), n) ↦
              let other = other_user a w' id j (not_own e) (move_request-user a req w' n) in
              rw (e, n, move) (keep_turn-other id j (turn_of id x y w') w.game_map other, refl)
        ]
      ]

  -- However they end, also by an exception, the three handlers that start, restart and play a game
  -- change no game but that of the user who is logged in in the session of the request, and leave the
  -- users that are online as they are. Without a login they change no game.
  pub play_spares_others :
      (req : HttpRequest) (resp : HttpResponse) (w : App L) (j : ℤ)
      → let (a, resp', w') = open_session req resp w in
        (is_logged_in a w' ≡ true → user_id_at a w' ≢ inr j)
        → Left (Untouched j w) (start_game req resp w)
          × Left (Untouched j w) (restart req resp w)
          × Left (Untouched j w) (move req resp w)
  play_spares_others req resp w j not_own = (
    start_game-Untouched req resp w j not_own,
    restart-Untouched req resp w j not_own,
    move-Untouched req resp w j not_own,
  )
