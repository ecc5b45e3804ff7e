-- ===== src/WebApp/Safe.antt =====
-- The whole server of the web application keeps the sessions in order and every game valid.
use workplace.Common.{Bool-cases, List, Option-cases, inl, inr, not, some, ◌≡◌}
use workplace.Common.Int.{ℤ}
use workplace.Common.Text.{codes}
use workplace.Gomoku.Game.{AiGame}
use workplace.Gomoku.Game.Invariant.{IsGame, new_game-IsGame}
use workplace.Gomoku.Minimax.{Rearranges}
use workplace.Http.Cors.{CorsConfig, contains, cors_after, cors_before, cors_middleware}
use workplace.Http.Cors.{default_config, is_nil}
use workplace.Http.Middleware.{add_middleware}
use workplace.Http.Request.{HttpRequest, is_options}
use workplace.Http.Response.{HttpResponse}
use workplace.Http.Router.{Regexes, register_callback, register_handler}
use workplace.Http.Server.{handle_request}
use workplace.Http.Server.Invariant.{Keeps, KeepsAround, RouterKeeps, handle_request-keeps}
use workplace.Http.Server.Invariant.{set_key-KeyedKeep}
use workplace.WebApp.IntMap.{find_int}
use workplace.WebApp.Invariant.{AllGames, IsApp, backend_data-Keeps, entry-Keeps}
use workplace.WebApp.Invariant.{erase_int-AllGames, game_backend-Keeps, login-Keeps, logout-Keeps}
use workplace.WebApp.Invariant.{menu-Keeps, open_session-IsApp, register-Keeps, restart-Keeps}
use workplace.WebApp.Invariant.{set_int-AllGames, start_game-Keeps}
use workplace.WebApp.Libraries.{Libraries, Tried-cases}
use workplace.WebApp.Play.{Turn, game_of, keep_turn, move, move_request}
use workplace.WebApp.Routes.{gomoku_server, initialize_middleware, initialize_router, no_routes}
use workplace.WebApp.State.{App, is_logged_in, open_session}
use workplace.WebApp.Turns.{Ends, ai_draws, ai_wins, goes_on, human_draws, human_wins, illegal}
use workplace.WebApp.Turns.{take_turn-Ends}

keep_turn-AllGames :
    {g : AiGame} {x y : ℤ} {t : Turn} (id : ℤ) (games : List (ℤ × AiGame))
    → IsGame g
    → Ends g x y t
    → AllGames games
    → AllGames (keep_turn id t games)
keep_turn-AllGames {g} id games v (illegal h) all = set_int-AllGames id g games v all
keep_turn-AllGames id games v (human_wins one e) all = erase_int-AllGames id games all
keep_turn-AllGames id games v (human_draws one e f) all = erase_int-AllGames id games all
keep_turn-AllGames id games v (ai_wins two e) all = erase_int-AllGames id games all
keep_turn-AllGames id games v (ai_draws two e f) all = erase_int-AllGames id games all
keep_turn-AllGames id games v (goes_on two e f) all = set_int-AllGames id _ games two.valid all

module _ {L : Libraries} (rearranges : Rearranges L.sort) where
  pub game_of-IsGame : (id : ℤ) (w : App L) → IsApp w → IsGame (game_of id w)
  unfolding game_of
  game_of-IsGame id w v = elim (Option-cases (find_int id w.game_map)) [
    | inl e ↦ rw (e, game_of) (new_game-IsGame id)
    | inr (g, e) ↦ rw (e, game_of) (v.games id g e)
  ]

  move-Keeps : Keeps (IsApp {L = L}) move
  unfolding move
  move-Keeps req resp w v =
      let (a, resp', w') = open_session req resp w in
      let v' = open_session-IsApp req resp w v in
      elim (Bool-cases (not (is_logged_in a w'))) [
        | inl e ↦ rw (e, move) v'
        | inr e ↦ elim (Tried-cases (move_request a req w')) [
          | inl (what, n) ↦ rw (e, n, move) v'
          | inr ((id, x, y), n) ↦
              let valid = game_of-IsGame id w' v' in
              let ends =
                take_turn-Ends L.sort rearranges (L.rand w'.rands) (game_of id w') x y valid in
              rw (e, n, move)
                (record {
                  in_order = v'.in_order;
                  games = keep_turn-AllGames id w'.game_map valid ends v'.games;
                })
        ]
      ]

  cors-KeepsAround :
      (P : App L → Type 0) (config : CorsConfig) → KeepsAround P (cors_middleware config)
  unfolding cors_before cors_after
  cors-KeepsAround P config = record {
    on_before =
        λ req w p. elim (Bool-cases (is_options req.method)) [ inl e ↦ rw e p | inr e ↦ rw e p ];
    on_after = λ resp w p. elim (Bool-cases (not (is_nil config.allowed_origins))) [
      | inl e ↦ elim (Bool-cases (contains (codes "*") config.allowed_origins)) [
        | inl d ↦ rw (e, d) p
        | inr d ↦ rw (e, d) p
      ]
      | inr e ↦ rw e p
    ];
  }

  routes-RouterKeeps :
      {X : Regexes} → RouterKeeps (IsApp {L = L}) (initialize_router (no_routes X (App L)))
  unfolding initialize_router register_handler register_callback
  routes-RouterKeeps =
      let add = set_key-KeyedKeep (IsApp {L = L}) in
      record {
        by_handlers = add _ _ _ game_backend-Keeps (
            add _ _ _ move-Keeps (
              add _ _ _ start_game-Keeps (
                add _ _ _ menu-Keeps (
                  add _ _ _ logout-Keeps (
                    add _ _ _ register-Keeps (
                      add _ _ _ login-Keeps
                        (add _ _ _ entry-Keeps (add _ _ _ entry-Keeps tt))))))));
        by_callbacks = add _ _ _ backend_data-Keeps (add _ _ _ restart-Keeps tt);
        by_regex_handlers = tt;
        by_regex_callbacks = tt;
      }

  -- Whatever request the server of the web application handles, on whatever route and however the
  -- handler ends, the session storage stays in order and every game of the map stays valid. Both
  -- held before, and `std::sort` rearranges its range; requests, JSON, database, files, the clock and
  -- the random sources are arbitrary.
  pub handle_request-IsApp :
      (X : Regexes) (req : HttpRequest) (resp resp' : HttpResponse) (w w' : App L)
      → IsApp w
      → handle_request (gomoku_server X L) req resp w ≡ some (resp', w')
      → IsApp w'
  unfolding gomoku_server initialize_middleware add_middleware
  handle_request-IsApp X =
      handle_request-keeps IsApp (gomoku_server X L) (cors-KeepsAround IsApp default_config, tt)
        routes-RouterKeeps
