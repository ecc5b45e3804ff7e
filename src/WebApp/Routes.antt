-- ===== src/WebApp/Routes.antt =====
-- The server as `GomokuServer` sets it up: `initializeRouter` and `initializeMiddleware`,
-- HttpServer/WebAPP/Gomoku/src/GomokuServer.cpp.
use workplace.Common.{[], some}
use workplace.Common.Text.{codes}
use workplace.Http.Cors.{cors_middleware, default_config}
use workplace.Http.Middleware.{MiddlewareChain, add_middleware}
use workplace.Http.Request.{get, post}
use workplace.Http.Router.{Regexes, Router, register_callback, register_handler}
use workplace.Http.Server.{HttpServer}
use workplace.WebApp.Account.{login, logout, register}
use workplace.WebApp.Libraries.{Libraries}
use workplace.WebApp.Pages.{backend_data, entry, game_backend, menu}
use workplace.WebApp.Play.{move, restart, start_game}
use workplace.WebApp.State.{App}

module _ {X : Regexes} {L : Libraries} where
  -- `initializeRouter`, from a router without routes.
  unfoldable pub initialize_router : Router X (App L) → Router X (App L)
  unfolding register_handler register_callback
  initialize_router r =
      let r0 =
        register_handler get (codes "/entry") entry (register_handler get (codes "/") entry r) in
      let r1 = register_handler post (codes "/login") login r0 in
      let r2 = register_handler post (codes "/register") register r1 in
      let r3 = register_handler post (codes "/user/logout") logout r2 in
      let r4 = register_handler get (codes "/menu") menu r3 in
      let r5 = register_handler get (codes "/aiBot/start") start_game r4 in
      let r6 = register_handler post (codes "/aiBot/move") move r5 in
      let r7 = register_callback get (codes "/aiBot/restart") restart r6 in
      let r8 = register_handler get (codes "/backend") game_backend r7 in
      register_callback get (codes "/backend_data") backend_data r8

unfoldable pub initialize_middleware :
    {L : Libraries} → MiddlewareChain (App L) → MiddlewareChain (App L)
unfolding add_middleware
initialize_middleware = add_middleware (some (cors_middleware default_config))

abbrev pub no_routes : (X : Regexes) (W : Type 0) → Router X W
no_routes X W = record { handlers = []; callbacks = []; regex_handlers = []; regex_callbacks = [] }

-- What the constructor of `GomokuServer` leaves in `server_`.
unfoldable pub gomoku_server : (X : Regexes) (L : Libraries) → HttpServer X (App L)
unfolding initialize_router initialize_middleware
gomoku_server X L = record {
  router = initialize_router (no_routes X (App L));
  middleware_chain = initialize_middleware [];
}
