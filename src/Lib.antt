-- ===== src/Lib.antt =====
-- A verification library for the Gomoku server of this repository: a small HTTP framework
-- (HttpServer/HTTP) and the game that runs on it (HttpServer/WebAPP/Gomoku).
--
-- Parts and files.
--   * Gomoku.Board, Gomoku.Win, Gomoku.Evaluate, Gomoku.Minimax and Gomoku.Game are the class
--     `AiGame` (HttpServer/WebAPP/Gomoku/include/AiGame.h and src/AiGame.cpp): the board,
--     `checkwin`, `evaluateBoard`, `minimax`, and the moves `humanMove`, `aiMove` and
--     `getBestMove`. The record `AiGame` holds the fields of the class; an operation takes it and
--     returns the new one. The board that `minimax` writes and restores in place is passed
--     through it explicitly.
--   * Http.Request, Http.Context and Http.Response are `HttpRequest`, `HttpContext` and
--     `HttpResponse` (HttpServer/HTTP/include/http and HttpServer/HTTP/src/http). `parse_request`
--     is `HttpContext::parseRequest`: the state machine reads a buffer, fills the request of the
--     context, and ends with an `Outcome`: a result, an exception, a failed assertion.
--   * Http.Handler, Http.Router, Http.Middleware and Http.Cors are `RouterHandler`, `Router`,
--     `MiddlewareChain` and `CorsMiddleware` (HttpServer/HTTP/include/router,
--     include/middlerWare, src/router, src/middleware). A handler is an arbitrary function of the
--     request, the response and the state of the application; it returns, throws an exception, or
--     throws a response.
--   * Http.Server is `HttpServer` (HttpServer/HTTP/src/http/HttpServer.cpp): `on_message` parses,
--     `on_request` and `handle_request` answer through chain and router, and the result is the
--     list of sends and shutdowns on the connection.
--   * Http.Session is `Session`, `MemorySessionStorage` and `SessionManager`
--     (HttpServer/HTTP/include/session, src/session): a heap of sessions, whose places stand for
--     shared pointers, and the map from ids to places.
--   * Http.Tls is `SslConnection` (HttpServer/HTTP/include/ssl, src/ssl/SslConnection.cpp): its
--     state, and what each call does on the TCP connection. Http.DbPool is `DbConnectionPool`
--     (HttpServer/HTTP/include/utils/db, src/utils/db/DbConnectionPool.cpp): the queue of idle
--     connections, which are numbers here.
--   * WebApp is `GomokuServer` and its handlers (HttpServer/WebAPP/Gomoku/include/GomokuServer.h,
--     src/GomokuServer.cpp and src/handlers). `App` holds the fields, the sessions and how far
--     clock and random sources were read; WebApp.Account, WebApp.Play and WebApp.Pages have a
--     function per handler, and `gomoku_server` is the `HttpServer` with its routes and
--     middleware.
--   * Coroutine is the rest of the coroutine library (co-pro/corotinue-fiber-pool):
--     Coroutine.Fiber, Coroutine.FiberPool and Coroutine.Scheduler are `Fiber`, `FiberPool` and
--     `Scheduler` (fiber.cpp, fiberpool.cpp, scheduler.cpp), with fibers as places of a heap and
--     a worker's rounds as steps; Coroutine.IoManager is `IOManager` (ioscheduler.cpp), the table
--     of descriptors with its events; Coroutine.FdManager is `FdCtx` and `FdManager`
--     (fd_manager.cpp).
--   * Timers is `Timer` and `TimerManager` of the coroutine library (co-pro/corotinue-fiber-pool,
--     timer.h and timer.cpp): a heap of timers and the set ordered by deadlines.
--   * Http.Buffer is what the parser and the response use of `muduo::net::Buffer`, a library
--     outside the repository: a record of operations, and a record of the documented laws they
--     rely on.
--   * Common holds the shared notation and lemmas. `Common.Int` has signed integers over the
--     native numbers, and `Common.Text` character codes, searches in a text, and maps kept in key
--     order.
--   * The modules below a component hold its theorems: Board/Laws and Board/Count (writes, reads
--     and counts of stones), Win/Line, Evaluate/Bounds, Minimax/Bound and Minimax/Pruning,
--     Game/BestMove, Game/Optimal, Game/Invariant and Game/Moves, Request/Query,
--     Context/Progress, Context/Roundtrip, Context/Message, Context/Reuse and Context/Methods,
--     Response/Wire, Router/Routing, Middleware/Order, Cors/Origins and Cors/Preflight,
--     Server/Answers, Session/Cookie, Session/Storage, Session/Manager and Session/Values,
--     Timers/Order, Timers/Due, Timers/Expiry and Timers/Rollover, Context/Stoi,
--     Server/Invariant, Tls/Reading, Tls/Sending, DbPool/Lending, WebApp/IntMap, WebApp/Turns,
--     WebApp/Invariant, WebApp/Safe, WebApp/Login, WebApp/Logout, WebApp/Playing, WebApp/Own,
--     IoManager/Sound, IoManager/Trigger, IoManager/Orderly, IoManager/Effects,
--     IoManager/Readiness, IoManager/Adding, FiberPool/Idle, FiberPool/Acquire, Scheduler/Rounds, Scheduler/Lost and
--     FdManager/Table. Tests, Tests/Serving and Tests/Sessions hold instances on concrete inputs.
--
-- Parameters. `std::sort` is a function from a comparison and a list to a list, with the
-- hypothesis that its result has the same elements; its order is never relied on. `rand()` is an
-- arbitrary number. The buffer is the record above, `std::regex` a record of three functions, the
-- random source of session ids a function, and each reading of the clock a number. The web
-- application takes JSON, the database, the files, the clock and the random sources as the record
-- `Libraries`. `epoll_ctl` is a function on a state of the kernel, with the hypothesis that a
-- success changes the interest in its descriptor alone; `fstat` and `fcntl` are the record
-- `System`. OpenSSL is the record `Tls`, and the database connections behind the pool the record
-- `Driver`. Each has a concrete instance in a Tests module.
--
-- Bounds and fuel. `parse_request` counts the rounds of its loop; a round that is not the last
-- reads at least two bytes, so one round more than there are readable bytes is enough in every
-- state but `kGotAll`. Without a rollover the loop of `listExpiredCb` needs one round more
-- than timers are due. `minimax` recurses on its depth. Times and
-- periods of timers have 64 bits and wrap around, the size of the table of descriptors is cut to 32
-- bits where the code does, and the count of events has 64 bits. The `int`
-- scores are integers without a bound, which is exact: a score sums four entries of at most
-- 1,000,000 for each of the 225 cells, and the difference of two scores stays within 32 bits.
--
-- What is not modelled: the database connections themselves; the contexts and options of TLS; the
-- server's branches for TLS, since it is modelled for connections without it; the network library
-- with its event loop; a null handler in a route; and, under co-pro, the threads, `epoll_wait`,
-- the contexts of fibers, the hooks and the demonstration servers. Each handler of the web
-- application is one step: its locks are left out, and so is what `dump` throws for a text that is
-- not UTF-8. The callback of a TLS connection reads its buffer alone; `onMessage`, which calls
-- `onRead` again, is left out there. The mutex of `AiGame` guards single accessors
-- and is left out, as is logging. `AiGame::evaluateThreat` is called by nothing.
-- HttpServer/AiGame.cpp is an older copy that the build does not compile.
pub mod Common
pub mod Gomoku
pub mod Http
pub mod Timers
pub mod WebApp
pub mod Coroutine
