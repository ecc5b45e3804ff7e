-- ===== src/Http/Tests/Serving.antt =====
-- Instances of the theorems on routes, middlewares and the server. The regular expressions are
-- literal texts, and the state of the application is a number.
use workplace.Common.{[], arith, if◌then◌else◌, none, refl, some, suc, true, ℕ, ◌++◌, ◌∷◌, ◌≡◌}
use workplace.Common.Text.{Text, codes, text_eq}
use workplace.Http.Buffer.{crlf}
use workplace.Http.Context.{new_context, parse_request}
use workplace.Http.Context.Message.{print_message, received}
use workplace.Http.Context.Roundtrip.{print_headers}
use workplace.Http.Cors.{cors_before, cors_middleware, default_config}
use workplace.Http.Cors.Preflight.{cors_before-parse_request}
use workplace.Http.Handler.{Handler, done, thrown}
use workplace.Http.Middleware.{MiddlewareChain, add_middleware, afters, caught, passed}
use workplace.Http.Middleware.{process_after, process_before, run_after, run_before, then_before}
use workplace.Http.Middleware.{then_call}
use workplace.Http.Middleware.Order.{add_middleware_lem}
use workplace.Http.Request.{get, post}
use workplace.Http.Request.Query.{print_pairs}
use workplace.Http.Response.{HttpResponse, new_response, ok_200}
use workplace.Http.Response.Wire.{response_text}
use workplace.Http.Router.{Regexes, Router, route}
use workplace.Http.Router.Routing.{first_answer, route_lem, rules}
use workplace.Http.Server.{HttpServer, handle_request, handled, on_message, send, shutdown}
use workplace.Http.Server.{wants_close}
use workplace.Http.Server.Answers.{Ready, on_message-Ready, on_message_serves}
use workplace.Http.Tests.{login, menu, menu-Writable, text_buffer, text_buffer-laws}

abbrev literal : Regexes
literal = record {
  Regex = Text;
  regex = λ t. t;
  regex_replace = λ t r u. t;
  regex_match = λ t r. if text_eq (b'^' ∷ t) r then some (t ∷ []) else none;
}

abbrev show_menu : Handler ℕ
show_menu req resp w = done (record resp { status_code = ok_200; body = codes "menu" }) (suc w)

abbrev fails : Handler ℕ
fails req resp w = thrown resp w

abbrev no_routes : Router literal ℕ
no_routes = record { handlers = []; callbacks = []; regex_handlers = []; regex_callbacks = [] }

abbrev routes : Router literal ℕ
routes = record {
  handlers = (record { method = get; path = codes "/menu" }, show_menu) ∷ [];
  callbacks = (record { method = post; path = codes "/login" }, fails) ∷ [];
  regex_handlers = record { method = get; path_regex = codes "^/a"; handler = fails } ∷ [];
  regex_callbacks = [];
}

abbrev cors_server : HttpServer literal ℕ
cors_server = record {
  router = routes;
  middleware_chain = some (cors_middleware default_config) ∷ [];
}

route_lem_example :
    route routes (received menu 7) (new_response true) 3
    ≡ first_answer (rules routes) (received menu 7) (new_response true) 3
route_lem_example = route_lem (received menu 7) (new_response true) 3 routes

add_middleware_lem_example :
    let chain : MiddlewareChain ℕ = some (cors_middleware default_config) ∷ [] in
    (process_before (add_middleware none chain) (received menu 7) 3
      ≡ then_before (process_before chain (received menu 7) 3) (run_before none))
    × (process_after (add_middleware none chain) (new_response true) 3
        ≡ caught (then_call (run_after none (new_response true) 3) (afters chain)))
add_middleware_lem_example =
    add_middleware_lem (some (cors_middleware default_config) ∷ []) none (received menu 7)
      (new_response true) 3

abbrev preflight : Text
preflight = codes "OPTIONS / HTTP/1.1" ++ (crlf ++ crlf)

cors_before-parse_request_example :
    let r = (parse_request text_buffer 9 7 new_context preflight).context.request in
    cors_before {W = ℕ} default_config r 3 ≡ passed r 3
cors_before-parse_request_example =
    cors_before-parse_request text_buffer 7 default_config 9 new_context preflight 3 refl

on_message-Ready_example :
    Ready
      (on_message text_buffer [] cors_server 90 7 new_context (print_message login (codes "hi")) 3)
unfolding print_headers print_pairs
on_message-Ready_example =
    on_message-Ready text_buffer text_buffer-laws [] cors_server tt 90 7 new_context
      (print_message login (codes "hi")) 3 (omega arith) (λ e. cc)

on_message_serves_example :
    let req = received menu 7 in
    (resp : HttpResponse) × (w' : ℕ) × (b' : Text) × (handle_request cors_server req
        (new_response (wants_close req))
        3
      ≡ some (resp, w'))
    × (b' ≡ codes "POST")
    × (on_message text_buffer [] cors_server 4 7 new_context (print_message menu (codes "POST")) 3
        ≡ handled new_context b'
            (send (response_text resp) ∷ (if resp.close_connection then shutdown ∷ [] else []))
            w')
unfolding text_eq
on_message_serves_example =
    on_message_serves text_buffer text_buffer-laws [] cors_server tt refl 7 1 menu menu-Writable
      (print_message menu (codes "POST")) (codes "POST") 3 refl refl
