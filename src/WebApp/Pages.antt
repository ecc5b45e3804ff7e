-- ===== src/WebApp/Pages.antt =====
-- The pages and the figures: `EntryHandler`, `MenuHandler` and `GameBackendHandler`,
-- HttpServer/WebAPP/Gomoku/src/handlers, and `GomokuServer::getBackendData`.
use workplace.Common.{Option, [], false, if◌then◌else◌, inl, inr, length, ltb, none, some, true, ℕ}
use workplace.Common.{◌++◌, ◌==◌, ◌||◌, ◌∷◌}
use workplace.Common.Int.{pos, ℤ}
use workplace.Common.Text.{Text, codes}
use workplace.Http.Handler.{Handler, done}
use workplace.Http.Request.{HttpRequest}
use workplace.Http.Response.{HttpResponse, ok_200, server_error_500, set_close_connection}
use workplace.Http.Response.{set_status_code, set_status_message}
use workplace.WebApp.Libraries.{Libraries}
use workplace.WebApp.Play.{show_page}
use workplace.WebApp.State.{App, application_json, get_user_total, package_resp, page, reply}
use workplace.WebApp.State.{text_html}

abbrev pub resource : Text → Text
resource name = codes "/home/yebidang/workplace/HttpServer/WebAPP/Gomoku/resource/" ++ name

-- `INT_MAX`.
abbrev pub largest_file : ℕ
largest_file = 2147483647

abbrev pub invalid_file_size : HttpResponse → HttpResponse
invalid_file_size resp =
    let r0 = set_status_code resp server_error_500 in
    set_close_connection (set_status_message r0 (codes "Invalid File Size")) true

-- The end of `EntryHandler::handle`; the size of a file that is not open is 2 ^ 64 - 1.
-- `packageResp` is given the type as the body and the body as the type.
abbrev pub show_entry : Option Text → HttpRequest → HttpResponse → HttpResponse
show_entry none req resp = invalid_file_size resp
show_entry (some html) req resp =
    if length html == 0 || ltb largest_file (length html)
    then invalid_file_size resp
    else package_resp req.version ok_200 (codes "OK") false text_html html (length html) resp

-- The body of `getBackendData`.
abbrev pub figures : (L : Libraries) → ℕ → ℕ → ℤ → Text
figures L current maximum total = L.dump_indented (
    L.json_object (
      (codes "currentOnline", L.json_int (pos current))
      ∷ (codes "maxOnline", L.json_int (pos maximum))
      ∷ (codes "totalUsers", L.json_int total)
      ∷ []))

module _ {L : Libraries} where
  -- `EntryHandler::handle`, `MenuHandler::handle` and `GameBackendHandler::handle`.
  unfoldable pub entry : Handler (App L)
  unfolding page package_resp
  entry req resp w = done (show_entry (page L.read_file (resource (codes "entry.html"))) req resp) w

  unfoldable pub menu : Handler (App L)
  unfolding page reply
  menu = show_page (page L.read_file (resource (codes "menu.html")))

  unfoldable pub game_backend : Handler (App L)
  unfolding page reply
  game_backend = show_page (page L.read_file (resource (codes "Backend.html")))

  -- `getBackendData`.
  unfoldable pub backend_data : Handler (App L)
  unfolding get_user_total reply
  backend_data req resp w =
      let failure = λ (what : Text). L.dump_indented (
        L.json_object (
          (codes "error", L.json_text (codes "Internal Server Error"))
          ∷ (codes "message", L.json_text what)
          ∷ [])) in
      elim (get_user_total w) [
        | inl what ↦
            done
              (reply req server_error_500 (codes "Internal Server Error") true application_json
                (failure what) resp)
              w
        | inr total ↦
            done
              (reply req ok_200 (codes "OK") false application_json
                (figures L (length w.online_users) w.max_online total) resp)
              w
      ]
