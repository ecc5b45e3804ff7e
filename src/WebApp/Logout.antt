-- ===== src/WebApp/Logout.antt =====
-- A logout that fails half way.
use workplace.Common.{Option-cases, ap, false, if◌then◌else◌, inl, inr, none, refl, true, ℕ, ◌∙◌}
use workplace.Common.{◌≡◌}
use workplace.Common.Int.{int_eq, ℤ}
use workplace.Common.Text.{Text, text_eq_refl}
use workplace.Http.Context.Stoi.{IsInt}
use workplace.Http.Handler.{done}
use workplace.Http.Request.{HttpRequest}
use workplace.Http.Response.{HttpResponse, forbidden_403, ok_200}
use workplace.Http.Session.{clear, find_id, remove}
use workplace.Http.Session.Storage.{remove_lem}
use workplace.WebApp.Account.{credentials, destroy_session, end_session, game_type, id_at}
use workplace.WebApp.Account.{is_online, lacks_json, login, logout, no_user, server_error}
use workplace.WebApp.IntMap.{find_int}
use workplace.WebApp.Invariant.{IsApp, end_session-IsApp, open_session-IsApp}
use workplace.WebApp.Libraries.{Libraries}
use workplace.WebApp.Login.{login-SignedIn}
use workplace.WebApp.State.{App, open_session, user_id_at}

module _ {L : Libraries} where
  destroy_session-gone :
      (id : Text) (w : App L) → find_id id (destroy_session id w).store.sessions ≡ none
  unfolding destroy_session
  destroy_session-gone id w = elim (Option-cases (remove id w.store)) [
    | inl e ↦ rw (e, destroy_session) ((remove_lem id w.store).0.0 e)
    | inr (st, e) ↦
        rw (e, destroy_session) ((remove_lem id w.store).1 st id e ∙ rw (text_eq_refl id) refl)
  ]

  end_session-parts :
      (a : ℕ) (w : App L)
      → ((end_session a w).online_users ≡ w.online_users)
        × ((end_session a w).game_map ≡ w.game_map)
  unfolding destroy_session
  end_session-parts a w = elim (Option-cases (remove (id_at a w) (clear a w.store))) [
    | inl e ↦ rw (e, destroy_session) (refl, refl)
    | inr (st, e) ↦ rw (e, destroy_session) (refl, refl)
  ]

  -- A logout whose body has no readable game type answers with the status 500 after it has destroyed
  -- the session: the user stays online and keeps the game. The next login of that user is therefore
  -- refused with the status 403. The user was online before, the session storage is in order, the
  -- credentials of that login are read, and the id fits an `int` and is not -1.
  pub logout_locks_out :
      (req : HttpRequest) (resp : HttpResponse) (id : ℤ) (what : Text) (w : App L)
      (req2 : HttpRequest) (resp2 : HttpResponse) (username : Text)
      → IsApp w
      → IsInt id
      → lacks_json req ≡ false
      → let (a, resp', w') = open_session req resp w in
        user_id_at a w' ≡ inr id
        → game_type L req ≡ inl what
        → is_online id w.online_users ≡ true
        → lacks_json req2 ≡ false
        → credentials req2 (end_session a w') ≡ inr (username, id)
        → int_eq id no_user ≡ false
        → (logout req resp w ≡ done (server_error L what req resp') (end_session a w'))
          × (find_id (id_at a w') (end_session a w').store.sessions ≡ none)
          × (find_int id (end_session a w').game_map ≡ find_int id w.game_map)
          × ((resp3 : HttpResponse) × (w3 : App L) × (login req2 resp2 (end_session a w')
                ≡ done resp3 w3)
              × (resp3.status_code ≡ forbidden_403))
  unfolding logout open_session
  logout_locks_out req resp id what w req2 resp2 username v small json named bad online json2 known
        user =
      let (a, resp', w') = open_session req resp w in
      let parts = end_session-parts a w' in
      let later = end_session-IsApp a w' (open_session-IsApp req resp w v) in
      let (resp3, w3, run, signed) =
        login-SignedIn req2 resp2 username id (end_session a w') later.in_order small json2 known
          user in
      (
        rw (json, named, bad, logout) refl,
        destroy_session-gone (id_at a w') (record w' { store = clear a w'.store }),
        ap (find_int id) parts.1,
        (
          resp3,
          w3,
          run,
          signed.status
              ∙ ap (λ users. if is_online id users then forbidden_403 else ok_200) parts.0
              ∙ rw online refl,
        ),
      )
