-- ===== src/WebApp/Invariant.antt =====
-- What every handler of the web application keeps: the storage of sessions in order and every game
-- valid.
use workplace.Common.{Bool-cases, List, Option, Option-cases, inl, inr, none, not, refl, some}
use workplace.Common.{some_inj, subst, sym, ℕ, ◌+◌, ◌∙◌, ◌≡◌}
use workplace.Common.Int.{int_eq, pos, ℤ}
use workplace.Common.Text.{Text}
use workplace.Gomoku.Game.{AiGame, new_game}
use workplace.Gomoku.Game.Invariant.{IsGame, new_game-IsGame}
use workplace.Http.Request.{HttpRequest}
use workplace.Http.Response.{HttpResponse}
use workplace.Http.Server.Invariant.{Keeps, Left}
use workplace.Http.Session.{clear, remove}
use workplace.Http.Session.Manager.{get_session-Served}
use workplace.Http.Session.Storage.{IsStore, modify-IsStore}
use workplace.Http.Session.Values.{remove-IsStore, set_value-IsStore}
use workplace.WebApp.Account.{admit, credentials, destroy_session, end_session, game_type, id_at}
use workplace.WebApp.Account.{insert_user, is_online, lacks_json, leave, login, logout, new_user}
use workplace.WebApp.Account.{no_user, register, sign_in}
use workplace.WebApp.IntMap.{erase_int, find_int, find_int-erase_int, find_int-set_int, set_int}
use workplace.WebApp.Libraries.{Libraries, Tried-cases}
use workplace.WebApp.Pages.{backend_data, entry, game_backend, menu}
use workplace.WebApp.Play.{fresh_game, game_page, restart, show_page, start_game}
use workplace.WebApp.State.{App, get_user_total, is_logged_in, open_session, page, put_value}
use workplace.WebApp.State.{user_id_at}

abbrev pub AllGames : List (ℤ × AiGame) → Type 0
AllGames games = (id : ℤ) (g : AiGame) → find_int id games ≡ some g → IsGame g

pub record IsApp {L : Libraries} (w : App L) : Type 0 where
  pub in_order : IsStore w.store
  pub games : AllGames w.game_map

pub set_int-AllGames :
    (id : ℤ) (g : AiGame) (games : List (ℤ × AiGame))
    → IsGame g
    → AllGames games
    → AllGames (set_int id g games)
set_int-AllGames id g games v all j h e = elim (Bool-cases (int_eq id j)) [
  | inl same ↦ subst IsGame (some_inj (sym (find_int-set_int id j g games ∙ rw same refl) ∙ e)) v
  | inr other ↦ all j h (sym (find_int-set_int id j g games ∙ rw other refl) ∙ e)
]

pub erase_int-AllGames :
    (id : ℤ) (games : List (ℤ × AiGame)) → AllGames games → AllGames (erase_int id games)
erase_int-AllGames id games all j h e = elim (Bool-cases (int_eq id j)) [
  | inl same ↦
      let gone : find_int j (erase_int id games) ≡ none =
        find_int-erase_int id j games ∙ rw same refl in
      absurd (cc)
  | inr other ↦ all j h (sym (find_int-erase_int id j games ∙ rw other refl) ∙ e)
]

module _ {L : Libraries} where
  pub open_session-IsApp :
      (req : HttpRequest) (resp : HttpResponse) (w : App L)
      → IsApp w
      → IsApp (open_session req resp w).2
  unfolding open_session
  open_session-IsApp req resp w v =
      let t = w.readings in
      let served =
        get_session-Served L.draw L.second (L.clock t) (L.clock (t + 1)) (L.clock (t + 2))
          (L.clock (t + 3)) req resp w.random w.store v.in_order in
      record { in_order = served.in_order; games = v.games }

  pub fresh_game-IsApp : (id : ℤ) (w : App L) → IsApp w → IsApp (fresh_game id w)
  fresh_game-IsApp id w v = record {
    in_order = v.in_order;
    games =
        set_int-AllGames id (new_game id) (erase_int id w.game_map) (new_game-IsGame id)
          (erase_int-AllGames id w.game_map v.games);
  }

  show_page-Keeps : (html : Option Text) → Keeps (IsApp {L = L}) (show_page html)
  show_page-Keeps none req resp w v = v
  show_page-Keeps (some html) req resp w v = v

  pub start_game-Keeps : Keeps (IsApp {L = L}) start_game
  unfolding start_game
  start_game-Keeps req resp w v =
      let (a, resp', w') = open_session req resp w in
      let v' = open_session-IsApp req resp w v in
      elim (Bool-cases (not (is_logged_in a w'))) [
        | inl e ↦ rw (e, start_game) v'
        | inr e ↦ elim (Tried-cases (user_id_at a w')) [
          | inl (what, n) ↦ rw (e, n, start_game) v'
          | inr (id, n) ↦
              rw (e, n, start_game)
                (show_page-Keeps (page L.read_file game_page) req resp' (fresh_game id w')
                  (fresh_game-IsApp id w' v'))
        ]
      ]

  pub restart-Keeps : Keeps (IsApp {L = L}) restart
  unfolding restart
  restart-Keeps req resp w v =
      let (a, resp', w') = open_session req resp w in
      let v' = open_session-IsApp req resp w v in
      elim (Bool-cases (not (is_logged_in a w'))) [
        | inl e ↦ rw (e, restart) v'
        | inr e ↦ elim (Tried-cases (user_id_at a w')) [
          | inl (what, n) ↦ rw (e, n, restart) v'
          | inr (id, n) ↦ rw (e, n, restart) (fresh_game-IsApp id w' v')
        ]
      ]

  put_value-IsApp : (a : ℕ) (key to : Text) (w : App L) → IsApp w → IsApp (put_value a key to w)
  put_value-IsApp a key to w v = record {
    in_order = set_value-IsStore key to a w.store v.in_order;
    games = v.games;
  }

  sign_in-IsApp :
      (a : ℕ) (username : Text) (id : ℤ) (w : App L) → IsApp w → IsApp (sign_in a username id w)
  sign_in-IsApp a username id w v =
      put_value-IsApp a _ _ _ (put_value-IsApp a _ _ _ (put_value-IsApp a _ _ w v))

  admit-Left :
      (username : Text) (id : ℤ) (req : HttpRequest) (resp : HttpResponse) (w : App L)
      → IsApp w
      → Left IsApp (admit username id req resp w)
  unfolding admit
  admit-Left username id req resp w v =
      let (a, resp', w') = open_session req resp w in
      let signed = sign_in-IsApp a username id w' (open_session-IsApp req resp w v) in
      elim (Bool-cases (not (is_online id (sign_in a username id w').online_users))) [
        | inl e ↦ rw e (record { in_order = signed.in_order; games = signed.games })
        | inr e ↦ rw e signed
      ]

  pub login-Keeps : Keeps (IsApp {L = L}) login
  unfolding login
  login-Keeps req resp w v = elim (Bool-cases (lacks_json req)) [
    | inl e ↦ rw e v
    | inr e ↦ elim (Tried-cases (credentials req w)) [
      | inl (what, n) ↦ rw (e, n, login) v
      | inr ((username, id), n) ↦ elim (Bool-cases (not (int_eq id no_user))) [
        | inl known ↦ rw (e, n, known, login) (admit-Left username id req resp w v)
        | inr stranger ↦ rw (e, n, stranger, login) v
      ]
    ]
  ]

  destroy_session-IsApp : (id : Text) (w : App L) → IsApp w → IsApp (destroy_session id w)
  unfolding destroy_session
  destroy_session-IsApp id w v = elim (Option-cases (remove id w.store)) [
    | inl e ↦ rw (e, destroy_session) v
    | inr (st, e) ↦
        rw (e, destroy_session)
          (record { in_order = remove-IsStore id w.store st v.in_order e; games = v.games })
  ]

  pub end_session-IsApp : (a : ℕ) (w : App L) → IsApp w → IsApp (end_session a w)
  end_session-IsApp a w v =
      destroy_session-IsApp (id_at a w) (record w { store = clear a w.store })
        (record { in_order = modify-IsStore _ a w.store (λ s. refl) v.in_order; games = v.games })

  leave-IsApp : (id type : ℤ) (w : App L) → IsApp w → IsApp (leave id type w)
  leave-IsApp id type w v = elim (Bool-cases (int_eq type (pos 1))) [
    | inl e ↦
        rw e (record { in_order = v.in_order; games = erase_int-AllGames id w.game_map v.games })
    | inr e ↦ rw e (record { in_order = v.in_order; games = v.games })
  ]

  pub logout-Keeps : Keeps (IsApp {L = L}) logout
  unfolding logout
  logout-Keeps req resp w v = elim (Bool-cases (lacks_json req)) [
    | inl e ↦ rw e v
    | inr e ↦
        let (a, resp', w') = open_session req resp w in
        let v' = open_session-IsApp req resp w v in
        elim (Tried-cases (user_id_at a w')) [
          | inl (what, n) ↦ rw (e, n, logout) v'
          | inr (id, n) ↦ elim (Tried-cases (game_type L req)) [
            | inl (what, t) ↦ rw (e, n, t, logout) (end_session-IsApp a w' v')
            | inr (type, t) ↦
                rw (e, n, t, logout)
                  (leave-IsApp id type (end_session a w') (end_session-IsApp a w' v'))
          ]
        ]
  ]

  with_database-IsApp : (d : L.Database) (w : App L) → IsApp w → IsApp (record w { database = d })
  with_database-IsApp d w v = record { in_order = v.in_order; games = v.games }

  pub register-Keeps : Keeps (IsApp {L = L}) register
  unfolding register
  register-Keeps req resp w v = elim (Tried-cases (new_user L req)) [
    | inl (what, n) ↦ rw (n, register) v
    | inr ((username, password), n) ↦
        let (id, d) = insert_user L username password w.database in
        let v' = with_database-IsApp d w v in
        elim (Tried-cases id) [
          | inl (what, t) ↦ rw (n, t, register) v'
          | inr (k, t) ↦ elim (Bool-cases (int_eq k no_user)) [
            | inl e ↦ rw (n, t, e, register) v'
            | inr e ↦ rw (n, t, e, register) v'
          ]
        ]
  ]

  pub entry-Keeps : Keeps (IsApp {L = L}) entry
  unfolding entry
  entry-Keeps req resp w v = v

  pub menu-Keeps : Keeps (IsApp {L = L}) menu
  unfolding menu
  menu-Keeps = show_page-Keeps _

  pub game_backend-Keeps : Keeps (IsApp {L = L}) game_backend
  unfolding game_backend
  game_backend-Keeps = show_page-Keeps _

  pub backend_data-Keeps : Keeps (IsApp {L = L}) backend_data
  unfolding backend_data
  backend_data-Keeps req resp w v = elim (Tried-cases (get_user_total w)) [
    | inl (what, n) ↦ rw (n, backend_data) v
    | inr (total, n) ↦ rw (n, backend_data) v
  ]
