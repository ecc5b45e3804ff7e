-- ===== src/Http/Tests/Sessions.antt =====
-- Instances of the theorems on sessions. Every random number is 7.
use workplace.Common.{Bool-cases, [], ap, get_elem?, inl, inr, none, refl, some, some_inj, suc, sym}
use workplace.Common.{true, ℕ, ◌*◌, ◌+◌, ◌∷◌, ◌≡◌}
use workplace.Common.Text.{codes, cut, find_or_empty, lookup, text_eq, text_eq_iff}
use workplace.Http.Request.{HttpRequest, get, new_request}
use workplace.Http.Response.{new_response}
use workplace.Http.Session.{Session, Store, behind_first, find_id, get_session, session_id_of}
use workplace.Http.Session.{strip}
use workplace.Http.Session.Manager.{Served, get_session-Served, get_session_resumes}
use workplace.Http.Session.Storage.{IsStore}

abbrev sevens : ℕ → ℕ × ℕ
sevens g = (7, suc g)

abbrev player : Session
player = record {
  session_id = codes "ab";
  session_data = (codes "userId", codes "5") ∷ [];
  expiry_time = 100;
  max_age = 3600;
  managed = true;
}

abbrev one_player : Store
one_player = record { heap = player ∷ []; sessions = (codes "ab", 0) ∷ [] }

abbrev back : HttpRequest
back = record new_request { method = get; headers = (codes "Cookie", codes "sessionId=ab") ∷ [] }

one_player-IsStore : IsStore one_player
unfolding find_id
one_player-IsStore id a e = elim (Bool-cases (text_eq (codes "ab") id)) [
  | inl same ↦ (
    player,
    ap (get_elem? one_player.heap) (sym (some_inj (rw same at e))),
    (text_eq_iff (codes "ab") id).0 same,
  )
  | inr other ↦ absurd (nothing (rw other at e))
]
  where
    nothing : {a : ℕ} → none ≡ some a → ⊥
    nothing q = cc

get_session-Served_example :
    let got = get_session sevens 10 50 51 52 53 back (new_response true) 0 one_player in
    Served 53 10 got.session got.store
get_session-Served_example =
    get_session-Served sevens 10 50 51 52 53 back (new_response true) 0 one_player
      one_player-IsStore

get_session_resumes_example :
    let got = get_session sevens 10 50 51 52 53 back (new_response true) 0 one_player in
    (got.session ≡ 0)
    × (got.response ≡ new_response true)
    × (get_elem? got.store.heap 0
        ≡ some (record player { managed = true; expiry_time = 53 + 10 * player.max_age }))
unfolding session_id_of behind_first strip find_id text_eq cut lookup find_or_empty
get_session_resumes_example =
    get_session_resumes sevens 10 50 51 52 53 back (new_response true) 0 one_player 0 player refl
      refl refl refl refl
