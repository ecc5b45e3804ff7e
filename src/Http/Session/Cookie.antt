-- ===== src/Http/Session/Cookie.antt =====
-- The cookie that carries the id of a session.
use workplace.Common.{[], ap, arith, length, refl, some, suc, zero, ℕ, ◌++◌, ◌<◌, ◌∙◌, ◌∷◌, ◌≡◌}
use workplace.Common.{◌≢◌}
use workplace.Common.Text.{Lacks, Text, codes, cut-append, cut-none, lookup, lookup-insert, text_eq}
use workplace.Http.Response.{HttpResponse}
use workplace.Http.Session.{behind_first, generate_session_id, hex_digit, hex_digits, id_in}
use workplace.Http.Session.{session_cookie, session_id_of, set_session_cookie, strip}
use workplace.Http.Session.{up_to_semicolon}

strip-append : (p t : Text) → strip p (p ++ t) ≡ some t
unfolding strip
strip-append [] t = refl
strip-append (a ∷ p) t = ground (arith, strip-append p t)

behind_first-append : (p t : Text) → behind_first p (p ++ t) ≡ some t
unfolding behind_first
behind_first-append [] [] = refl
behind_first-append [] (b ∷ t) = refl
behind_first-append (a ∷ p) t = rw (strip-append (a ∷ p) t, behind_first) refl

session_id_of-prefix : (t : Text) → session_id_of (codes "sessionId=" ++ t) ≡ up_to_semicolon t
unfolding session_id_of
session_id_of-prefix t = ap id_in (behind_first-append (codes "sessionId=") t)

up_to_semicolon-none : (t : Text) → Lacks b';' t → up_to_semicolon t ≡ t
up_to_semicolon-none t h = rw (cut-none b';' t h, up_to_semicolon) refl

up_to_semicolon-append : (t rest : Text) → Lacks b';' t → up_to_semicolon (t ++ b';' ∷ rest) ≡ t
up_to_semicolon-append t rest h = rw (cut-append b';' t rest h, up_to_semicolon) refl

-- The id that `setSessionCookie` writes into the response is the one that
-- `getSessionIdFromCookie` reads, from the whole text of the header as well as from the pair that a
-- client sends back. The id has no semicolon.
pub session_cookie_lem :
    (id : Text) (resp : HttpResponse)
    → Lacks b';' id
    → (lookup (codes "Set-Cookie") (set_session_cookie id resp).headers ≡ some (session_cookie id))
      × (session_id_of (session_cookie id) ≡ id)
      × (session_id_of (codes "sessionId=" ++ id) ≡ id)
unfolding text_eq
session_cookie_lem id resp h = (
  lookup-insert (codes "Set-Cookie") (codes "Set-Cookie") (session_cookie id) resp.headers,
  session_id_of-prefix (id ++ codes "; Path=/; HttpOnly")
      ∙ up_to_semicolon-append id (codes " Path=/; HttpOnly") h,
  session_id_of-prefix id ∙ up_to_semicolon-none id h,
)

module _ {G : Type 0} (draw : G → ℕ × G) (small : (g : G) → (draw g).0 < 16) where
  hex_digits_lem :
      (n : ℕ) (g : G) → (length (hex_digits draw n g).0 ≡ n) × Lacks b';' (hex_digits draw n g).0
  unfolding hex_digits
  hex_digits_lem zero g = (refl, tt)
  hex_digits_lem (suc n) g =
      let (size, plain) = hex_digits_lem n (draw g).1 in
      (ap suc size, (hex_digit-ne (draw g).0, plain))
    where
      hex_digit-ne : (d : ℕ) → hex_digit d ≢ b';'
      hex_digit-ne d = λ e. ground arith

  -- A generated id has 31 characters and no semicolon, for every source of numbers below 16.
  pub generate_session_id_lem :
      (g : G)
      → (length (generate_session_id draw g).0 ≡ 31) × Lacks b';' (generate_session_id draw g).0
  unfolding generate_session_id
  generate_session_id_lem g = hex_digits_lem 31 g
