-- ===== src/Http/Tls/Reading.antt =====
-- What a TLS connection does with the bytes that arrive.
use workplace.Common.{Bool, List, [], ap, false, refl, true, ◌++◌, ◌∙◌, ◌∷◌, ◌≡◌}
use workplace.Common.Text.{Text}
use workplace.Http.Tls.{Action, Handshake, SslConnection, SslState, Tls, after_handshake, call_back}
use workplace.Http.Tls.{completed, error, established, fails, handle_handshake, handshake}
use workplace.Http.Tls.{new_connection, on_read, read_in, send, shown, shut_down, shutdown}
use workplace.Http.Tls.{wants_more}

-- No byte is sent, and what the application is shown is empty.
abbrev pub Silent : List Action → Type 0
Silent [] = Unit
Silent (send t ∷ rest) = ⊥
Silent (shown t ∷ rest) = (t ≡ []) × Silent rest
Silent (shutdown ∷ rest) = Silent rest

Silent-append : (xs ys : List Action) → Silent xs → Silent ys → Silent (xs ++ ys)
Silent-append [] ys s t = t
Silent-append (send u ∷ xs) ys s t = absurd s
Silent-append (shown u ∷ xs) ys (e, s) t = (e, Silent-append xs ys s t)
Silent-append (shutdown ∷ xs) ys s t = Silent-append xs ys s t

module _ {T : Tls} where
  -- `onRead` for one arrival after the other.
  unfoldable pub on_reads : (Text → Text) → List Text → SslConnection T → List Action
  on_reads consume [] c = []
  on_reads consume (bytes ∷ more) c =
      (on_read consume bytes c).0 ++ on_reads consume more (on_read consume bytes c).1

  after_handshake-Silent :
      (h : Handshake) (c : SslConnection T)
      → Silent (after_handshake h c).0
        × ((after_handshake h c).1.decrypted_buffer ≡ c.decrypted_buffer)
  after_handshake-Silent completed c = (tt, refl)
  after_handshake-Silent wants_more c = (tt, refl)
  after_handshake-Silent fails c = (tt, refl)

  call_back-Silent :
      (b : Bool) (consume : Text → Text) (c : SslConnection T)
      → consume [] ≡ []
      → c.decrypted_buffer ≡ []
      → Silent (call_back b consume c).0 × ((call_back b consume c).1.decrypted_buffer ≡ [])
  call_back-Silent false consume c adds_none empty = (tt, empty)
  call_back-Silent true consume c adds_none empty = ((empty, tt), ap consume empty ∙ adds_none)

  read_in-Silent :
      (s : SslState) (consume : Text → Text) (bytes : Text) (c : SslConnection T)
      → consume [] ≡ []
      → c.decrypted_buffer ≡ []
      → Silent (read_in s consume bytes c).0 × ((read_in s consume bytes c).1.decrypted_buffer ≡ [])
  unfolding read_in handle_handshake
  read_in-Silent handshake consume bytes c adds_none empty =
      let (h, s) = T.do_handshake (T.feed bytes c.ssl) in
      let (silent, same) = after_handshake-Silent h (record c { ssl = s }) in (silent, same ∙ empty)
  read_in-Silent established consume bytes c adds_none empty =
      let (plain, s) = T.ssl_read (T.feed bytes c.ssl) in
      call_back-Silent c.has_callback consume (record c { ssl = s }) adds_none empty
  read_in-Silent shut_down consume bytes c adds_none empty = (tt, empty)
  read_in-Silent error consume bytes c adds_none empty = (tt, empty)

  on_reads-Silent :
      (consume : Text → Text) (chunks : List Text) (c : SslConnection T)
      → consume [] ≡ []
      → c.decrypted_buffer ≡ []
      → Silent (on_reads consume chunks c)
  unfolding on_reads
  on_reads-Silent consume [] c adds_none empty = tt
  on_reads-Silent consume (bytes ∷ more) c adds_none empty =
      let (silent, still) = read_in-Silent c.state consume bytes c adds_none empty in
      Silent-append (on_read consume bytes c).0 _ silent
        (on_reads-Silent consume more (on_read consume bytes c).1 adds_none still)

module _ (T : Tls) where
  -- On a new TLS connection, whatever the peer sends and however OpenSSL answers, reading never sends
  -- a byte, so that no handshake message leaves the server, and the application is only ever shown an
  -- empty buffer, so that nothing decrypted reaches it. The application adds nothing to an empty
  -- buffer.
  pub new_connection-Silent :
      (consume : Text → Text) (chunks : List Text) (s : T.Ssl) (has_callback : Bool)
      → consume [] ≡ []
      → Silent (on_reads consume chunks (new_connection {T = T} s has_callback))
  new_connection-Silent consume chunks s has_callback adds_none =
      on_reads-Silent consume chunks (new_connection {T = T} s has_callback) adds_none refl
