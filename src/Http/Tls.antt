-- ===== src/Http/Tls.antt =====
-- `SslConnection`: HttpServer/HTTP/include/ssl and src/ssl/SslConnection.cpp. The buffers of the
-- network library are texts here, and the TCP connection is the list of actions on it.
pub mod Reading
pub mod Sending
mod Tests
use workplace.Common.{Bool, List, Option, [], drop, false, if◌then◌else◌, length, ltb, none, some}
use workplace.Common.{suc, take, true, zero, ℕ, ◌==◌, ◌∷◌}
use workplace.Common.Text.{Text}

-- How `SSL_do_handshake` ends: it is complete, it wants to read or write more, or it fails.
pub data Handshake : Type 0 where
  completed wants_more fails : Handshake

-- OpenSSL, which is not part of the repository, with the two memory buffers of a connection:
-- `ssl_read` gives at most 4096 bytes, `feed` is `BIO_write` on the incoming bytes, `pending` is
-- `BIO_pending` on the outgoing ones, and `drain` is `BIO_read` of at most so many of them.
pub record Tls : Type 1 where
  pub Ssl : Type 0
  pub do_handshake : Ssl → Handshake × Ssl
  pub ssl_write : Text → Ssl → Bool × Ssl
  pub ssl_read : Ssl → Option Text × Ssl
  pub feed : Text → Ssl → Ssl
  pub pending : Ssl → ℕ
  pub drain : ℕ → Ssl → Text × Ssl

pub data SslState : Type 0 where
  handshake established shut_down error : SslState

pub data SslError : Type 0 where
  no_error want_read want_write syscall ssl_error unknown : SslError

-- What happens on the TCP connection, and what the application is given.
pub data Action : Type 0 where
  send shown : Text → Action
  shutdown : Action

-- The fields that are used; `has_callback` is whether the application has set its callback.
pub record SslConnection (T : Tls) : Type 0 where
  pub ssl : T.Ssl
  pub state : SslState
  pub decrypted_buffer : Text
  pub has_callback : Bool

-- `getLastError`, on the code of `SSL_get_error`.
abbrev pub get_last_error : ℕ → SslError
get_last_error code =
    if code == 0
    then no_error
    else if code == 2
    then want_read
    else if code == 3
    then want_write
    else if code == 5
    then syscall
    else if code == 1
    then ssl_error
    else unknown

-- `bioRead` on the buffer of a connection: `none` is -1.
abbrev pub bio_read : ℕ → Text → Option (Text × Text)
bio_read len buffer =
    let n = if ltb (length buffer) len then length buffer else len in
    if length buffer == 0 then none else some (take n buffer, drop n buffer)

abbrev pub after_bytes : {S : Type 0} → Text → Option (List Action × S) → Option (List Action × S)
after_bytes bytes none = none
after_bytes bytes (some (actions, end)) =
    some (if length bytes == 0 then actions else send bytes ∷ actions, end)

-- The loop of `send`, on fuel: `none` is still running. The variable of the loop holds the result of
-- the comparison, and so each round reads one byte.
unfoldable pub send_loop : (T : Tls) → ℕ → T.Ssl → Option (List Action × T.Ssl)
send_loop T zero s = none
send_loop T (suc fuel) s =
    let rest = after_bytes (T.drain 1 s).0 (send_loop T fuel (T.drain 1 s).1) in
    if ltb 0 (T.pending s) then rest else some ([], s)

module _ {T : Tls} where
  -- The constructor, when OpenSSL gives its objects.
  abbrev pub new_connection : T.Ssl → Bool → SslConnection T
  new_connection ssl has_callback = record {
    ssl = ssl;
    state = handshake;
    decrypted_buffer = [];
    has_callback = has_callback;
  }

  abbrev pub after_handshake : Handshake → SslConnection T → List Action × SslConnection T
  after_handshake completed c = ([], record c { state = established })
  after_handshake wants_more c = ([], c)
  after_handshake fails c = (shutdown ∷ [], c)

  -- `handleHandShake`.
  unfoldable pub handle_handshake : SslConnection T → List Action × SslConnection T
  handle_handshake c =
      let (result, s) = T.do_handshake c.ssl in after_handshake result (record c { ssl = s })

  -- `handleError`.
  unfoldable pub handle_error : SslError → SslConnection T → List Action × SslConnection T
  handle_error no_error c = ([], c)
  handle_error want_read c = ([], c)
  handle_error want_write c = ([], c)
  handle_error _ c = (shutdown ∷ [], record c { state = error })

  -- What the callback leaves of the buffer is `consume` of it: the callback reads the buffer alone. The
  -- one that `HttpServer` sets, `onMessage`, calls `onRead` again, and is not modelled.
  abbrev pub call_back : Bool → (Text → Text) → SslConnection T → List Action × SslConnection T
  call_back false consume c = ([], c)
  call_back true consume c =
      (shown c.decrypted_buffer ∷ [], record c { decrypted_buffer = consume c.decrypted_buffer })

  -- `onRead` of the bytes that have arrived, in each state. The result of `SSL_read` goes into a
  -- buffer of its own, which nothing reads.
  unfoldable pub read_in :
      SslState → (Text → Text) → Text → SslConnection T → List Action × SslConnection T
  unfolding handle_handshake
  read_in handshake consume bytes c = handle_handshake (record c { ssl = T.feed bytes c.ssl })
  read_in established consume bytes c =
      let (plain, s) = T.ssl_read (T.feed bytes c.ssl) in
      call_back c.has_callback consume (record c { ssl = s })
  read_in shut_down consume bytes c = ([], c)
  read_in error consume bytes c = ([], c)

  abbrev pub on_read : (Text → Text) → Text → SslConnection T → List Action × SslConnection T
  on_read consume bytes c = read_in c.state consume bytes c

  abbrev pub with_ssl :
      SslConnection T → Option (List Action × T.Ssl) → Option (List Action × SslConnection T)
  with_ssl c none = none
  with_ssl c (some (actions, s)) = some (actions, record c { ssl = s })

  -- `send`, in each state.
  unfoldable pub send_in :
      SslState → ℕ → Text → SslConnection T → Option (List Action × SslConnection T)
  unfolding send_loop
  send_in established fuel plain c =
      let (written, s) = T.ssl_write plain c.ssl in
      let sent = with_ssl c (send_loop T fuel s) in
      if written then sent else some ([], record c { ssl = s })
  send_in handshake fuel plain c = some ([], c)
  send_in shut_down fuel plain c = some ([], c)
  send_in error fuel plain c = some ([], c)

  abbrev pub send_data : ℕ → Text → SslConnection T → Option (List Action × SslConnection T)
  send_data fuel plain c = send_in c.state fuel plain c
