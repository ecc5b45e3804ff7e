-- ===== src/Http/Tls/Tests.antt =====
-- An instance of the theorem, with OpenSSL as a text that is sent as it is.
use workplace.Common.{[], drop, length, refl, some, take, true, ◌++◌, ◌∷◌}
use workplace.Common.Text.{Text, codes}
use workplace.Http.Tls.{Tls, completed, new_connection}
use workplace.Http.Tls.Reading.{Silent, new_connection-Silent, on_reads}

abbrev plain : Tls
plain = record {
  Ssl = Text;
  do_handshake = λ s. (completed, s);
  ssl_write = λ t s. (true, s ++ t);
  ssl_read = λ s. (some s, s);
  feed = λ t s. s;
  pending = λ s. length s;
  drain = λ n s. (take n s, drop n s);
}

new_connection-Silent_example : Silent (
    on_reads {T = plain}
      (λ t. [])
      (codes "hello" ∷ codes "GET /" ∷ [])
      (new_connection {T = plain} [] true))
new_connection-Silent_example =
    new_connection-Silent plain (λ t. []) (codes "hello" ∷ codes "GET /" ∷ []) [] true refl
