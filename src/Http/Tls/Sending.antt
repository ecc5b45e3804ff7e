-- ===== src/Http/Tls/Sending.antt =====
-- What a TLS connection sends.
use workplace.Common.{List, Option, [], ap, arith, drop, false, if◌then◌else◌, length, ltb, refl}
use workplace.Common.{some, suc, take, true, zero, ℕ, ◌<◌, ◌∙◌, ◌∷◌, ◌≡◌}
use workplace.Common.Text.{Text}
use workplace.Http.Tls.{Action, SslConnection, Tls, after_bytes, established, send, send_data}
use workplace.Http.Tls.{send_in, send_loop, with_ssl}

-- Documented behaviour of a memory buffer: `pending` counts its bytes, and reading takes at most so
-- many from the front.
pub record BioLaws (T : Tls) : Type 0 where
  pub outgoing : T.Ssl → Text
  pub counts : (s : T.Ssl) → T.pending s ≡ length (outgoing s)
  pub reads : (n : ℕ) (s : T.Ssl) → (T.drain n s).0 ≡ take n (outgoing s)
  pub leaves : (n : ℕ) (s : T.Ssl) → outgoing (T.drain n s).1 ≡ drop n (outgoing s)

-- One action for each byte.
abbrev pub byte_by_byte : Text → List Action
byte_by_byte [] = []
byte_by_byte (b ∷ t) = send (b ∷ []) ∷ byte_by_byte t

module _ (T : Tls) (laws : BioLaws T) where
  send_loop_lem :
      (fuel : ℕ) (s : T.Ssl) (t : Text)
      → laws.outgoing s ≡ t
      → length t < fuel
      → (s' : T.Ssl) × (send_loop T fuel s ≡ some (byte_by_byte t, s')) × (laws.outgoing s' ≡ [])
  unfolding send_loop
  send_loop_lem zero s t e h = absurd (omega arith)
  send_loop_lem (suc fuel) s [] e h =
      let none_left : ltb 0 (T.pending s) ≡ false = ground (arith, laws.counts s, ap length e) in
      (s, rw none_left refl, e)
  send_loop_lem (suc fuel) s (b ∷ t) e h =
      let some_left : ltb 0 (T.pending s) ≡ true = ground (arith, laws.counts s, ap length e) in
      let (s', run, empty) =
        send_loop_lem fuel (T.drain 1 s).1 t (laws.leaves 1 s ∙ ap (drop 1) e) (omega (arith, h)) in
      let byte = laws.reads 1 s ∙ ap (take 1) e in
      (
        s',
        rw some_left (
            ap (after_bytes (T.drain 1 s).0) run
            ∙ ap (λ u. after_bytes u (some (byte_by_byte t, s'))) byte),
        empty,
      )

  -- `send` on an established connection ends, after one round more than there are outgoing bytes, and
  -- has sent all of them in their order, each in a call of its own; none is left. OpenSSL has taken
  -- the data, and its memory buffer behaves as documented.
  pub send_data_lem :
      (fuel : ℕ) (plain : Text) (c : SslConnection T)
      → c.state ≡ established
      → (T.ssl_write plain c.ssl).0 ≡ true
      → length (laws.outgoing (T.ssl_write plain c.ssl).1) < fuel
      → (s' : T.Ssl) × (send_data fuel plain c
          ≡ some (byte_by_byte (laws.outgoing (T.ssl_write plain c.ssl).1), record c { ssl = s' }))
        × (laws.outgoing s' ≡ [])
  unfolding send_in
  send_data_lem fuel plain c up written h =
      let s = (T.ssl_write plain c.ssl).1 in
      let (s', run, empty) = send_loop_lem fuel s (laws.outgoing s) refl h in
      let refused : Option (List Action × SslConnection T) = some ([], record c { ssl = s }) in
      (
        s',
        ap (λ state. send_in state fuel plain c) up
            ∙ ap (λ b. if b then with_ssl c (send_loop T fuel s) else refused) written
            ∙ ap (with_ssl c) run,
        empty,
      )
