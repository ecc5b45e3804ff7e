-- ===== src/Http/DbPool/Lending.antt =====
-- Every connection is idle or lent, and to one borrower only.
use workplace.Common.{Bool, Bool-cases, List, [], ap, arith, false, if◌then◌else◌, inl, inr, ltb}
use workplace.Common.{refl, suc, true, zero, ℕ, ◌++◌, ◌+◌, ◌==◌, ◌∷◌, ◌≡◌}
use workplace.Http.DbPool.{DbConnectionPool, Driver, Got, answer, get_connection, give_back, given}
use workplace.Http.DbPool.{init, init_end, new_pool, no_connection, push_connections, push_new}
use workplace.Http.DbPool.{take_connection, threw, waits}

abbrev pub same : ℕ → ℕ → ℕ
same c d = if c == d then 1 else 0

-- How often a connection stands in a list.
unfoldable pub count : ℕ → List ℕ → ℕ
count c [] = 0
count c (d ∷ ds) = same c d + count c ds

count-append : (c : ℕ) (xs ys : List ℕ) → count c (xs ++ ys) ≡ count c xs + count c ys
unfolding count
count-append c [] ys = omega arith
count-append c (x ∷ xs) ys = omega (arith, count-append c xs ys)

count-snoc : (c d : ℕ) (xs : List ℕ) → count c (xs ++ d ∷ []) ≡ count c xs + same c d
unfolding count
count-snoc c d xs = omega (arith, count-append c xs (d ∷ []))

count-cons : (c d : ℕ) (xs : List ℕ) → count c (d ∷ xs) ≡ same c d + count c xs
unfolding count
count-cons c d xs = refl

-- The connections that were made, each once.
abbrev pub Once : List ℕ → DbConnectionPool → Type 0
Once lent p = (c : ℕ) → count c p.connections + count c lent ≡ (if ltb c p.made then 1 else 0)

push_new-Once : (lent : List ℕ) (p : DbConnectionPool) → Once lent p → Once lent (push_new p)
push_new-Once lent p v c = ground (arith, v c, count-snoc c p.made p.connections)

module _ (D : Driver) where
  push_connections-Once :
      (n : ℕ) (net : D.Net) (lent : List ℕ) (p : DbConnectionPool)
      → Once lent p
      → Once lent (push_connections D n net p).1
  unfolding push_connections
  push_connections-Once zero net lent p v = v
  push_connections-Once (suc n) net lent p v = elim (Bool-cases (D.connect net).0) [
    | inl e ↦
        rw e (push_connections-Once n (D.connect net).1 lent (push_new p) (push_new-Once lent p v))
    | inr e ↦ rw e v
  ]

  init_end-Once :
      (is_initialized ok : Bool) (lent : List ℕ) (before after : DbConnectionPool × D.Net)
      → Once lent before.0
      → Once lent after.0
      → Once lent (init_end D is_initialized ok before after).1
  init_end-Once true ok lent before after v w = v
  init_end-Once false true lent before after v w = w
  init_end-Once false false lent before after v w = w

  init-Once :
      (n : ℕ) (net : D.Net) (lent : List ℕ) (p : DbConnectionPool)
      → Once lent p
      → Once lent (init D n net p).1
  unfolding init
  init-Once n net lent p v =
      init_end-Once p.initialized (push_connections D n net p).0 lent (p, net)
        ((push_connections D n net p).1, (push_connections D n net p).2) v
        (push_connections-Once n net lent p v)

  -- The borrowers after a call.
  abbrev pub lent_after : Got → List ℕ → List ℕ
  lent_after (given c) lent = c ∷ lent
  lent_after threw lent = lent
  lent_after waits lent = lent

  answer-Once :
      (alive again : Bool) (c : ℕ) (cs lent : List ℕ) (p : DbConnectionPool) (net' net'' : D.Net)
      → Once lent p
      → p.connections ≡ c ∷ cs
      → let got = answer D alive again c (record p { connections = cs }) net' net'' in
        Once (lent_after got.0 lent) got.1
  answer-Once true again c cs lent p net' net'' v e d =
      let whole = ap (count d) e in
      omega (arith, v d, whole, count-cons d c cs, count-cons d c lent)
  answer-Once false true c cs lent p net' net'' v e d =
      let whole = ap (count d) e in
      omega (arith, v d, whole, count-cons d c cs, count-cons d c lent)
  answer-Once false false c cs lent p net' net'' v e d =
      let whole = ap (count d) e in omega (arith, v d, whole, count-cons d c cs, count-snoc d c cs)

  no_connection-Once :
      (b : Bool) (lent : List ℕ) (p : DbConnectionPool)
      → Once lent p
      → Once (lent_after (no_connection D b) lent) p
  no_connection-Once true lent p v = v
  no_connection-Once false lent p v = v

  take_connection-Once :
      (queue : List ℕ) (net : D.Net) (lent : List ℕ) (p : DbConnectionPool)
      → Once lent p
      → p.connections ≡ queue
      → let got = take_connection D queue net p in Once (lent_after got.0 lent) got.1
  unfolding take_connection
  take_connection-Once [] net lent p v e = no_connection-Once p.initialized lent p v
  take_connection-Once (c ∷ cs) net lent p v e =
      let (alive, net') = D.ping c net in
      let (again, net'') = D.reconnect c net' in answer-Once alive again c cs lent p net' net'' v e

  -- The pools that `init`, `getConnection` and the return of a borrowed connection reach, with the
  -- connections that are lent; the network is arbitrary at each call.
  pub data Reach : List ℕ → DbConnectionPool → Type 0 where
    made_new : Reach [] new_pool
    inits :
        {lent : List ℕ} {p : DbConnectionPool} (n : ℕ) (net : D.Net)
        → Reach lent p
        → Reach lent (init D n net p).1
    gets :
        {lent : List ℕ} {p : DbConnectionPool} (net : D.Net)
        → Reach lent p
        → Reach (lent_after (get_connection D net p).0 lent) (get_connection D net p).1
    returns :
        (before after : List ℕ) (c : ℕ) {p : DbConnectionPool}
        → Reach (before ++ c ∷ after) p
        → Reach (before ++ after) (give_back c p)

  -- In every pool that can be reached, each connection that was made is idle or lent, exactly once,
  -- and there are no others: none is lost, also by a failed check or a failed `init`, and no
  -- connection has two borrowers.
  pub Reach-Once : {lent : List ℕ} {p : DbConnectionPool} → Reach lent p → Once lent p
  unfolding count
  Reach-Once made_new c = ground arith
  Reach-Once (inits {lent} {p} n net r) c = init-Once n net lent p (Reach-Once r) c
  Reach-Once (gets {lent} {p} net r) c =
      take_connection-Once p.connections net lent p (Reach-Once r) refl c
  Reach-Once (returns before after c {p} r) d = omega (
    arith,
    Reach-Once r d,
    count-append d before (c ∷ after),
    count-append d before after,
    count-snoc d c p.connections,
  )
