-- ===== src/Http/DbPool.antt =====
-- `DbConnectionPool`: HttpServer/HTTP/include/utils/db/DbConnectionPool.h and
-- src/utils/db/DbConnectionPool.cpp. Connections are numbers in the order in which they were made.
-- The mutex and the waiting are left out: each call is one step, and a call that waits says so.
pub mod Lending
mod Tests
use workplace.Common.{Bool, List, [], false, if◌then◌else◌, not, suc, true, zero, ℕ, ◌++◌, ◌+◌, ◌∷◌}

-- The database driver behind `DbConnection`: whether making a connection, a ping and a reconnection
-- succeed, with the state of the network.
pub record Driver : Type 1 where
  pub Net : Type 0
  pub connect : Net → Bool × Net
  pub ping : ℕ → Net → Bool × Net
  pub reconnect : ℕ → Net → Bool × Net

-- The queue `connections_`, `initialized_`, and how many connections were made.
pub record DbConnectionPool : Type 0 where
  pub connections : List ℕ
  pub initialized : Bool
  pub made : ℕ

-- The constructor.
abbrev pub new_pool : DbConnectionPool
new_pool = record { connections = []; initialized = false; made = 0 }

-- `connections_.push(createConnection())`.
abbrev pub push_new : DbConnectionPool → DbConnectionPool
push_new p = record p { connections = p.connections ++ p.made ∷ []; made = p.made + 1 }

-- How `getConnection` ends: with a connection, with an exception, or waiting for one.
pub data Got : Type 0 where
  given : ℕ → Got
  threw waits : Got

abbrev pub give_back : ℕ → DbConnectionPool → DbConnectionPool
give_back c p = record p { connections = p.connections ++ c ∷ [] }

module _ (D : Driver) where
  -- The loop of `init`, with whether it has ended without an exception.
  unfoldable pub push_connections : ℕ → D.Net → DbConnectionPool → Bool × DbConnectionPool × D.Net
  push_connections zero net p = (true, p, net)
  push_connections (suc n) net p =
      let (ok, net') = D.connect net in
      let rest = push_connections n net' (push_new p) in if ok then rest else (false, p, net')

  -- The end of `init`, from the pool before and after its loop.
  abbrev pub init_end :
      Bool
      → Bool
      → DbConnectionPool × D.Net
      → DbConnectionPool × D.Net
      → Bool × DbConnectionPool × D.Net
  init_end true ok (p, net) after = (true, p, net)
  init_end false true before (p', net') = (true, record p' { initialized = true }, net')
  init_end false false before (p', net') = (false, p', net')

  -- `init`.
  unfoldable pub init : ℕ → D.Net → DbConnectionPool → Bool × DbConnectionPool × D.Net
  unfolding push_connections
  init pool_size net p =
      let (ok, p', net') = push_connections pool_size net p in
      init_end p.initialized ok (p, net) (p', net')

  -- The check of a connection that was taken from the queue, by whether the ping and the
  -- reconnection succeed; after an exception it is given back.
  abbrev pub answer :
      Bool → Bool → ℕ → DbConnectionPool → D.Net → D.Net → Got × DbConnectionPool × D.Net
  answer true again c p net' net'' = (given c, p, net')
  answer false true c p net' net'' = (given c, p, net'')
  answer false false c p net' net'' = (threw, give_back c p, net'')

  abbrev pub checked : ℕ → D.Net → DbConnectionPool → Got × DbConnectionPool × D.Net
  checked c net p =
      let (alive, net') = D.ping c net in
      let (again, net'') = D.reconnect c net' in answer alive again c p net' net''

  -- An empty queue.
  abbrev pub no_connection : Bool → Got
  no_connection false = threw
  no_connection true = waits

  -- `getConnection`, on the queue of the pool.
  unfoldable pub take_connection :
      List ℕ → D.Net → DbConnectionPool → Got × DbConnectionPool × D.Net
  take_connection [] net p = (no_connection p.initialized, p, net)
  take_connection (c ∷ cs) net p = checked c net (record p { connections = cs })

  abbrev pub get_connection : D.Net → DbConnectionPool → Got × DbConnectionPool × D.Net
  get_connection net p = take_connection p.connections net p

  -- A round of `checkConnections` on its copy of the queue.
  unfoldable pub check_connections : List ℕ → D.Net → D.Net
  check_connections [] net = net
  check_connections (c ∷ cs) net =
      let (alive, net') = D.ping c net in
      let (again, net'') = D.reconnect c net' in
      check_connections cs (if not alive then net'' else net')
