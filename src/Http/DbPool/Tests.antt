-- ===== src/Http/DbPool/Tests.antt =====
-- An instance of the theorem on a network that never fails.
use workplace.Common.{[], true, ◌∷◌}
use workplace.Http.DbPool.{DbConnectionPool, Driver, get_connection, init, new_pool}
use workplace.Http.DbPool.{push_connections, take_connection}
use workplace.Http.DbPool.Lending.{Once, Reach-Once, gets, inits, made_new}

abbrev reliable : Driver
reliable = record {
  Net = Unit {0};
  connect = λ net. (true, net);
  ping = λ c net. (true, net);
  reconnect = λ c net. (true, net);
}

abbrev two_made : DbConnectionPool
two_made = (init reliable 2 tt new_pool).1

Reach-Once_example : Once (0 ∷ []) (get_connection reliable tt two_made).1
unfolding init push_connections take_connection
Reach-Once_example = Reach-Once reliable (gets tt (inits 2 tt made_new))
