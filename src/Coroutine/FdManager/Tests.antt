-- ===== src/Coroutine/FdManager/Tests.antt =====
-- An instance of the theorem on a system where the descriptors above 2 are sockets.
use workplace.Common.{List, [], arith, false, ltb, some, true, ℕ, ◌∷◌, ◌≡◌}
use workplace.Coroutine.FdManager.{FdCtx, FdManager, System, get, new_fd_manager, resize_datas}
use workplace.Coroutine.FdManager.Table.{Gives, get_lem}

abbrev plain : System
plain = record {
  Os = List ℕ;
  is_socket = λ os fd. some (ltb 2 fd);
  is_nonblock = λ os fd. false;
  set_nonblock = λ os fd. fd ∷ os;
}

get_lem_example :
    (c : FdCtx) × (m' : FdManager) × (os' : List ℕ) × (get plain 100 true new_fd_manager []
      ≡ some (some c, m', os'))
    × Gives 100 new_fd_manager c m'
    × (get plain 100 false m' os' ≡ some (some c, m', os'))
unfolding resize_datas
get_lem_example = get_lem plain 100 false new_fd_manager [] (omega arith)
