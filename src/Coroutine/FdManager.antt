-- ===== src/Coroutine/FdManager.antt =====
-- `FdCtx` and `FdManager`: co-pro/corotinue-fiber-pool, fd_manager.h and fd_manager.cpp. The locks
-- are left out: each call is one step.
pub mod Table
mod Tests
use workplace.Common.{Bool, List, Option, [], false, get_elem?, if◌then◌else◌, leb, length, ltb}
use workplace.Common.{none, not, set, some, suc, true, zero, ℕ, ◌*◌, ◌/◌, ◌||◌, ◌∷◌}

-- The operating system, which is not part of the repository: whether `fstat` succeeds and finds a
-- socket, the flag `O_NONBLOCK` of a descriptor, and setting that flag.
pub record System : Type 1 where
  pub Os : Type 0
  pub is_socket : Os → ℕ → Option Bool
  pub is_nonblock : Os → ℕ → Bool
  pub set_nonblock : Os → ℕ → Os

pub record FdCtx : Type 0 where
  pub is_init : Bool
  pub is_socket : Bool
  pub sys_nonblock : Bool
  pub user_nonblock : Bool
  pub is_closed : Bool
  pub fd : ℕ
  pub recv_timeout : ℕ
  pub send_timeout : ℕ

-- `(uint64_t)-1`.
abbrev pub no_timeout : ℕ
no_timeout = 18446744073709551615

-- The fields before `init`.
abbrev pub bare_fd_ctx : ℕ → FdCtx
bare_fd_ctx fd = record {
  is_init = false;
  is_socket = false;
  sys_nonblock = false;
  user_nonblock = false;
  is_closed = false;
  fd = fd;
  recv_timeout = no_timeout;
  send_timeout = no_timeout;
}

-- `setTimeout` and `getTimeout`; the test is `type == SO_RCVTIMEO`.
abbrev pub set_timeout : Bool → ℕ → FdCtx → FdCtx
set_timeout is_recv v c =
    if is_recv then record c { recv_timeout = v } else record c { send_timeout = v }

abbrev pub get_timeout : Bool → FdCtx → ℕ
get_timeout is_recv c = if is_recv then c.recv_timeout else c.send_timeout

-- `m_datas`, with copies of what the shared pointers lead to.
abbrev pub FdManager : Type 0
FdManager = List (Option FdCtx)

-- `m_datas.resize(n)`.
unfoldable pub resize_datas : ℕ → FdManager → FdManager
resize_datas zero l = []
resize_datas (suc n) [] = none ∷ resize_datas n []
resize_datas (suc n) (c ∷ l) = c ∷ resize_datas n l

-- The constructor.
abbrev pub new_fd_manager : FdManager
new_fd_manager = resize_datas 64 []

-- The entry at a place; the pointer is null past the table.
abbrev pub entry_of : Option (Option FdCtx) → Option FdCtx
entry_of none = none
entry_of (some c) = c

abbrev pub entry_at : FdManager → ℕ → Option FdCtx
entry_at m fd = entry_of (get_elem? m fd)

abbrev pub is_found : Option FdCtx → Bool
is_found none = false
is_found (some c) = true

-- The result of `get` for a new entry.
abbrev pub as_pointer :
    {O : Type 0} → Option (FdCtx × FdManager × O) → Option (Option FdCtx × FdManager × O)
as_pointer none = none
as_pointer (some (c, m, os)) = some (some c, m, os)

module _ (S : System) where
  -- `init`: a socket is set to not block.
  unfoldable pub init : FdCtx → S.Os → FdCtx × S.Os
  init c os = if c.is_init then (c, os) else elim (S.is_socket os c.fd) [
    | none ↦ (record c { is_init = false; is_socket = false; sys_nonblock = false }, os)
    | some false ↦ (record c { is_init = true; is_socket = false; sys_nonblock = false }, os)
    | some true ↦ (
      record c { is_init = true; is_socket = true; sys_nonblock = true },
      if not (S.is_nonblock os c.fd) then S.set_nonblock os c.fd else os,
    )
  ]

  -- The second part of `get`, with the write lock; the table grows to `fd * 1.5`, rounded down, and
  -- `none` is a write outside of it.
  unfoldable pub create_at : ℕ → FdManager → S.Os → Option (FdCtx × FdManager × S.Os)
  unfolding resize_datas init
  create_at fd m os =
      let table = if leb (length m) fd then resize_datas (fd * 3 / 2) m else m in
      let (c, os') = init (bare_fd_ctx fd) os in
      if ltb fd (length table) then some (c, set table fd (some c), os') else none

  -- `get` of a descriptor that is not -1: the pointer, the table and the system.
  unfoldable pub get : ℕ → Bool → FdManager → S.Os → Option (Option FdCtx × FdManager × S.Os)
  unfolding create_at
  get fd auto_create m os =
      let made = as_pointer (create_at fd m os) in
      if leb (length m) fd
      then (if not auto_create then some (none, m, os) else made)
      else if is_found (entry_at m fd) || not auto_create
      then some (entry_at m fd, m, os)
      else made

-- `del`.
unfoldable pub del : ℕ → FdManager → FdManager
del fd m = if leb (length m) fd then m else set m fd none
