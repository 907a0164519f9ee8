-- ===== src/TcpServer.antt =====
-- src/net/tcp_server.c.
pub mod Open
mod Tests
use eloop.Base.{ℕ, none, some, ◌==◌, if◌then◌else◌, ℤ, pos, minus_one, eqb_ℤ}
use eloop.Memory.{Ptr, null, fault, pure, ◌>>=◌, ◌>>◌}
use eloop.World.{Prog, load_server, store_server}
use eloop.Net.{System, net_tcp_server}

-- `fresh` is the address that calloc returns.
unfoldable pub tcp_server_open : System → (fresh : Ptr) → (backlog : ℤ) → Prog Ptr
tcp_server_open sys fresh backlog = if fresh == null then pure null else do
  store_server fresh (some (pos 0))
  fd ← net_tcp_server sys backlog
  store_server fresh (some fd)
  if eqb_ℤ fd minus_one then (do store_server fresh none; pure null) else pure fresh

-- `net_fd_close` is given the descriptor in place of the address of one, and no descriptor lies
-- there.
unfoldable pub tcp_server_close : Ptr → Prog Ptr
tcp_server_close server = if server == null then pure null else (do load_server server; λ _. fault)

unfoldable pub tcp_server_get_fd : Ptr → Prog ℤ
tcp_server_get_fd server = load_server server
