-- ===== src/Net.antt =====
-- src/net/net.c on Linux. What the operating system answers is a parameter. The texts about errors
-- and the socket addresses are left out.
pub mod Sockets
mod Tests
use Prim.Native.Nat.{bit_and, bit_or}
use eloop.Base.{
  ℕ, zero, suc, Bool, true, false, not, ◌||◌, Option, none, some, List, ◌∷◌, ◌++◌, ◌==◌,
  if◌then◌else◌, ℤ, pos, negsuc, minus_one, eqb_ℤ, take,
}
use eloop.Memory.{out_of_fuel, ok, pure, ◌>>=◌, ◌>>◌}
use eloop.World.{Prog}
use eloop.EventChannel.{complement}

-- The level of setsockopt that the code names, for all its options.
pub data Level : Type 0 where
  ipproto_tcp : Level

-- The options of setsockopt that the code sets.
pub data SockOpt : Type 0 where
  so_reuseaddr tcp_nodelay : SockOpt

-- The ends of shutdown.
pub data How : Type 0 where
  shut_rd shut_wr : How

-- What recv returns, and the memory at `buffer` after the call.
pub record Received : Type 0 where
  pub count : ℤ
  pub buffer : List ℕ

-- The answers of the operating system, by the descriptor and the other arguments.
pub record System : Type 0 where
  pub socket : ℤ
  pub connect : ℤ → ℤ
  pub bind : ℤ → ℤ
  pub listen : ℤ → ℤ → ℤ
  pub accept : ℤ → ℤ
  pub sin_port : ℕ
  pub o_nonblock : ℕ
  pub f_getfl : ℤ → ℕ
  pub f_setfl : ℤ → ℕ → ℤ
  pub setsockopt : ℤ → Level → SockOpt → ℕ → ℤ
  pub shutdown : ℤ → How → ℤ

-- The descriptor comes in and goes out as the result; the code's own result is 0.
unfoldable pub net_fd_close : ℤ → Prog ℤ
net_fd_close fd m =
    ok minus_one (record m { user = record (m.user) { closed = fd ∷ m.user.closed } })

-- The numbers of the errors that the code names.
abbrev pub eintr : ℕ
eintr = 4

abbrev pub eagain : ℕ
eagain = 11

-- `errno` is its value at the call.
abbrev pub net_get_last_error : (errno : ℕ) → ℕ
net_get_last_error errno = if (errno == eintr) || (errno == eagain) then eagain else 0

-- The result, the buffer and the value of `*error`, from what recv and `errno` are.
abbrev pub net_fd_read : Received → (errno : ℕ) → ℤ × List ℕ × ℕ
net_fd_read r errno = (r.count, r.buffer, if eqb_ℤ r.count minus_one then errno else 0)

abbrev pub taken : ℤ → List ℕ → List ℕ
taken (pos n) buffer = take n buffer
taken (negsuc n) buffer = take 0 buffer

-- `ret` is what send returns: so many bytes have gone out.
unfoldable pub net_fd_write : (ret : ℤ) → (buffer : List ℕ) → Prog ℤ
net_fd_write ret buffer m =
    ok ret (record m { user = record (m.user) { sent = m.user.sent ++ taken ret buffer } })

module _ (sys : System) where
  abbrev pub net_fd_shutdown_read : ℤ → ℤ
  net_fd_shutdown_read fd = sys.shutdown fd shut_rd

  abbrev pub net_fd_shutdown_write : ℤ → ℤ
  net_fd_shutdown_write fd = sys.shutdown fd shut_wr

  abbrev pub net_fd_set_block_direct : ℤ → Bool → ℤ
  net_fd_set_block_direct fd is_block =
      let flags = sys.f_getfl fd in
      sys.f_setfl fd (
        if is_block then bit_and flags (complement sys.o_nonblock) else bit_or flags sys.o_nonblock)

  abbrev pub net_fd_set_block : ℤ → ℤ
  net_fd_set_block fd = net_fd_set_block_direct fd true

  abbrev pub net_fd_set_noblock : ℤ → ℤ
  net_fd_set_noblock fd = net_fd_set_block_direct fd false

  -- The tests of setsockopt in the three functions below.
  abbrev set_option : ℤ → SockOpt → ℕ → ℤ
  set_option fd option value =
      if eqb_ℤ (sys.setsockopt fd ipproto_tcp option value) minus_one then minus_one else pos 0

  abbrev pub net_tcp_set_reuse : ℤ → ℤ
  net_tcp_set_reuse fd = set_option fd so_reuseaddr 1

  abbrev pub net_tcp_set_delay : ℤ → ℤ
  net_tcp_set_delay fd = set_option fd tcp_nodelay 0

  abbrev pub net_tcp_set_nodelay : ℤ → ℤ
  net_tcp_set_nodelay fd = set_option fd tcp_nodelay 1

  unfoldable pub net_tcp_connect : Prog ℤ
  net_tcp_connect =
      let fd = sys.socket in
      if eqb_ℤ fd minus_one
      then pure minus_one
      else if eqb_ℤ (sys.connect fd) minus_one
      then net_fd_close fd
      else pure fd

  unfoldable pub net_tcp_server : (backlog : ℤ) → Prog ℤ
  net_tcp_server backlog =
      let fd = sys.socket in
      if eqb_ℤ fd minus_one
      then pure minus_one
      else if not (eqb_ℤ (net_fd_set_noblock fd) (pos 0))
      then net_fd_close fd
      else (do
        pure (net_tcp_set_reuse fd)
        if eqb_ℤ (sys.bind fd) minus_one
            then net_fd_close fd
            else if eqb_ℤ (sys.listen fd backlog) minus_one
            then net_fd_close fd
            else pure fd)

  -- The code from `LOOP` on, with the number of rounds left: the result, and the value of `*port`
  -- where it is written.
  unfoldable pub accept_loop : ℕ → (client_fd : ℤ) → Prog (ℤ × Option ℕ)
  accept_loop zero client_fd = λ _. out_of_fuel
  accept_loop (suc fuel) client_fd =
      if eqb_ℤ client_fd minus_one
      then pure (client_fd, none)
      else if not (eqb_ℤ (net_fd_set_noblock client_fd) (pos 0))
      then (do net_fd_close client_fd; accept_loop fuel minus_one)
      else pure (client_fd, some sys.sin_port)

  unfoldable pub net_tcp_accept : ℕ → (fd : ℤ) → Prog (ℤ × Option ℕ)
  net_tcp_accept fuel fd = accept_loop fuel (sys.accept fd)
