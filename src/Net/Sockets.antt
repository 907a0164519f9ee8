-- ===== src/Net/Sockets.antt =====
-- `net_tcp_server` and `net_tcp_accept` of src/net/net.c leak no socket.
use eloop.Base.{
  ℕ, suc, ◌≡◌, ◌≢◌, refl, ◌⊎◌, Bool, Bool-cases, true, false, inl, inr, not, none, some, ◌∷◌,
  if◌then◌else◌, ℤ, pos, minus_one, eqb_ℤ, eqb_ℤ→eq, arith,
}
use eloop.Memory.{ok}
use eloop.World.{Memory}
use eloop.Net.{
  System, net_fd_close, net_fd_set_noblock, net_tcp_server, accept_loop, net_tcp_accept,
}

-- The memory after `close(fd)`.
abbrev pub after_close : ℤ → Memory → Memory
after_close fd m = record m { user = record (m.user) { closed = fd ∷ m.user.closed } }

-- The three steps from a socket to a server, as the code tests them.
abbrev pub is_ready : System → (backlog fd : ℤ) → Bool
is_ready sys backlog fd =
    if eqb_ℤ (net_fd_set_noblock sys fd) (pos 0)
    then (if eqb_ℤ (sys.bind fd) minus_one
        then false
        else not (eqb_ℤ (sys.listen fd backlog) minus_one))
    else false

module _ (sys : System) (m : Memory) where
  -- `net_tcp_server`: the socket, which stays open, if it could be made non-blocking, bound and
  -- listened on. Otherwise the result is -1, and a socket that was opened has been closed, once.
  pub net_tcp_server-closed :
      (backlog : ℤ)
      → ((sys.socket ≡ minus_one) × (net_tcp_server sys backlog m ≡ ok minus_one m))
        ⊎ ((is_ready sys backlog sys.socket ≡ true)
            × (eqb_ℤ sys.socket minus_one ≡ false)
            × (net_tcp_server sys backlog m ≡ ok sys.socket m))
        ⊎ ((is_ready sys backlog sys.socket ≡ false)
            × (net_tcp_server sys backlog m ≡ ok minus_one (after_close sys.socket m)))
  unfolding net_tcp_server net_fd_close
  net_tcp_server-closed backlog = elim (Bool-cases (eqb_ℤ sys.socket minus_one)) [
    | inl failed ↦ inl (eqb_ℤ→eq sys.socket minus_one failed, rw failed refl)
    | inr opened ↦ elim (Bool-cases (eqb_ℤ (net_fd_set_noblock sys sys.socket) (pos 0))) [
      | inl set ↦ elim (Bool-cases (eqb_ℤ (sys.bind sys.socket) minus_one)) [
        | inl b ↦ inr (inr (rw (set, b) refl, rw (opened, set, b) refl))
        | inr b ↦ elim (Bool-cases (eqb_ℤ (sys.listen sys.socket backlog) minus_one)) [
          | inl l ↦ inr (inr (rw (set, b, l) refl, rw (opened, set, b, l) refl))
          | inr l ↦ inr (inl (rw (set, b, l) refl, opened, rw (opened, set, b, l) refl))
        ]
      ]
      | inr set ↦ inr (inr (rw set refl, rw (opened, set) refl))
    ]
  ]

  -- `net_tcp_accept`, for any number of rounds from two on: -1 if there was no connection. Otherwise
  -- the descriptor, which stays open, with the port, if it could be made non-blocking, and -1 with
  -- the descriptor closed once if it could not.
  pub net_tcp_accept-closed :
      (more : ℕ) (fd : ℤ)
      → ((sys.accept fd ≡ minus_one)
          × (net_tcp_accept sys (suc (suc more)) fd m ≡ ok (minus_one, none) m))
        ⊎ ((net_fd_set_noblock sys (sys.accept fd) ≡ pos 0)
            × (net_tcp_accept sys (suc (suc more)) fd m ≡ ok (sys.accept fd, some sys.sin_port) m))
        ⊎ ((net_fd_set_noblock sys (sys.accept fd) ≢ pos 0)
            × (net_tcp_accept sys (suc (suc more)) fd m
                ≡ ok (minus_one, none) (after_close (sys.accept fd) m)))
  unfolding net_tcp_accept accept_loop net_fd_close
  net_tcp_accept-closed more fd = elim (Bool-cases (eqb_ℤ (sys.accept fd) minus_one)) [
    | inl failed ↦ let e = eqb_ℤ→eq (sys.accept fd) minus_one failed in inl (e, rw e refl)
    | inr opened ↦ elim (Bool-cases (eqb_ℤ (net_fd_set_noblock sys (sys.accept fd)) (pos 0))) [
      | inl set ↦ inr (inl (eqb_ℤ→eq _ (pos 0) set, rw (opened, set) refl))
      | inr set ↦ inr (inr (ground arith, rw (opened, set) refl))
    ]
  ]
