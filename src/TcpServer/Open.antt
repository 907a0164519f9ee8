-- ===== src/TcpServer/Open.antt =====
-- `tcp_server_open` of src/net/tcp_server.c leaks neither memory nor a socket.
use eloop.Base.{
  ◌≡◌, ◌≢◌, refl, ◌⊎◌, inl, inr, true, false, Option, none, some, ne→==, eq→==, ℤ, pos, minus_one,
  eqb_ℤ,
}
use eloop.Memory.{Ptr, null, ok, write}
use eloop.World.{Memory, store_server}
use eloop.Net.{System}
use eloop.Net.Sockets.{after_close, is_ready, net_tcp_server-closed}
use eloop.TcpServer.{tcp_server_open}

-- The memory with other servers.
abbrev pub with_servers : Memory → (Ptr → Option ℤ) → Memory
with_servers m f = record m { user = record (m.user) { server_at = f } }

-- At the address lies `s`, and all else is as it was.
pub record Served (m : Memory) (a : Ptr) (s : Option ℤ) (f : Ptr → Option ℤ) : Type 0 where
  pub here : f a ≡ s
  pub others : (b : Ptr) → b ≢ a → f b ≡ m.user.server_at b

module _ (sys : System) (m : Memory) (fresh : Ptr) (ne : fresh ≢ null) (backlog : ℤ) where
  abbrev first : Ptr → Option ℤ
  first = write m.user.server_at fresh (some (pos 0))

  abbrev failed : Ptr → Option ℤ
  failed = write (write first fresh (some minus_one)) fresh none

  failed-Served : Served m fresh none failed
  failed-Served = record {
    here = rw (eq→== fresh fresh refl) refl;
    others = λ b k. rw (ne→== b fresh k) refl;
  }

  -- `tcp_server_open` with memory for the server: a server with the socket, which stays open, if it
  -- could be made non-blocking, bound and listened on. Otherwise the result is NULL, the memory of the
  -- server has been given back, and a socket that was opened has been closed, once.
  pub tcp_server_open-closed :
      (f : Ptr → Option ℤ) × (((sys.socket ≡ minus_one)
          × (tcp_server_open sys fresh backlog m ≡ ok null (with_servers m f))
          × Served m fresh none f)
        ⊎ ((is_ready sys backlog sys.socket ≡ true)
            × (eqb_ℤ sys.socket minus_one ≡ false)
            × (tcp_server_open sys fresh backlog m ≡ ok fresh (with_servers m f))
            × Served m fresh (some sys.socket) f)
        ⊎ ((is_ready sys backlog sys.socket ≡ false)
            × (tcp_server_open sys fresh backlog m
                ≡ ok null (after_close sys.socket (with_servers m f)))
            × Served m fresh none f))
  unfolding tcp_server_open store_server
  tcp_server_open-closed = elim (net_tcp_server-closed sys (with_servers m first) backlog) [
    | inl (e, run) ↦ (failed, inl (e, rw (ne→== fresh null ne, run) refl, failed-Served))
    | inr (inl (ready, opened, run)) ↦ (
      write first fresh (some sys.socket),
      inr (
          inl (
            ready,
            opened,
            rw (ne→== fresh null ne, run, opened) refl,
            record {
              here = rw (eq→== fresh fresh refl) refl;
              others = λ b k. rw (ne→== b fresh k) refl;
            },
          )),
    )
    | inr (inr (unready, run)) ↦
        (failed, inr (inr (unready, rw (ne→== fresh null ne, run) refl, failed-Served)))
  ]
