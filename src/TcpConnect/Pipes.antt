-- ===== src/TcpConnect/Pipes.antt =====
-- The calls of src/buffer_pipe.c from src/net/tcp_connect.c, on a pipe at its address.
use eloop.Base.{
  ℕ, ◌+◌, ◌^◌, ◌<◌, ◌≤◌, ◌≡◌, ◌≢◌, refl, inl, inr, Option, some, List, ◌++◌, ne→==, eq→==, pos,
  length, take, drop, min, ◌-◌,
}
use eloop.Memory.{Ptr, null, ok, write}
use eloop.BufferPipe.{Pipe, Realloc, IsRealloc, bucket_length}
use eloop.BufferPipe.Valid.{IsValid, contents}
use eloop.BufferPipe.Queue.{IsPlentiful, not-IsRefused}
use eloop.BufferPipe.WriteHead.{buffer_pipe_write_head-prepend}
use eloop.BufferPipe.Read.{buffer_pipe_read-split}
use eloop.BufferPipe.Write.{buffer_pipe_write-append}
use eloop.World.{Memory, load_pipe, store_pipe}
use eloop.TcpConnect.{write_pipe, write_pipe_head, read_pipe, put_back}

-- The memory with other pipes.
abbrev pub with_pipes : Memory → (Ptr → Option Pipe) → Memory
with_pipes m f = record m { user = record (m.user) { pipe_at = f } }

-- The pipe at the address is `q`, all others are as they were.
pub record Refilled (m : Memory) (pipe : Ptr) (q : Pipe) (f : Ptr → Option Pipe) : Type 0 where
  pub here : f pipe ≡ some q
  pub others : (a : Ptr) → a ≢ pipe → f a ≡ m.user.pipe_at a

pub stored-Refilled :
    (m : Memory) (pipe : Ptr) (q : Pipe) → Refilled m pipe q (write m.user.pipe_at pipe (some q))
stored-Refilled m pipe q = record {
  here = rw (eq→== pipe pipe refl) refl;
  others = λ a k. rw (ne→== a pipe k) refl;
}

module _ {realloc : Realloc} (is : IsRealloc realloc) (plenty : IsPlentiful realloc) (pipe : Ptr)
    (pipe_ne : pipe ≢ null) where
  pub write_pipe-run :
      (m : Memory) (p : Pipe) (bytes : List ℕ) (n : ℕ)
      → m.user.pipe_at pipe ≡ some p
      → IsValid p
      → n ≤ length bytes
      → p.length + n + bucket_length < 2 ^ 64
      → (q : Pipe) × (write_pipe realloc pipe bytes n m
          ≡ ok (pos 0) (with_pipes m (write m.user.pipe_at pipe (some q))))
        × IsValid q
        × (contents q ≡ contents p ++ take n bytes)
        × (q.length ≡ p.length + n)
  unfolding write_pipe put_back load_pipe store_pipe
  write_pipe-run m p bytes n at v given fits =
      elim (buffer_pipe_write-append is bytes n v given fits) [
        | inl (q, run, v', e, l) ↦ (q, rw (ne→== pipe null pipe_ne, at, run) refl, v', e, l)
        | inr (run, refused) ↦ absurd (not-IsRefused is plenty refused)
      ]

  pub write_pipe_head-run :
      (m : Memory) (p : Pipe) (bytes : List ℕ) (n : ℕ)
      → m.user.pipe_at pipe ≡ some p
      → IsValid p
      → n ≤ length bytes
      → p.length + n + bucket_length < 2 ^ 64
      → (q : Pipe) × (write_pipe_head realloc pipe bytes n m
          ≡ ok (pos 0) (with_pipes m (write m.user.pipe_at pipe (some q))))
        × IsValid q
        × (contents q ≡ take n bytes ++ contents p)
        × (q.length ≡ p.length + n)
  unfolding write_pipe_head put_back load_pipe store_pipe
  write_pipe_head-run m p bytes n at v given fits =
      elim (buffer_pipe_write_head-prepend is bytes n v given fits) [
        | inl (q, run, v', e, l) ↦ (q, rw (ne→== pipe null pipe_ne, at, run) refl, v', e, l)
        | inr (run, refused) ↦ absurd (not-IsRefused is plenty refused)
      ]

pub read_pipe-run :
    (m : Memory) (pipe : Ptr) (p : Pipe) (n : ℕ)
    → pipe ≢ null
    → m.user.pipe_at pipe ≡ some p
    → IsValid p
    → (q : Pipe) × (read_pipe pipe n m
        ≡ ok
            (min n p.length, take n (contents p))
            (with_pipes m (write m.user.pipe_at pipe (some q))))
      × IsValid q
      × (contents q ≡ drop n (contents p))
      × (q.length ≡ p.length - n)
unfolding read_pipe put_back load_pipe store_pipe
read_pipe-run m pipe p n ne at v =
    let (q, run, v', e, l) = buffer_pipe_read-split v n in
    (q, rw (ne→== pipe null ne, at, run) refl, v', e, l)
