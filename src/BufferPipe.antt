-- ===== src/BufferPipe.antt =====
-- src/buffer_pipe.c: a growing byte buffer. A function that changes `*pipe` returns the new pipe
-- beside its result; `none` is an access outside a block. `realloc` is a parameter.
pub mod Valid
pub mod Blocks
pub mod Write
pub mod WriteHead
pub mod Read
pub mod Find
pub mod Queue
pub mod Zeros
mod Tests
use eloop.Base.{
  ℕ, zero, suc, ◌+◌, ◌-◌, ◌%◌, ◌^◌, ◌≤◌, ◌≡◌, Option, none, some, List, [], ◌++◌, ◌==◌, ltb, leb,
  if◌then◌else◌, ℤ, pos, minus_one, eqb_ℤ, length, take, drop, get_elem?, min,
}

-- `struct buffer_pipe`: `block` is the memory at `data`, and [] where `data` is NULL.
pub record Pipe : Type 0 where
  pub block : List ℕ
  pub length : ℕ
  pub actual_length : ℕ

abbrev pub bucket_length : ℕ
bucket_length = 4096

-- `size_t` addition.
abbrev pub add_size : ℕ → ℕ → ℕ
add_size a b = (a + b) % 2 ^ 64

-- `realloc(block, size)`: the new block, or `none` for NULL.
abbrev pub Realloc : Type 0
Realloc = List ℕ → ℕ → Option (List ℕ)

-- What C promises of realloc: a block of the size asked for, with the old bytes up to the lesser
-- of the two sizes.
pub record IsRealloc (realloc : Realloc) : Type 0 where
  pub size : (b : List ℕ) (n : ℕ) {c : List ℕ} → realloc b n ≡ some c → length c ≡ n
  pub bytes :
      (b : List ℕ) (n : ℕ) {c : List ℕ}
      → realloc b n ≡ some c
      → take (min (length b) n) c ≡ take (min (length b) n) b

infixl 5 ◌>>=◌
abbrev pub ◌>>=◌ {ℓ κ} : {A : Type ℓ} {B : Type κ} → Option A → (A → Option B) → Option B
none >>= f = none
some a >>= f = f a

-- The `n` bytes at `block + at`, and a write of `bytes` there: the two halves of memmove.
unfoldable pub load_at : List ℕ → (at n : ℕ) → Option (List ℕ)
load_at b at n = if leb (at + n) (length b) then some (take n (drop at b)) else none

unfoldable pub store_at : List ℕ → (at : ℕ) → List ℕ → Option (List ℕ)
store_at b at bytes =
    if leb (at + length bytes) (length b)
    then some (take at b ++ (bytes ++ drop (at + length bytes) b))
    else none

-- `memmove(block + to, block + from, n)`.
unfoldable pub memmove : List ℕ → (to from n : ℕ) → Option (List ℕ)
memmove b to from n = do bytes ← load_at b from n; store_at b to bytes

unfoldable pub buffer_pipe_create : Pipe
buffer_pipe_create = record { block = []; length = 0; actual_length = 0 }

unfoldable pub buffer_pipe_get_length : Pipe → ℕ
buffer_pipe_get_length p = p.length

unfoldable pub buffer_pipe_expand : Realloc → Pipe → ℕ → ℤ × Pipe
buffer_pipe_expand realloc p n =
    let new_length = add_size (add_size p.length n) bucket_length in
    elim (realloc p.block new_length) [
      | none ↦ (minus_one, p)
      | some new_addr ↦ (pos 0, record p { block = new_addr; actual_length = new_length })
    ]

-- The test and the call that both writes begin with.
unfoldable pub make_room : Realloc → Pipe → ℕ → ℤ × Pipe
make_room realloc p n =
    if ltb p.actual_length (add_size p.length n) then buffer_pipe_expand realloc p n else (pos 0, p)

-- `bytes` is the memory at the caller's `data`.
unfoldable pub buffer_pipe_write : Realloc → Pipe → List ℕ → ℕ → Option (ℤ × Pipe)
buffer_pipe_write realloc p bytes n =
    let (ret, q) = make_room realloc p n in
    if eqb_ℤ ret (pos 0)
    then (do
      src ← load_at bytes 0 n
      block ← store_at q.block q.length src
      some (ret, record q { block = block; length = add_size q.length n }))
    else some (ret, q)

unfoldable pub buffer_pipe_write_head : Realloc → Pipe → List ℕ → ℕ → Option (ℤ × Pipe)
buffer_pipe_write_head realloc p bytes n =
    let (ret, q) = make_room realloc p n in
    if eqb_ℤ ret (pos 0)
    then (do
      moved ← memmove q.block n 0 q.length
      src ← load_at bytes 0 n
      block ← store_at moved 0 src
      some (ret, record q { block = block; length = add_size q.length n }))
    else some (ret, q)

-- The number of bytes read, the bytes that go to the caller's buffer, and the pipe.
unfoldable pub buffer_pipe_read : Pipe → ℕ → Option (ℕ × List ℕ × Pipe)
buffer_pipe_read p n =
    let ret = (if ltb p.length n then p.length else n) in
    if ltb 0 ret
    then (do
      out ← load_at p.block 0 ret
      block ← memmove p.block 0 ret (p.length - ret)
      some (ret, out, record p { block = block; length = p.length - ret }))
    else some (ret, [], p)

-- The loop, with the number of rounds left; `at` is the value of `*pos` before the call.
find_loop : ℕ → Pipe → ℕ → ℕ → ℕ → Option (ℤ × ℕ)
find_loop zero p mark i at = some (minus_one, at)
find_loop (suc rounds) p mark i at =
    let rest = find_loop rounds p mark (i + 1) at in
    elim (get_elem? p.block i) [
      | none ↦ none
      | some c ↦ if c == mark then some (pos 0, i) else rest
    ]

unfoldable pub buffer_pipe_find_chr : Pipe → (mark at : ℕ) → Option (ℤ × ℕ)
unfolding find_loop
buffer_pipe_find_chr p mark at = find_loop p.length p mark 0 at
