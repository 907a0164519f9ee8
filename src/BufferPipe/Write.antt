-- ===== src/BufferPipe/Write.antt =====
-- `buffer_pipe_write` and `buffer_pipe_write_head`: where the bytes go, and when memory runs out.
use eloop.Base.{
  ℕ, ◌+◌, ◌^◌, ◌≤◌, ◌<◌, ◌≡◌, ap, ◌∙◌, ◌⊎◌, inl, inr, some, List, ◌++◌, pos, minus_one, arith,
  length, take, drop, length-take, take_eq,
}
use eloop.BufferPipe.{Pipe, Realloc, IsRealloc, bucket_length, add_size, buffer_pipe_write}
use eloop.BufferPipe.Blocks.{load_at-ok, store_at-ok, length-stored, take-stored}
use eloop.BufferPipe.Valid.{IsValid, contents, HasRoom, IsRefused, make_room-HasRoom}

module _ {realloc : Realloc} (is : IsRealloc realloc) {p : Pipe} (bytes : List ℕ) (n : ℕ)
    (v : IsValid p) (given : n ≤ length bytes) (fits : p.length + n + bucket_length < 2 ^ 64) where
  length-src : length (take n bytes) ≡ n
  length-src = omega (arith, length-take n bytes)

  module _ (q : Pipe) (h : HasRoom p n q) where
    -- The block when the bytes are in, behind the old ones.
    abbrev back : List ℕ
    back =
        take q.length q.block ++ (take n bytes ++ drop (q.length + length (take n bytes)) q.block)

    room : q.length + length (take n bytes) ≤ length q.block
    room = omega (arith, length-src, h.room, h.length_same, h.valid.block_size)

    new_size : add_size q.length n ≡ q.length + length (take n bytes)
    new_size = omega (arith, length-src, h.room, h.length_same, h.valid.small)

    abbrev written : Pipe
    written = record q { block = back; length = add_size q.length n }

    written-IsValid : IsValid written
    written-IsValid = record {
      block_size = length-stored q.block q.length (take n bytes) room ∙ h.valid.block_size;
      in_block = omega (arith, new_size, room, h.valid.block_size);
      small = h.valid.small;
    }

    contents-written : contents written ≡ contents p ++ take n bytes
    contents-written =
        take_eq back new_size
        ∙ take-stored q.block q.length (take n bytes) room
        ∙ ap (λ r. r ++ take n bytes) h.contents_same

  -- `buffer_pipe_write` of `n` bytes to a valid pipe, where the caller has given at least `n` and the
  -- length of the pipe, `n` and a bucket add up to less than 2 ^ 64: no access is outside a block, and
  -- the call returns 0 and the pipe is valid and holds its bytes followed by the new ones, or it
  -- returns -1, since the block had to grow and realloc refused, and the pipe is as it was.
  pub buffer_pipe_write-append :
      ((q : Pipe) × (buffer_pipe_write realloc p bytes n ≡ some (pos 0, q))
        × IsValid q
        × (contents q ≡ contents p ++ take n bytes)
        × (q.length ≡ p.length + n))
      ⊎ ((buffer_pipe_write realloc p bytes n ≡ some (minus_one, p)) × IsRefused realloc p n)
  unfolding buffer_pipe_write
  buffer_pipe_write-append = elim (make_room-HasRoom is n v fits) [
    | inl (q, e, h) ↦ inl (
      written q h,
      rw (
        e,
        load_at-ok bytes 0 n (omega arith),
        store_at-ok q.block q.length (take n bytes) (room q h),
      ),
      written-IsValid q h,
      contents-written q h,
      omega (arith, new_size q h, length-src, h.length_same),
    )
    | inr (e, r) ↦ inr (rw e, r)
  ]
