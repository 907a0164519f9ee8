-- ===== src/BufferPipe/WriteHead.antt =====
-- `buffer_pipe_write_head`: the old bytes move back, the new ones come in front.
use eloop.Base.{
  ℕ, ◌+◌, ◌^◌, ◌≤◌, ◌<◌, ◌≡◌, sym, ap, ◌∙◌, ◌⊎◌, inl, inr, some, List, ◌++◌, append_assoc, pos,
  minus_one, arith, length, take, drop, length-take, length-append, take_eq, take_exact, drop_exact,
}
use eloop.BufferPipe.{
  Pipe, Realloc, IsRealloc, bucket_length, add_size, memmove, buffer_pipe_write_head,
}
use eloop.BufferPipe.Blocks.{load_at-ok, store_at-ok, length-stored}
use eloop.BufferPipe.Valid.{IsValid, contents, HasRoom, IsRefused, make_room-HasRoom}

module _ {realloc : Realloc} (is : IsRealloc realloc) {p : Pipe} (bytes : List ℕ) (n : ℕ)
    (v : IsValid p) (given : n ≤ length bytes) (fits : p.length + n + bucket_length < 2 ^ 64) where
  length-src : length (take n bytes) ≡ n
  length-src = omega (arith, length-take n bytes)

  module _ (q : Pipe) (h : HasRoom p n q) where
    abbrev old : List ℕ
    old = take q.length q.block

    length-old : length old ≡ q.length
    length-old = omega (arith, length-take q.length q.block, h.valid.in_block, h.valid.block_size)

    -- The block after each of the two memmoves.
    abbrev moved : List ℕ
    moved = take n q.block ++ (old ++ drop (n + length old) q.block)

    abbrev front : List ℕ
    front = take 0 moved ++ (take n bytes ++ drop (0 + length (take n bytes)) moved)

    room : n + length old ≤ length q.block
    room = omega (arith, length-old, h.room, h.length_same, h.valid.block_size)

    length-moved : length moved ≡ length q.block
    length-moved = length-stored q.block n old room

    room_front : 0 + length (take n bytes) ≤ length moved
    room_front = omega (arith, length-moved, room, length-src)

    new_size : add_size q.length n ≡ n + q.length
    new_size = omega (arith, h.room, h.length_same, h.valid.small)

    abbrev written : Pipe
    written = record q { block = front; length = add_size q.length n }

    written-IsValid : IsValid written
    written-IsValid = record {
      block_size =
          length-stored moved 0 (take n bytes) room_front ∙ length-moved ∙ h.valid.block_size;
      in_block = omega (arith, new_size, room, length-old, h.valid.block_size);
      small = h.valid.small;
    }

    rest : drop (0 + length (take n bytes)) moved ≡ old ++ drop (n + length old) q.block
    rest =
        drop_exact (0 + length (take n bytes)) (take n q.block) _
          (omega (arith, length-take n q.block, length-src, room))

    contents-written : contents written ≡ take n bytes ++ contents p
    contents-written =
        take_eq front new_size
        ∙ ap (λ r. take (n + q.length) (take n bytes ++ r)) rest
        ∙ ap (take (n + q.length)) (sym (append_assoc (take n bytes) old _))
        ∙ take_exact (n + q.length) (take n bytes ++ old) _
            (omega (arith, length-append (take n bytes) old, length-src, length-old))
        ∙ ap (λ r. take n bytes ++ r) h.contents_same

    memmove-run : memmove q.block n 0 q.length ≡ some moved
    unfolding memmove
    memmove-run = rw (
      load_at-ok q.block 0 q.length (omega (arith, h.valid.in_block, h.valid.block_size)),
      store_at-ok q.block n old room,
    )

  -- `buffer_pipe_write_head` of `n` bytes to a valid pipe, where the caller has given at least `n` and
  -- the length of the pipe, `n` and a bucket add up to less than 2 ^ 64: no access is outside a block,
  -- and the call returns 0 and the pipe is valid and holds the new bytes followed by its own, or it
  -- returns -1, since the block had to grow and realloc refused, and the pipe is as it was.
  pub buffer_pipe_write_head-prepend :
      ((q : Pipe) × (buffer_pipe_write_head realloc p bytes n ≡ some (pos 0, q))
        × IsValid q
        × (contents q ≡ take n bytes ++ contents p)
        × (q.length ≡ p.length + n))
      ⊎ ((buffer_pipe_write_head realloc p bytes n ≡ some (minus_one, p)) × IsRefused realloc p n)
  unfolding buffer_pipe_write_head
  buffer_pipe_write_head-prepend = elim (make_room-HasRoom is n v fits) [
    | inl (q, e, h) ↦ inl (
      written q h,
      rw (
        e,
        memmove-run q h,
        load_at-ok bytes 0 n (omega arith),
        store_at-ok (moved q h) 0 (take n bytes) (room_front q h),
      ),
      written-IsValid q h,
      contents-written q h,
      omega (arith, new_size q h, h.length_same),
    )
    | inr (e, r) ↦ inr (rw e, r)
  ]
