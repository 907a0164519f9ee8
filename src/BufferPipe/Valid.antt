-- ===== src/BufferPipe/Valid.antt =====
-- The invariant of a pipe, and what making room for a write does.
use eloop.Base.{
  ℕ, ◌+◌, ◌^◌, ◌≤◌, ◌<◌, ◌≡◌, refl, sym, ap, ◌∙◌, ◌⊎◌, inl, inr, none, some, List, [], arith,
  Option-cases, Bool-cases, ltb, pos, minus_one, length, take, min, take-take,
}
use eloop.BufferPipe.{
  Pipe, Realloc, IsRealloc, bucket_length, add_size, buffer_pipe_create, buffer_pipe_expand,
  make_room,
}

-- The block has the size that the pipe remembers, and the bytes fit in it.
pub record IsValid (p : Pipe) : Type 0 where
  pub block_size : length p.block ≡ p.actual_length
  pub in_block : p.length ≤ p.actual_length
  pub small : p.actual_length < 2 ^ 64

-- The bytes that the pipe holds, oldest first.
abbrev pub contents : Pipe → List ℕ
contents p = take p.length p.block

pub create-IsValid : IsValid buffer_pipe_create × (contents buffer_pipe_create ≡ [])
unfolding buffer_pipe_create
create-IsValid = (record { block_size = refl; in_block = omega arith; small = omega arith }, refl)

-- A pipe with room for `n` more bytes and the same contents.
pub record HasRoom (p : Pipe) (n : ℕ) (q : Pipe) : Type 0 where
  pub valid : IsValid q
  pub length_same : q.length ≡ p.length
  pub contents_same : contents q ≡ contents p
  pub room : p.length + n ≤ q.actual_length

-- Memory ran out: the block had to grow, and realloc refused.
pub record IsRefused (realloc : Realloc) (p : Pipe) (n : ℕ) : Type 0 where
  pub full : p.actual_length < p.length + n
  pub refused : realloc p.block (p.length + n + bucket_length) ≡ none

module _ {realloc : Realloc} (is : IsRealloc realloc) {p : Pipe} (n : ℕ) (v : IsValid p)
    (fits : p.length + n + bucket_length < 2 ^ 64) where
  new_length : add_size (add_size p.length n) bucket_length ≡ p.length + n + bucket_length
  new_length = omega arith

  expand-HasRoom :
      (c : List ℕ)
      → realloc p.block (p.length + n + bucket_length) ≡ some c
      → HasRoom p n (record p { block = c; actual_length = p.length + n + bucket_length })
  expand-HasRoom c e = record {
    valid = record { block_size = is.size p.block _ e; in_block = omega arith; small = fits };
    length_same = refl;
    contents_same =
        sym (
          take-take p.length (min (length p.block) (p.length + n + bucket_length)) c
            (omega (arith, v.in_block, v.block_size)))
        ∙ ap (take p.length) (is.bytes p.block _ e)
        ∙ take-take p.length _ p.block (omega (arith, v.in_block, v.block_size));
    room = omega arith;
  }

  -- `buffer_pipe_expand`: the call returns 0 and the pipe has room for `n` more bytes and the same
  -- contents, or it returns -1, since realloc refused, and the pipe is as it was.
  buffer_pipe_expand-HasRoom :
      ((q : Pipe) × (buffer_pipe_expand realloc p n ≡ (pos 0, q)) × HasRoom p n q)
      ⊎ ((buffer_pipe_expand realloc p n ≡ (minus_one, p))
          × (realloc p.block (p.length + n + bucket_length) ≡ none))
  unfolding buffer_pipe_expand
  buffer_pipe_expand-HasRoom =
      elim (Option-cases (realloc p.block (p.length + n + bucket_length))) [
        | inl e ↦ inr (rw (new_length, e, buffer_pipe_expand), e)
        | inr (c, e) ↦ inl (
          _,
          rw (new_length, e, buffer_pipe_expand)
              (ap (λ k. (pos 0, record p { block = c; actual_length = k })) new_length),
          expand-HasRoom c e,
        )
      ]

  pub make_room-HasRoom :
      ((q : Pipe) × (make_room realloc p n ≡ (pos 0, q)) × HasRoom p n q)
      ⊎ ((make_room realloc p n ≡ (minus_one, p)) × IsRefused realloc p n)
  unfolding make_room
  make_room-HasRoom = elim (Bool-cases (ltb p.actual_length (add_size p.length n))) [
    | inl more ↦ elim buffer_pipe_expand-HasRoom [
      | inl (q, e, h) ↦ inl (q, rw more e, h)
      | inr (e, h) ↦ inr (rw more e, record { full = ground arith; refused = h })
    ]
    | inr enough ↦ inl (
      p,
      rw enough,
      record { valid = v; length_same = refl; contents_same = refl; room = ground arith },
    )
  ]
