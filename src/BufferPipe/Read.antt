-- ===== src/BufferPipe/Read.antt =====
-- `buffer_pipe_read` and `buffer_pipe_find_chr` against the bytes that the pipe holds.
use eloop.Base.{
  ℕ, ◌+◌, ◌-◌, ◌≤◌, ◌<◌, ◌≡◌, sym, ap, ap₂, ◌∙◌, inl, inr, Bool-cases, true, some, List, ◌++◌, ltb,
  arith, length, take, drop, min, length-take, length-drop, take_eq, take-min, drop-min, take_exact,
  drop-take, if◌then◌else◌,
}
use eloop.BufferPipe.{Pipe, memmove, buffer_pipe_read}
use eloop.BufferPipe.Blocks.{load_at-ok, store_at-ok, length-stored}
use eloop.BufferPipe.Valid.{IsValid, contents}

module _ {p : Pipe} (v : IsValid p) where
  pub length-contents : length (contents p) ≡ p.length
  length-contents = omega (arith, length-take p.length p.block, v.in_block, v.block_size)

  module _ (r : ℕ) (h : r ≤ p.length) where
    -- The bytes that stay, and the block when they have moved to the front.
    abbrev kept : List ℕ
    kept = take (p.length - r) (drop r p.block)

    abbrev moved : List ℕ
    moved = take 0 p.block ++ (kept ++ drop (0 + length kept) p.block)

    length-kept : length kept ≡ p.length - r
    length-kept = omega (
      arith,
      length-take (p.length - r) (drop r p.block),
      length-drop r p.block,
      v.in_block,
      v.block_size,
    )

    room : 0 + length kept ≤ length p.block
    room = omega (arith, length-kept, v.in_block, v.block_size)

    memmove-run : memmove p.block 0 r (p.length - r) ≡ some moved
    unfolding memmove
    memmove-run = rw (
      load_at-ok p.block r (p.length - r) (omega (arith, v.in_block, v.block_size)),
      store_at-ok p.block 0 kept room,
    )

    abbrev rest : Pipe
    rest = record p { block = moved; length = p.length - r }

    rest-IsValid : IsValid rest
    rest-IsValid = record {
      block_size = length-stored p.block 0 kept room ∙ v.block_size;
      in_block = omega (arith, v.in_block);
      small = v.small;
    }

    contents-rest : contents rest ≡ drop r (contents p)
    contents-rest =
        take_exact (p.length - r) kept _ length-kept ∙ sym (drop-take r p.length p.block)

    read-run :
        0 < r
        → (n : ℕ) → (if ltb p.length n then p.length else n) ≡ r
        → buffer_pipe_read p n ≡ some (r, take r p.block, rest)
    unfolding buffer_pipe_read
    read-run some_bytes n e =
        let t : ltb 0 r ≡ true = ground arith in
        rw (e, t, load_at-ok p.block 0 r (omega (arith, v.in_block, v.block_size)), memmove-run)

  drop_none : (n : ℕ) → min n p.length ≡ 0 → drop n (contents p) ≡ contents p
  drop_none n z =
      drop-min n (contents p)
      ∙ ap (λ k. drop k (contents p))
          (let e : min n (length (contents p)) ≡ 0 = omega (arith, length-contents) in e)

  read_none :
      (n : ℕ)
      → min n p.length ≡ 0
      → buffer_pipe_read p n ≡ some (min n p.length, take n (contents p), p)
  unfolding buffer_pipe_read
  read_none n z =
      let e : (if ltb p.length n then p.length else n) ≡ 0 = ground arith in
      rw e (
        ap₂ (λ r t. some (r, t, p)) (sym z)
          (sym (take-min n p.length p.block ∙ take_eq {n = 0} p.block z)))

  -- `buffer_pipe_read` of at most `n` bytes from a valid pipe: no access is outside the block, the
  -- call returns how many bytes it could give, the caller has the first `n` bytes of the pipe, and
  -- the pipe is valid and holds the rest.
  pub buffer_pipe_read-split :
      (n : ℕ)
      → (q : Pipe) × (buffer_pipe_read p n ≡ some (min n p.length, take n (contents p), q))
        × IsValid q
        × (contents q ≡ drop n (contents p))
        × (q.length ≡ p.length - n)
  buffer_pipe_read-split n = elim (Bool-cases (ltb 0 (min n p.length))) [
    | inl more ↦
        let r : ℕ = min n p.length in
        let h : r ≤ p.length = omega arith in
        (
          rest r h,
          read-run r h (ground arith) n (ground arith)
              ∙ ap (λ t. some (r, t, rest r h)) (sym (take-min n p.length p.block)),
          rest-IsValid r h,
          contents-rest r h
              ∙ sym
                  (drop-min n (contents p) ∙ ap (λ k. drop (min n k) (contents p)) length-contents),
          omega arith,
        )
    | inr nothing ↦
        let z : min n p.length ≡ 0 = ground arith in
        (p, read_none n z, v, sym (drop_none n z), omega arith)
  ]
