-- ===== src/BufferPipe/Find.antt =====
-- `buffer_pipe_find_chr`: the first place of a byte among those that the pipe holds.
use eloop.Base.{
  ℕ, zero, suc, ◌+◌, ◌≤◌, ◌≡◌, refl, ap, ◌∙◌, ◌⊎◌, inl, inr, Bool, Bool-cases, false, ◌||◌, Option,
  some, ℤ, List, [], ◌∷◌, ◌++◌, ◌==◌, ==→eq, pos, minus_one, arith, length, take, drop, drop-cons,
}
use eloop.BufferPipe.{Pipe, find_loop, buffer_pipe_find_chr}
use eloop.BufferPipe.Valid.{IsValid, contents}

abbrev pub has_byte : ℕ → List ℕ → Bool
has_byte c [] = false
has_byte c (x ∷ xs) = (x == c) || has_byte c xs

module _ (p : Pipe) (mark at : ℕ) where
  -- The result of a search of `bytes` that starts at index `i`.
  data Search (bytes : List ℕ) (i : ℕ) : Option (ℤ × ℕ) → Type 0 where
    absent : has_byte mark bytes ≡ false → Search bytes i (some (minus_one, at))
    present :
        (before after : List ℕ) (k : ℕ)
        → bytes ≡ before ++ mark ∷ after
        → has_byte mark before ≡ false
        → k ≡ i + length before
        → Search bytes i (some (pos 0, k))

  Search-cons :
      (c i : ℕ) (bytes : List ℕ) {r : Option (ℤ × ℕ)}
      → (c == mark) ≡ false
      → Search bytes (i + 1) r
      → Search (c ∷ bytes) i r
  Search-cons c i bytes e (absent h) = absent (ground arith)
  Search-cons c i bytes e (present before after k h o at_k) =
      present (c ∷ before) after k (ap (λ r. c ∷ r) h) (ground arith) (omega arith)

  find_loop-Search :
      (rounds i : ℕ)
      → i + rounds ≤ length p.block
      → Search (take rounds (drop i p.block)) i (find_loop rounds p mark i at)
  unfolding find_loop
  find_loop-Search zero i h = absent refl
  find_loop-Search (suc rounds) i h =
      let (c, e, d) = drop-cons i p.block (omega arith) in
      rw (e, find_loop, d)
        (elim (Bool-cases (c == mark)) [
          | inl hit ↦ rw hit (
              present [] (take rounds (drop (i + 1) p.block)) i
                (ap (λ x. x ∷ take rounds (drop (i + 1) p.block)) (==→eq c mark hit)) refl
                (omega arith))
          | inr miss ↦
              rw miss (Search-cons c i _ miss (find_loop-Search rounds (i + 1) (omega arith)))
        ])

  -- `buffer_pipe_find_chr` in a valid pipe: no access is outside the block, and the call returns -1
  -- and leaves `*pos` alone if the byte is not in the pipe, or it returns 0 and stores the number of
  -- bytes in front of the first one that equals `mark`.
  pub buffer_pipe_find_chr-first :
      IsValid p
      → ((buffer_pipe_find_chr p mark at ≡ some (minus_one, at))
          × (has_byte mark (contents p) ≡ false))
        ⊎ ((before : List ℕ) × (after : List ℕ) × (buffer_pipe_find_chr p mark at
              ≡ some (pos 0, length before))
            × (contents p ≡ before ++ mark ∷ after)
            × (has_byte mark before ≡ false))
  unfolding buffer_pipe_find_chr
  buffer_pipe_find_chr-first v =
      read (find_loop-Search p.length 0 (omega (arith, v.in_block, v.block_size))) refl
    where
      read :
          {r : Option (ℤ × ℕ)}
          → Search (contents p) 0 r
          → find_loop p.length p mark 0 at ≡ r
          → ((find_loop p.length p mark 0 at ≡ some (minus_one, at))
              × (has_byte mark (contents p) ≡ false))
            ⊎ ((before : List ℕ) × (after : List ℕ) × (find_loop p.length p mark 0 at
                  ≡ some (pos 0, length before))
                × (contents p ≡ before ++ mark ∷ after)
                × (has_byte mark before ≡ false))
      read (absent h) e = inl (e, h)
      read (present before after k h o at_k) e =
          inr (before, after, e ∙ ap (λ j. some (pos 0, j)) (omega arith), h, o)
