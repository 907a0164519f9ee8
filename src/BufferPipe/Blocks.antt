-- ===== src/BufferPipe/Blocks.antt =====
-- Copies inside a block: in bounds they succeed, and the bytes that they leave are known.
use eloop.Base.{
  ℕ, ◌+◌, ◌≤◌, ◌≡◌, sym, ap, ◌∙◌, true, some, List, ◌++◌, append_assoc, leb, arith, length, take,
  drop, length-append, length-take, length-drop, take_exact,
}
use eloop.BufferPipe.{load_at, store_at}

le→leb : (a b : ℕ) → a ≤ b → leb a b ≡ true
le→leb a b h = ground arith

module _ (b : List ℕ) where
  pub load_at-ok : (at n : ℕ) → at + n ≤ length b → load_at b at n ≡ some (take n (drop at b))
  unfolding load_at
  load_at-ok at n h = rw (le→leb (at + n) (length b) h)

  pub store_at-ok :
      (at : ℕ) (bytes : List ℕ)
      → at + length bytes ≤ length b
      → store_at b at bytes ≡ some (take at b ++ (bytes ++ drop (at + length bytes) b))
  unfolding store_at
  store_at-ok at bytes h = rw (le→leb (at + length bytes) (length b) h)

  pub length-stored :
      (at : ℕ) (bytes : List ℕ)
      → at + length bytes ≤ length b
      → length (take at b ++ (bytes ++ drop (at + length bytes) b)) ≡ length b
  length-stored at bytes h = omega (
    arith,
    length-append (take at b) (bytes ++ drop (at + length bytes) b),
    length-append bytes (drop (at + length bytes) b),
    length-take at b,
    length-drop (at + length bytes) b,
  )

  -- A write of `n` bytes behind the first `at` bytes appends them.
  pub take-stored :
      (at : ℕ) (bytes : List ℕ)
      → at + length bytes ≤ length b
      → take (at + length bytes) (take at b ++ (bytes ++ drop (at + length bytes) b))
        ≡ take at b ++ bytes
  take-stored at bytes h =
      ap (take (at + length bytes)) (sym (append_assoc (take at b) bytes _))
      ∙ take_exact (at + length bytes) (take at b ++ bytes) _
          (omega (arith, length-append (take at b) bytes, length-take at b))
