-- ===== src/BufferPipe/Zeros.antt =====
-- A realloc for the examples about src/buffer_pipe.c.
use eloop.Base.{
  ℕ, ◌-◌, ◌≡◌, refl, List, ◌++◌, some, min, length, take, replicate, length-append, length-take,
  length-replicate, take_exact, take_all, take-take, sym, ap, ◌∙◌, arith,
}
use eloop.BufferPipe.{Realloc, IsRealloc}
use eloop.BufferPipe.Queue.{IsPlentiful}

abbrev pub block_of : List ℕ → ℕ → List ℕ
block_of b n = take n b ++ replicate (n - length b) 0

-- A realloc that never refuses: it keeps the bytes that fit and fills the block with zeros.
abbrev pub zeros : Realloc
zeros b n = some (block_of b n)

length-zeros : (b : List ℕ) (n : ℕ) → length (block_of b n) ≡ n
length-zeros b n = omega (
  arith,
  length-append (take n b) (replicate (n - length b) 0),
  length-take n b,
  length-replicate {A = ℕ} (n - length b) 0,
)

inj : {b c : List ℕ} → some b ≡ some c → b ≡ c
inj e = cc e

pub zeros-IsRealloc : IsRealloc zeros
zeros-IsRealloc = record {
  size = λ b n e. ap length (sym (inj e)) ∙ length-zeros b n;
  bytes = λ b n e.
      ap (take (min (length b) n)) (sym (inj e))
      ∙ take_exact (min (length b) n) (take n b) _ (omega (arith, length-take n b))
      ∙ sym (take_all (min (length b) n) (take n b) (omega (arith, length-take n b)))
      ∙ take-take (min (length b) n) n b (omega arith);
}

pub zeros-IsPlentiful : IsPlentiful zeros
zeros-IsPlentiful b n = (block_of b n, refl)
