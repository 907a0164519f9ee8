-- ===== src/BufferPipe/Queue.antt =====
-- A pipe as a queue of bytes with two ends, for every sequence of calls.
use eloop.Base.{
  ℕ, ◌+◌, ◌^◌, ◌<◌, ◌≡◌, refl, ap, ◌∙◌, inl, inr, Option, some, List, [], ◌∷◌, ◌++◌, arith, length,
  take, drop, take_all,
}
use eloop.BufferPipe.{
  Pipe, Realloc, IsRealloc, bucket_length, ◌>>=◌, buffer_pipe_write, buffer_pipe_write_head,
  buffer_pipe_read,
}
use eloop.BufferPipe.Valid.{IsValid, contents, IsRefused}
use eloop.BufferPipe.Write.{buffer_pipe_write-append}
use eloop.BufferPipe.WriteHead.{buffer_pipe_write_head-prepend}
use eloop.BufferPipe.Read.{buffer_pipe_read-split}

pub data Op : Type 0 where
  put : List ℕ → Op
  put_head : List ℕ → Op
  get : ℕ → Op

-- One call on a pipe: the bytes that it hands out, and the pipe.
unfoldable pub step : Realloc → Pipe → Op → Option (List ℕ × Pipe)
step realloc p (put bytes) = do
  (ret, q) ← buffer_pipe_write realloc p bytes (length bytes)
  some ([], q)
step realloc p (put_head bytes) = do
  (ret, q) ← buffer_pipe_write_head realloc p bytes (length bytes)
  some ([], q)
step realloc p (get n) = do (ret, out, q) ← buffer_pipe_read p n; some (out, q)

unfoldable pub run : Realloc → Pipe → List Op → Option (List (List ℕ))
run realloc p [] = some []
run realloc p (op ∷ ops) = do
  (out, q) ← step realloc p op
  outs ← run realloc q ops
  some (out ∷ outs)

-- The same calls on a plain list of bytes.
unfoldable pub queue_step : List ℕ → Op → List ℕ × List ℕ
queue_step xs (put bytes) = ([], xs ++ bytes)
queue_step xs (put_head bytes) = ([], bytes ++ xs)
queue_step xs (get n) = (take n xs, drop n xs)

unfoldable pub queue_run : List ℕ → List Op → List (List ℕ)
queue_run xs [] = []
queue_run xs (op ∷ ops) = let (out, ys) = queue_step xs op in out ∷ queue_run ys ops

-- How many bytes the calls bring in.
unfoldable pub volume : Op → ℕ
volume (put bytes) = length bytes
volume (put_head bytes) = length bytes
volume (get n) = 0

unfoldable pub total : List Op → ℕ
total [] = 0
total (op ∷ ops) = volume op + total ops

-- There is memory for every block.
abbrev pub IsPlentiful : Realloc → Type 0
IsPlentiful realloc = (b : List ℕ) (n : ℕ) → (c : List ℕ) × (realloc b n ≡ some c)

module _ {realloc : Realloc} (is : IsRealloc realloc) (plenty : IsPlentiful realloc) where
  pub not-IsRefused : {p : Pipe} {n : ℕ} → IsRefused realloc p n → ⊥
  not-IsRefused {p} {n} r = cc (r.refused, (plenty p.block (p.length + n + bucket_length)).1)

  abbrev Refines : Pipe → Op → Type 0
  Refines p op =
      (q : Pipe) × (step realloc p op ≡ some ((queue_step (contents p) op).0, q))
      × IsValid q
      × (contents q ≡ (queue_step (contents p) op).1)
      × (q.length < p.length + volume op + 1)

  -- One call hands out the bytes that the queue hands out, and leaves the pipe holding its rest.
  step-queue_step :
      {p : Pipe} (op : Op)
      → IsValid p
      → p.length + volume op + bucket_length < 2 ^ 64
      → Refines p op
  unfolding step queue_step volume
  step-queue_step {p} (put bytes) v fits =
      elim (buffer_pipe_write-append is bytes (length bytes) v (omega arith) fits) [
        | inl (q, e, v', c, l) ↦ (
          q,
          rw e,
          v',
          c ∙ ap (λ r. contents p ++ r) (take_all (length bytes) bytes (omega arith)),
          omega arith,
        )
        | inr (e, r) ↦ absurd (not-IsRefused r)
      ]
  step-queue_step {p} (put_head bytes) v fits =
      elim (buffer_pipe_write_head-prepend is bytes (length bytes) v (omega arith) fits) [
        | inl (q, e, v', c, l) ↦ (
          q,
          rw e,
          v',
          c ∙ ap (λ r. r ++ contents p) (take_all (length bytes) bytes (omega arith)),
          omega arith,
        )
        | inr (e, r) ↦ absurd (not-IsRefused r)
      ]
  step-queue_step {p} (get n) v fits =
      let (q, e, v', c, l) = buffer_pipe_read-split v n in (q, rw e, v', c, omega arith)

  -- While memory lasts and the sizes do not overflow, no sequence of writes, writes at the head and
  -- reads tells a valid pipe from the queue of its bytes, and no access is outside a block.
  pub run-queue_run :
      (ops : List Op) {p : Pipe}
      → IsValid p
      → p.length + total ops + bucket_length < 2 ^ 64
      → run realloc p ops ≡ some (queue_run (contents p) ops)
  unfolding run queue_run total
  run-queue_run [] v fits = refl
  run-queue_run (op ∷ ops) {p} v fits =
      let (q, e, v', c, l) = step-queue_step op v (omega arith) in
      rw (e, run-queue_run ops v' (omega arith), c)
