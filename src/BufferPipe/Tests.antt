-- ===== src/BufferPipe/Tests.antt =====
-- A pipe of four bytes in a block of eight, and the calls of src/buffer_pipe.c on it.
use eloop.Base.{ℕ, ◌≡◌, ◌⊎◌, refl, List, [], ◌∷◌, ◌++◌, some, pos, minus_one, false, length, arith}
use eloop.BufferPipe.{
  Pipe, buffer_pipe_write, buffer_pipe_write_head, buffer_pipe_read, buffer_pipe_find_chr,
}
use eloop.BufferPipe.Valid.{IsValid, contents, IsRefused}
use eloop.BufferPipe.Write.{buffer_pipe_write-append}
use eloop.BufferPipe.WriteHead.{buffer_pipe_write_head-prepend}
use eloop.BufferPipe.Read.{buffer_pipe_read-split}
use eloop.BufferPipe.Find.{has_byte, buffer_pipe_find_chr-first}
use eloop.BufferPipe.Zeros.{zeros, zeros-IsRealloc, zeros-IsPlentiful}
use eloop.BufferPipe.Queue.{put, put_head, get, run, queue_run, run-queue_run, total, volume}

abbrev pipe : Pipe
pipe = record { block = 1 ∷ 2 ∷ 3 ∷ 4 ∷ 9 ∷ 9 ∷ 9 ∷ 9 ∷ []; length = 4; actual_length = 8 }

pipe-IsValid : IsValid pipe
pipe-IsValid = record { block_size = refl; in_block = omega arith; small = omega arith }

abbrev bytes : List ℕ
bytes = 5 ∷ 6 ∷ []

run-queue_run_example :
    run zeros pipe (put bytes ∷ put_head bytes ∷ get 3 ∷ [])
    ≡ some (queue_run (1 ∷ 2 ∷ 3 ∷ 4 ∷ []) (put bytes ∷ put_head bytes ∷ get 3 ∷ []))
unfolding total volume
run-queue_run_example =
    run-queue_run zeros-IsRealloc zeros-IsPlentiful (put bytes ∷ put_head bytes ∷ get 3 ∷ [])
      pipe-IsValid (omega arith)

buffer_pipe_write-append_example :
    ((q : Pipe) × (buffer_pipe_write zeros pipe bytes 2 ≡ some (pos 0, q))
      × IsValid q
      × (contents q ≡ 1 ∷ 2 ∷ 3 ∷ 4 ∷ 5 ∷ 6 ∷ [])
      × (q.length ≡ 6))
    ⊎ ((buffer_pipe_write zeros pipe bytes 2 ≡ some (minus_one, pipe)) × IsRefused zeros pipe 2)
buffer_pipe_write-append_example =
    buffer_pipe_write-append zeros-IsRealloc bytes 2 pipe-IsValid (omega arith) (omega arith)

buffer_pipe_write_head-prepend_example :
    ((q : Pipe) × (buffer_pipe_write_head zeros pipe bytes 2 ≡ some (pos 0, q))
      × IsValid q
      × (contents q ≡ 5 ∷ 6 ∷ 1 ∷ 2 ∷ 3 ∷ 4 ∷ [])
      × (q.length ≡ 6))
    ⊎ ((buffer_pipe_write_head zeros pipe bytes 2 ≡ some (minus_one, pipe))
        × IsRefused zeros pipe 2)
buffer_pipe_write_head-prepend_example =
    buffer_pipe_write_head-prepend zeros-IsRealloc bytes 2 pipe-IsValid (omega arith) (omega arith)

buffer_pipe_read-split_example :
    (q : Pipe) × (buffer_pipe_read pipe 3 ≡ some (3, 1 ∷ 2 ∷ 3 ∷ [], q))
    × IsValid q
    × (contents q ≡ 4 ∷ [])
    × (q.length ≡ 1)
buffer_pipe_read-split_example = buffer_pipe_read-split pipe-IsValid 3

buffer_pipe_find_chr-first_example :
    ((buffer_pipe_find_chr pipe 3 7 ≡ some (minus_one, 7)) × (has_byte 3 (contents pipe) ≡ false))
    ⊎ ((before : List ℕ) × (after : List ℕ) × (buffer_pipe_find_chr pipe 3 7
          ≡ some (pos 0, length before))
        × (contents pipe ≡ before ++ 3 ∷ after)
        × (has_byte 3 before ≡ false))
buffer_pipe_find_chr-first_example = buffer_pipe_find_chr-first pipe 3 7 pipe-IsValid
