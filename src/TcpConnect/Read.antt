-- ===== src/TcpConnect/Read.antt =====
-- `_tcp_connec_on_read` of src/net/tcp_connect.c: what is received goes into the pipe, in order.
use eloop.Base.{
  ℕ, zero, suc, ◌+◌, ◌*◌, ◌^◌, ◌<◌, ◌≤◌, ◌≡◌, ◌≢◌, refl, sym, ap, ◌∙◌, Bool, true, false,
  Bool-cases, inl, inr, ◌||◌, not, Option, some, List, [], ◌++◌, append-nil, append_assoc, ◌==◌,
  if◌then◌else◌, lt→ltb, ltb_ℤ, eqb_ℤ, pos, minus_one, length, arith,
}
use eloop.Memory.{Ptr, null, ok, write}
use eloop.BufferPipe.{Pipe, Realloc, IsRealloc, bucket_length}
use eloop.BufferPipe.Valid.{IsValid, contents}
use eloop.BufferPipe.Queue.{IsPlentiful}
use eloop.World.{Memory}
use eloop.Net.{Received, taken, eagain}
use eloop.TcpConnect.{Arrivals, ReadEnd, read_loop}
use eloop.TcpConnect.Pipes.{with_pipes, Refilled, stored-Refilled, write_pipe-run}

-- recv has filled so many bytes of its 1024.
pub record IsChunk (r : Received) (n : ℕ) : Type 0 where
  pub count : r.count ≡ pos n
  pub some_bytes : 0 < n
  pub bound : n ≤ 1024
  pub filled : n ≤ length r.buffer

-- The bytes of `k` rounds.
abbrev pub gathered : Arrivals → (k round : ℕ) → List ℕ
gathered recv zero round = []
gathered recv (suc k) round =
    taken (recv round).0.count (recv round).0.buffer ++ gathered recv k (round + 1)

-- The end of the loop at the first call of recv without bytes: `r` is its result.
abbrev pub read_end : (has_data : Bool) → Received × ℕ → ReadEnd
read_end has_data (r, errno) = record {
  ret = r.count;
  has_data = has_data;
  need_close =
      eqb_ℤ r.count (pos 0) || not ((if eqb_ℤ r.count minus_one then errno else 0) == eagain);
}

-- `k` calls of recv bring bytes, and the next one does not.
abbrev pub Arriving : Arrivals → (k round : ℕ) → Type 0
Arriving recv zero round = ltb_ℤ (pos 0) (recv round).0.count ≡ false
Arriving recv (suc k) round = ((n : ℕ) × IsChunk (recv round).0 n) × Arriving recv k (round + 1)

-- `has_data` after `k` calls that brought bytes.
abbrev pub with_data : Bool → (k : ℕ) → Bool
with_data has_data zero = has_data
with_data has_data (suc k) = true

with_data-true : (k : ℕ) → with_data true k ≡ true
with_data-true zero = refl
with_data-true (suc k) = refl

-- The call that brings none.
abbrev pub last_of : Arrivals → (k round : ℕ) → Received × ℕ
last_of recv zero round = recv round
last_of recv (suc k) round = last_of recv k (round + 1)

module _ {realloc : Realloc} (is : IsRealloc realloc) (plenty : IsPlentiful realloc) (pipe : Ptr)
    (pipe_ne : pipe ≢ null) where
  pub read_loop-run :
      (recv : Arrivals) (k fuel round : ℕ) (has_data : Bool) (m : Memory) (p : Pipe)
      → Arriving recv k round
      → k < fuel
      → m.user.pipe_at pipe ≡ some p
      → IsValid p
      → p.length + k * 1024 + bucket_length < 2 ^ 64
      → (q : Pipe) × (f : Ptr → Option Pipe) × (read_loop realloc recv fuel round pipe has_data m
          ≡ ok (read_end (with_data has_data k) (last_of recv k round)) (with_pipes m f))
        × Refilled m pipe q f
        × IsValid q
        × (contents q ≡ contents p ++ gathered recv k round)
  unfolding read_loop
  read_loop-run recv k zero round has_data m p arriving lt at v fits = absurd (omega arith)
  read_loop-run recv zero (suc fuel) round has_data m p arriving lt at v fits = (
    p,
    m.user.pipe_at,
    elim (Bool-cases (eqb_ℤ (recv round).0.count (pos 0))) [
      | inl z ↦ rw (arriving, z) refl
      | inr z ↦ rw (arriving, z) refl
    ],
    record { here = at; others = λ a k. refl },
    v,
    sym (append-nil (contents p)),
  )
  read_loop-run recv (suc k) (suc fuel) round has_data m p ((n, chunk), more) lt at v fits =
      let (q, run, v', e, l) =
        write_pipe-run is plenty pipe pipe_ne m p (recv round).0.buffer n at v chunk.filled
          (omega (arith, chunk.bound)) in
      let m1 = with_pipes m (write m.user.pipe_at pipe (some q)) in
      let put = stored-Refilled m pipe q in
      let (q', f, run', re, v'', e') =
        read_loop-run recv k fuel (round + 1) true m1 q more (omega arith) put.here v'
          (omega (arith, chunk.bound)) in
      (
        q',
        f,
        rw (chunk.count, lt→ltb 0 n chunk.some_bytes, run)
            (run'
              ∙ ap (λ b. ok (read_end b (last_of recv k (round + 1))) (with_pipes m f))
                  (with_data-true k)),
        record { here = re.here; others = λ a k. re.others a k ∙ put.others a k },
        v'',
        e'
            ∙ ap (λ t. t ++ gathered recv k (round + 1)) e
            ∙ append_assoc (contents p) _ _
            ∙ ap (λ c. contents p ++ (taken c (recv round).0.buffer ++ gathered recv k (round + 1)))
                (sym chunk.count),
      )
