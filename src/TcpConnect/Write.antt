-- ===== src/TcpConnect/Write.antt =====
-- `tcp_connect_write` of src/net/tcp_connect.c: what is sent and what stays in the pipe.
use eloop.Base.{
  ◌⊎◌, ℕ, zero, suc, ◌+◌, ◌^◌, ◌<◌, ◌≤◌, ◌≡◌, ◌≢◌, refl, sym, ap, ◌∙◌, subst, true, false,
  Bool-cases, inl, inr, Option, some, List, [], ◌++◌, append_assoc, ltb, lt→ltb, ℤ, pos, length,
  take, drop, min, ◌-◌, lt→ltb, take_all, take-append-drop, length-take, length-drop, arith,
}
use eloop.Memory.{Run, Ptr, null, ok, write}
use eloop.BufferPipe.{Pipe, Realloc, IsRealloc, bucket_length}
use eloop.BufferPipe.Valid.{IsValid, contents}
use eloop.BufferPipe.Queue.{IsPlentiful}
use eloop.World.{World, Memory}
use eloop.Net.{net_fd_write}
use eloop.TcpConnect.{write_pipe_head, write_loop, WriteEnd, Departures}
use eloop.BufferPipe.Read.{length-contents}
use eloop.TcpConnect.Pipes.{
  with_pipes, Refilled, stored-Refilled, read_pipe-run, write_pipe_head-run,
}

-- The memory with other pipes and other bytes sent.
abbrev pub with_output : Memory → (Ptr → Option Pipe) → List ℕ → Memory
with_output m f sent = record m { user = record (m.user) { pipe_at = f; sent = sent } }

-- Every call of send takes some bytes.
abbrev pub IsSending : Departures → Type 0
IsSending send = (j : ℕ) → (n : ℕ) × ((send j).0 ≡ pos n) × (0 < n)

-- The end of a loop: the bytes are in `sent` or still in the pipe `q`, in order, and none of them
-- is left if `remain_data` is 0.
pub record IsWritten (e : WriteEnd) (before sent : List ℕ) (q : Pipe) : Type 0 where
  pub valid : IsValid q
  pub in_order : sent ++ contents q ≡ before
  pub goes_on : e.close_fd ≡ false
  pub done : (e.remain_data ≡ true) ⊎ ((e.remain_data ≡ false) × (contents q ≡ []))

none_read : (k : ℕ) → ltb 0 (min 1024 k) ≡ false → k ≤ 0
none_read k h = ground arith

-- `b` is a part of the list `c` that is read, of which `n` bytes go out.
module _ (s b rest : List ℕ) (n : ℕ) where
  short_order :
      (k : ℕ)
      → length (drop n b) ≤ k
      → (s ++ take n b) ++ (take k (drop n b) ++ rest) ≡ s ++ (b ++ rest)
  short_order k h =
      ap (λ r. (s ++ take n b) ++ (r ++ rest)) (take_all k (drop n b) h)
      ∙ append_assoc s (take n b) _
      ∙ ap (λ r. s ++ r) (sym (append_assoc (take n b) (drop n b) rest))
      ∙ ap (λ r. s ++ (r ++ rest)) (take-append-drop n b)

  full_order : length b ≤ n → (s ++ take n b) ++ rest ≡ s ++ (b ++ rest)
  full_order h = ap (λ r. (s ++ r) ++ rest) (take_all n b h) ∙ append_assoc s b rest

module _ {realloc : Realloc} (is : IsRealloc realloc) (plenty : IsPlentiful realloc) (pipe : Ptr)
    (pipe_ne : pipe ≢ null) (send : Departures) (sending : IsSending send) where
  -- The bytes of `b` that send has not taken go back to the head of the pipe.
  put_back-run :
      (m : Memory) (q : Pipe) (b : List ℕ) (k n : ℕ)
      → m.user.pipe_at pipe ≡ some q
      → IsValid q
      → length b ≡ k
      → n ≤ k
      → q.length + (k - n) + bucket_length < 2 ^ 64
      → (q' : Pipe) × (f : Ptr → Option Pipe) × (write_pipe_head realloc pipe
            (drop n b)
            (k - n)
            (with_output m m.user.pipe_at (m.user.sent ++ take n b))
          ≡ ok (pos 0) (with_output m f (m.user.sent ++ take n b)))
        × Refilled m pipe q' f
        × IsValid q'
        × ((m.user.sent ++ take n b) ++ contents q' ≡ m.user.sent ++ (b ++ contents q))
  put_back-run m q b k n at v size le fits =
      let m2 = with_output m m.user.pipe_at (m.user.sent ++ take n b) in
      let left : length (drop n b) ≡ k - n = omega (arith, length-drop n b, size) in
      let (q', run, v', e, l) =
        write_pipe_head-run is plenty pipe pipe_ne m2 q (drop n b) (k - n) at v
          (omega (arith, left)) fits in
      let put = stored-Refilled m2 pipe q' in
      (
        q',
        write m.user.pipe_at pipe (some q'),
        run,
        record { here = put.here; others = put.others },
        v',
        ap (λ c. (m.user.sent ++ take n b) ++ c) e
            ∙ short_order m.user.sent b (contents q) n (k - n) (omega (arith, left)),
      )

  -- What a run of the loop comes to.
  abbrev Wrote : (m : Memory) (before : List ℕ) → Run World WriteEnd → Type 0
  Wrote m before run =
      (e : WriteEnd) × (f : Ptr → Option Pipe) × (sent : List ℕ) × (q : Pipe) × (run
        ≡ ok e (with_output m f sent))
      × Refilled m pipe q f
      × IsWritten e before sent q

  pub write_loop-run :
      (fuel round : ℕ) (ret : ℤ) (m : Memory) (p : Pipe)
      → p.length < fuel
      → m.user.pipe_at pipe ≡ some p
      → IsValid p
      → p.length + bucket_length < 2 ^ 64
      → Wrote m (m.user.sent ++ contents p) (write_loop realloc send fuel round pipe ret m)
  unfolding write_loop net_fd_write
  write_loop-run zero round ret m p lt at v fits = absurd (omega arith)
  write_loop-run (suc fuel) round ret m p lt at v fits =
      let (q, run, v', e, l) = read_pipe-run m pipe p 1024 pipe_ne at v in
      let m1 = with_pipes m (write m.user.pipe_at pipe (some q)) in
      let put = stored-Refilled m pipe q in
      let size = length-contents v in
      let buffer = take 1024 (contents p) in
      let read_size : length buffer ≡ min 1024 p.length =
        omega (arith, length-take 1024 (contents p), size) in
      let whole : m.user.sent ++ (buffer ++ contents q) ≡ m.user.sent ++ contents p =
        ap (λ c. m.user.sent ++ (buffer ++ c)) e
        ∙ ap (λ c. m.user.sent ++ c) (take-append-drop 1024 (contents p)) in
      let gone : ltb 0 (min 1024 p.length) ≡ false → contents p ≡ [] = (λ z.
        sym (take_all 0 (contents p) (subst (λ k. k ≤ 0) (sym size) (none_read p.length z)))) in
      elim (Bool-cases (ltb 0 (min 1024 p.length))) [
        | inl more ↦
            let (n, sent, some_sent) = sending round in
            elim (Bool-cases (ltb n (min 1024 p.length))) [
              | inl short ↦
                  let (q2, f, run2, put2, v2, order) =
                    put_back-run m1 q buffer (min 1024 p.length) n put.here v' read_size
                      (ground arith) (ground arith) in
                  (
                    record { ret = pos n; remain_data = true; close_fd = false },
                    f,
                    m.user.sent ++ take n buffer,
                    q2,
                    rw (run, more, sent, lt→ltb 0 n some_sent, short, run2) refl,
                    record { here = put2.here; others = λ a k. put2.others a k ∙ put.others a k },
                    record {
                      valid = v2;
                      in_order = order ∙ whole;
                      goes_on = refl;
                      done = inl refl;
                    },
                  )
              | inr full ↦
                  let all : length buffer ≤ n = ground (arith, read_size) in
                  let m2 = with_output m1 m1.user.pipe_at (m.user.sent ++ take n buffer) in
                  let (e3, f, out, q3, run3, put3, w) =
                    write_loop-run fuel (round + 1) (pos n) m2 q (ground arith) put.here v'
                      (omega arith) in
                  (
                    e3,
                    f,
                    out,
                    q3,
                    rw (run, more, sent, lt→ltb 0 n some_sent, full) run3,
                    record { here = put3.here; others = λ a k. put3.others a k ∙ put.others a k },
                    record {
                      valid = w.valid;
                      in_order =
                          w.in_order ∙ full_order m.user.sent buffer (contents q) n all ∙ whole;
                      goes_on = w.goes_on;
                      done = w.done;
                    },
                  )
            ]
        | inr empty ↦ (
          record { ret = ret; remain_data = false; close_fd = false },
          write m.user.pipe_at pipe (some q),
          m.user.sent,
          q,
          rw (run, empty) refl,
          put,
          record {
            valid = v';
            in_order =
                ap (λ c. m.user.sent ++ c) (e ∙ ap (drop 1024) (gone empty) ∙ sym (gone empty));
            goes_on = refl;
            done = inr (refl, e ∙ ap (drop 1024) (gone empty));
          },
        )
      ]
