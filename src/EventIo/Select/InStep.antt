-- ===== src/EventIo/Select/InStep.antt =====
-- The descriptor sets of src/event_io_select.c against the channels of a map.
use eloop.Base.{
  ℕ, ◌≡◌, ◌≢◌, refl, sym, ap, ◌∙◌, Bool, true, false, ◌||◌, ◌&&◌, not, ◌<◌, ◌^◌, eqb_ℤ-refl, none,
  some, [], ◌∷◌, ◌++◌, if◌then◌else◌, ℤ, eqb_ℤ, eqb_ℤ→eq, arith,
}
use eloop.Memory.{Ptr}
use eloop.LinkedList.Links.{Cells}
use eloop.World.{FdSet, Select, Channel, World}
use eloop.EventChannel.{fd_mask_read, fd_mask_write, fd_mask_error, is_exist_mask}
use eloop.ChannelMap.Find.{fd_at}
use eloop.ChannelMap.Remove.{NoFd}
use eloop.EventIo.Select.{fd_set, fd_clr}
use eloop.EventIo.Select.Sets.{added, removed}

-- The channel at the address has all bits of the mask.
abbrev pub has_mask : World → ℕ → Ptr → Bool
has_mask w mask i = elim (w.channel_at i) [ none ↦ false | some c ↦ is_exist_mask c mask ]

-- Some channel of the cells waits for the event on the descriptor.
abbrev pub wanted : World → ℕ → Cells → FdSet
wanted w mask [] fd = false
wanted w mask ((p, i) ∷ xs) fd = (eqb_ℤ fd (fd_at w i) && has_mask w mask i) || wanted w mask xs fd

-- The set holds exactly the descriptors that the channels wait for.
abbrev pub Agrees : World → ℕ → Cells → FdSet → Type 0
Agrees w mask xs set = (fd : ℤ) → set fd ≡ wanted w mask xs fd

-- The same, but for one descriptor.
abbrev pub AgreesBut : ℤ → World → ℕ → Cells → FdSet → Type 0
AgreesBut d w mask xs set = (fd : ℤ) → eqb_ℤ fd d ≡ false → set fd ≡ wanted w mask xs fd

-- Each of the three sets holds exactly the descriptors that the channels wait for.
pub record InStep (w : World) (xs : Cells) (s : Select) : Type 0 where
  pub reads : Agrees w fd_mask_read xs s.fds_read
  pub writes : Agrees w fd_mask_write xs s.fds_write
  pub errors : Agrees w fd_mask_error xs s.fds_exp

-- The same, but for one descriptor.
pub record InStepBut (d : ℤ) (w : World) (xs : Cells) (s : Select) : Type 0 where
  pub reads : AgreesBut d w fd_mask_read xs s.fds_read
  pub writes : AgreesBut d w fd_mask_write xs s.fds_write
  pub errors : AgreesBut d w fd_mask_error xs s.fds_exp

eqb_ℤ_comm : (a b : ℤ) → eqb_ℤ a b ≡ eqb_ℤ b a
eqb_ℤ_comm a b = ground arith

-- The result of a set's line at one descriptor: `b` says that the channel has the bit, and `q` that
-- the descriptor is the channel's.
line_at :
    (b : Bool) (new old : FdSet) (fd : ℤ)
    → (if b then new else old) fd ≡ (if b then new fd else old fd)
line_at true new old fd = refl
line_at false new old fd = refl

set_bit :
    (b q s x y : Bool)
    → s ≡ (x || y)
    → (if b then (if q then true else s) else s) ≡ (x || ((q && b) || y))
set_bit b q s x y e = ground arith

clr_bit :
    (b q s x y : Bool)
    → s ≡ (x || ((q && b) || y))
    → (q ≡ true → x ≡ false)
    → (q ≡ true → y ≡ false)
    → (if b then (if q then false else s) else s) ≡ (x || y)
clr_bit b q s x y e h k = ground arith

-- A set that agrees but for the channel's descriptor is put right by clearing it and setting it.
reset_bit :
    (b q s x y : Bool)
    → (q ≡ false → s ≡ (x || ((q && b) || y)))
    → (q ≡ true → x ≡ false)
    → (q ≡ true → y ≡ false)
    → (if b then (if q then true else if q then false else s) else if q then false else s)
      ≡ (x || ((q && b) || y))
reset_bit b q s x y e h k = ground arith

module _ (w : World) (mask : ℕ) where
  wanted-append :
      (xs ys : Cells) (fd : ℤ)
      → wanted w mask (xs ++ ys) fd ≡ (wanted w mask xs fd || wanted w mask ys fd)
  wanted-append [] ys fd = refl
  wanted-append ((p, i) ∷ xs) ys fd = ground (arith, wanted-append xs ys fd)

  -- No channel of the cells has the descriptor, so none waits on it.
  wanted-NoFd :
      (xs : Cells) (fd d : ℤ) → NoFd w d xs → eqb_ℤ fd d ≡ true → wanted w mask xs fd ≡ false
  wanted-NoFd xs fd d n h = rw (eqb_ℤ→eq fd d h) (go xs n)
    where
      go : (xs : Cells) → NoFd w d xs → wanted w mask xs d ≡ false
      go [] n = refl
      go ((p, i) ∷ xs) n = ground (arith, n.0, eqb_ℤ_comm d (fd_at w i), go xs n.1)

  module _ (i : Ptr) (c : Channel) (e : w.channel_at i ≡ some c) (xs ys : Cells) (p : Ptr) where
    -- The bit that the cells stand for.
    wanted_middle :
        (fd : ℤ)
        → wanted w mask (xs ++ (p, i) ∷ ys) fd ≡ (
            wanted w mask xs fd || ((eqb_ℤ fd c.fd && is_exist_mask c mask) || wanted w mask ys fd))
    wanted_middle fd = wanted-append xs ((p, i) ∷ ys) fd ∙ rw (e, fd_at, has_mask) refl

    set-Agrees :
        (set : FdSet)
        → Agrees w mask (xs ++ ys) set
        → Agrees w mask (xs ++ (p, i) ∷ ys) (if is_exist_mask c mask then fd_set c.fd set else set)
    set-Agrees set a fd =
        line_at (is_exist_mask c mask) (fd_set c.fd set) set fd
        ∙ set_bit (is_exist_mask c mask) (eqb_ℤ fd c.fd) (set fd) _ _
            (a fd ∙ wanted-append xs ys fd)
        ∙ sym (wanted_middle fd)

    module _ (n : NoFd w c.fd xs) (n' : NoFd w c.fd ys) where
      clr-Agrees :
          (set : FdSet)
          → Agrees w mask (xs ++ (p, i) ∷ ys) set
          → Agrees w mask (xs ++ ys) (if is_exist_mask c mask then fd_clr c.fd set else set)
      clr-Agrees set a fd =
          line_at (is_exist_mask c mask) (fd_clr c.fd set) set fd
          ∙ clr_bit (is_exist_mask c mask) (eqb_ℤ fd c.fd) (set fd) _ _ (a fd ∙ wanted_middle fd)
              (wanted-NoFd xs fd c.fd n) (wanted-NoFd ys fd c.fd n')
          ∙ sym (wanted-append xs ys fd)

      reset-Agrees :
          (set : FdSet)
          → AgreesBut c.fd w mask (xs ++ (p, i) ∷ ys) set
          → Agrees w mask
              (xs ++ (p, i) ∷ ys)
              (if is_exist_mask c mask then fd_set c.fd (fd_clr c.fd set) else fd_clr c.fd set)
      reset-Agrees set a fd =
          line_at (is_exist_mask c mask) (fd_set c.fd (fd_clr c.fd set)) (fd_clr c.fd set) fd
          ∙ reset_bit (is_exist_mask c mask) (eqb_ℤ fd c.fd) (set fd) _ _
              (λ h. a fd h ∙ wanted_middle fd) (wanted-NoFd xs fd c.fd n)
              (wanted-NoFd ys fd c.fd n')
          ∙ sym (wanted_middle fd)

module _ (w : World) (i : Ptr) (c : Channel) (e : w.channel_at i ≡ some c) (xs ys : Cells) (p : Ptr)
    (s : Select) where
  pub added-InStep : InStep w (xs ++ ys) s → InStep w (xs ++ (p, i) ∷ ys) (added c s)
  added-InStep is = record {
    reads = set-Agrees w fd_mask_read i c e xs ys p s.fds_read is.reads;
    writes = set-Agrees w fd_mask_write i c e xs ys p s.fds_write is.writes;
    errors = set-Agrees w fd_mask_error i c e xs ys p s.fds_exp is.errors;
  }

  module _ (n : NoFd w c.fd xs) (n' : NoFd w c.fd ys) where
    pub removed-InStep : InStep w (xs ++ (p, i) ∷ ys) s → InStep w (xs ++ ys) (removed c s)
    removed-InStep is = record {
      reads = clr-Agrees w fd_mask_read i c e xs ys p n n' s.fds_read is.reads;
      writes = clr-Agrees w fd_mask_write i c e xs ys p n n' s.fds_write is.writes;
      errors = clr-Agrees w fd_mask_error i c e xs ys p n n' s.fds_exp is.errors;
    }

    -- Clearing all three bits of the channel's descriptor and setting those of its mask.
    pub reset-InStep :
        InStepBut c.fd w (xs ++ (p, i) ∷ ys) s
        → InStep w (xs ++ (p, i) ∷ ys) (added c (removed (record c { mask = 7 }) s))
    reset-InStep is = record {
      reads = reset-Agrees w fd_mask_read i c e xs ys p n n' s.fds_read is.reads;
      writes = reset-Agrees w fd_mask_write i c e xs ys p n n' s.fds_write is.writes;
      errors = reset-Agrees w fd_mask_error i c e xs ys p n n' s.fds_exp is.errors;
    }

-- Being in step depends on the channels alone.
module _ (w w' : World) (e : w'.channel_at ≡ w.channel_at) where
  wanted-same : (mask : ℕ) (xs : Cells) (fd : ℤ) → wanted w' mask xs fd ≡ wanted w mask xs fd
  wanted-same mask [] fd = refl
  wanted-same mask ((p, i) ∷ xs) fd =
      rw (ap (λ h. h i) e, fd_at, has_mask, wanted-same mask xs fd) refl

  pub InStep-same : (xs : Cells) (s : Select) → InStep w xs s → InStep w' xs s
  InStep-same xs s is = record {
    reads = λ fd. is.reads fd ∙ sym (wanted-same fd_mask_read xs fd);
    writes = λ fd. is.writes fd ∙ sym (wanted-same fd_mask_write xs fd);
    errors = λ fd. is.errors fd ∙ sym (wanted-same fd_mask_error xs fd);
  }

  pub InStepBut-same : (d : ℤ) (xs : Cells) (s : Select) → InStepBut d w xs s → InStepBut d w' xs s
  InStepBut-same d xs s is = record {
    reads = λ fd k. is.reads fd k ∙ sym (wanted-same fd_mask_read xs fd);
    writes = λ fd k. is.writes fd k ∙ sym (wanted-same fd_mask_write xs fd);
    errors = λ fd k. is.errors fd k ∙ sym (wanted-same fd_mask_error xs fd);
  }

strip_bit :
    (b m b' q s x y : Bool)
    → b' ≡ (b && not m)
    → s ≡ (x || ((q && b) || y))
    → (q ≡ true → x ≡ false)
    → (q ≡ true → y ≡ false)
    → (if m then (if q then false else s) else s) ≡ (x || ((q && b') || y))
strip_bit b m b' q s x y h e k l = ground arith

-- The bits of `mask` leave the channel at `i` and its descriptor leaves their sets.
module _ (w w' : World) (i : Ptr) (c c' : Channel) (e : w.channel_at i ≡ some c)
    (e' : w'.channel_at i ≡ some c') (same_fd : c'.fd ≡ c.fd)
    (others : (a : Ptr) → a ≢ i → w'.channel_at a ≡ w.channel_at a) (mask : ℕ) (xs ys : Cells)
    (p : Ptr) (n : NoFd w c.fd xs) (n' : NoFd w c.fd ys) where
  wanted_others :
      (bit : ℕ) (zs : Cells) (fd : ℤ) → NoFd w c.fd zs → wanted w' bit zs fd ≡ wanted w bit zs fd
  wanted_others bit [] fd k = refl
  wanted_others bit ((q, j) ∷ zs) fd k =
      rw (others j (λ h. ne h), fd_at, has_mask, wanted_others bit zs fd k.1) refl
    where
      at_i : fd_at w i ≡ c.fd
      at_i = rw (e, fd_at) refl

      ne : j ≡ i → ⊥
      ne h = cc (k.0, eqb_ℤ-refl c.fd, ap (λ a. eqb_ℤ (fd_at w a) c.fd) h, at_i)

  strip-Agrees :
      (bit : ℕ) (set : FdSet)
      → is_exist_mask c' bit
        ≡ (is_exist_mask c bit && not (is_exist_mask (record c { mask = mask }) bit))
      → Agrees w bit (xs ++ (p, i) ∷ ys) set
      → Agrees w' bit
          (xs ++ (p, i) ∷ ys)
          (if is_exist_mask (record c { mask = mask }) bit then fd_clr c.fd set else set)
  strip-Agrees bit set bits a fd =
      line_at (is_exist_mask (record c { mask = mask }) bit) (fd_clr c.fd set) set fd
      ∙ strip_bit (is_exist_mask c bit) (is_exist_mask (record c { mask = mask }) bit)
          (is_exist_mask c' bit) (eqb_ℤ fd c.fd) (set fd) (wanted w bit xs fd) (wanted w bit ys fd)
          bits (a fd ∙ wanted_middle w bit i c e xs ys p fd) (wanted-NoFd w bit xs fd c.fd n)
          (wanted-NoFd w bit ys fd c.fd n')
      ∙ sym (
          wanted_middle w' bit i c' e' xs ys p fd
          ∙ rw (same_fd, wanted_others bit xs fd n, wanted_others bit ys fd n') refl)

  pub stripped-InStep :
      (s : Select)
      → ((k : ℕ)
          → k < 4
          → is_exist_mask c' (2 ^ k)
            ≡ (is_exist_mask c (2 ^ k) && not (is_exist_mask (record c { mask = mask }) (2 ^ k))))
      → InStep w (xs ++ (p, i) ∷ ys) s
      → InStep w' (xs ++ (p, i) ∷ ys) (removed (record c { mask = mask }) s)
  stripped-InStep s bits is = record {
    reads = strip-Agrees fd_mask_read s.fds_read (bits 0 (omega arith)) is.reads;
    writes = strip-Agrees fd_mask_write s.fds_write (bits 1 (omega arith)) is.writes;
    errors = strip-Agrees fd_mask_error s.fds_exp (bits 2 (omega arith)) is.errors;
  }

-- A channel with no bit waits for nothing.
module _ (w : World) (i : Ptr) (c : Channel) (e : w.channel_at i ≡ some c) (empty : c.mask ≡ 0)
    (xs ys : Cells) (p : Ptr) where
  drop-Agrees :
      (bit : ℕ) (set : FdSet)
      → is_exist_mask c bit ≡ false
      → Agrees w bit (xs ++ (p, i) ∷ ys) set
      → Agrees w bit (xs ++ ys) set
  drop-Agrees bit set no_bit a fd =
      a fd
      ∙ wanted_middle w bit i c e xs ys p fd
      ∙ ground (arith, no_bit, wanted-append w bit xs ys fd)

  pub dropped-InStep : (s : Select) → InStep w (xs ++ (p, i) ∷ ys) s → InStep w (xs ++ ys) s
  dropped-InStep s is = record {
    reads = drop-Agrees fd_mask_read s.fds_read (rw empty refl) is.reads;
    writes = drop-Agrees fd_mask_write s.fds_write (rw empty refl) is.writes;
    errors = drop-Agrees fd_mask_error s.fds_exp (rw empty refl) is.errors;
  }
