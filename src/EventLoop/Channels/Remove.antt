-- ===== src/EventLoop/Channels/Remove.antt =====
-- `event_loop_remove_fd` of src/event_loop.c, with a backend that leaves channels and maps alone.
use eloop.Base.{
  ℕ, ◌<◌, ◌≡◌, ◌≢◌, refl, ap, ◌∙◌, Bool-cases, inl, inr, true, false, some, [], ◌∷◌, ◌++◌, ◌==◌,
  if◌then◌else◌, ℤ, pos, eqb_ℤ, ne→==, eq→==, ==→eq, length,
}
use eloop.Memory.{Ptr, null, ok, write, pure, ◌>>◌}
use eloop.LinkedList.Links.{Cells}
use eloop.World.{Channel, World, Memory, Loop, load_channel, store_channel}
use eloop.EventChannel.{
  remove_mask, modify_channel, event_channel_get_mask, event_channel_set_mask,
  event_channel_remove_mask,
}
use eloop.ChannelMap.{event_channel_map_remove}
use eloop.ChannelMap.Find.{
  AllChannels, IsMap, fd_at, matches, channel_of, event_channel_map_find-run,
}
use eloop.ChannelMap.Remove.{NoFd, event_channel_map_remove-present}
use eloop.EventLoop.Timers.Insert.{load_loop-ok}
use eloop.EventIo.{EventIo}
use eloop.EventLoop.Channels.{event_loop_remove_fd}

-- What the backend does to the world, given its address and the channel's.
abbrev pub Backend : Type 0
Backend = Ptr → Ptr → World → World

pub record IsQuietBackend (g : Backend) : Type 0 where
  pub channels : (e a : Ptr) (w : World) → (g e a w).channel_at ≡ w.channel_at
  pub maps : (e a : Ptr) (w : World) → (g e a w).map_at ≡ w.map_at

abbrev pub backend : Backend → EventIo
backend g = record {
  add_fd = λ e a m. ok (pos 0) (record m { user = g e a m.user });
  remove_fd = λ e a m. ok (pos 0) (record m { user = g e a m.user });
  poll = λ e a t m. ok (pos 0) m;
}

channel_of-present :
    (w : World) (fd : ℤ) (xs : Cells) (p i : Ptr) (ys : Cells)
    → NoFd w fd xs
    → matches w fd i ≡ true
    → channel_of w fd (xs ++ (p, i) ∷ ys) ≡ i
unfolding channel_of
channel_of-present w fd [] p i ys n h = rw h refl
channel_of-present w fd ((q, j) ∷ xs) p i ys n h = rw n.0 (channel_of-present w fd xs p i ys n.1 h)

-- The memory with another channel at an address.
abbrev pub put_channel : Memory → Ptr → Channel → Memory
put_channel m i c = record m {
  user = record (m.user) { channel_at = write m.user.channel_at i (some c) };
}

module _ (m : Memory) (i : Ptr) (c : Channel) (ne : i ≢ null)
    (e : m.user.channel_at i ≡ some c) where
  load_channel-ok : load_channel i m ≡ ok c m
  unfolding load_channel
  load_channel-ok = rw (ne→== i null ne, e)

  pub set_mask-ok :
      (mask : ℕ)
      → event_channel_set_mask i mask m ≡ ok tt (put_channel m i (record c { mask = mask }))
  unfolding event_channel_set_mask modify_channel store_channel
  set_mask-ok mask = rw load_channel-ok refl

  pub remove_mask-ok :
      (mask : ℕ) → event_channel_remove_mask i mask m ≡ ok tt (put_channel m i (remove_mask c mask))
  unfolding event_channel_remove_mask modify_channel store_channel
  remove_mask-ok mask = rw load_channel-ok refl

  pub get_mask-ok : event_channel_get_mask i m ≡ ok c.mask m
  unfolding event_channel_get_mask
  get_mask-ok = rw load_channel-ok refl

module _ (w w' : World) (i : Ptr) (c c' : Channel) (at : w.channel_at i ≡ some c)
    (at' : w'.channel_at i ≡ some c')
    (others : (a : Ptr) → a ≢ i → w'.channel_at a ≡ w.channel_at a) where
  pub AllChannels-kept : (xs : Cells) → AllChannels w xs → AllChannels w' xs
  AllChannels-kept [] a = tt
  AllChannels-kept ((p, j) ∷ xs) a = (a.0, one, AllChannels-kept xs a.2)
    where
      one : (d : Channel) × (w'.channel_at j ≡ some d)
      one = elim (Bool-cases (j == i)) [
        | inl hit ↦ (c', rw (==→eq j i hit) at')
        | inr miss ↦ (a.1.0, others j (λ k. cc (miss, eq→== j i k)) ∙ a.1.1)
      ]

  pub fd_kept : c'.fd ≡ c.fd → (a : Ptr) → fd_at w' a ≡ fd_at w a
  fd_kept same a = elim (Bool-cases (a == i)) [
    | inl hit ↦ rw (==→eq a i hit, fd_at, at', at) same
    | inr miss ↦ rw (others a (λ k. cc (miss, eq→== a i k)), fd_at) refl
  ]

  pub NoFd-kept : c'.fd ≡ c.fd → (fd : ℤ) (xs : Cells) → NoFd w fd xs → NoFd w' fd xs
  NoFd-kept same fd [] n = tt
  NoFd-kept same fd ((p, j) ∷ xs) n = (rw (fd_kept same j) n.0, NoFd-kept same fd xs n.1)

-- The memory while the backend sees the bits that go.
abbrev pub masked : Memory → Ptr → Channel → ℕ → Memory
masked m i c mask = put_channel m i (record c { mask = mask })

-- The section is about a backend whose call ends well and leaves the channels and the maps alone.
module _ (io : EventIo) {m : Memory} {eloop map l : Ptr} (lp : Loop) (c : Channel) (xs : Cells)
    (p i : Ptr) (ys : Cells) (eloop_ne : eloop ≢ null) (at_loop : m.user.loop_at eloop ≡ some lp)
    (is_map : lp.ec_map ≡ map) (is : IsMap m map l (xs ++ (p, i) ∷ ys)) (ne : i ≢ null)
    (e : m.user.channel_at i ≡ some c) (mask : ℕ) (w : World)
    (told : io.remove_fd lp.fd_io i (masked m i c mask)
      ≡ ok (pos 0) (record (masked m i c mask) { user = w }))
    (channels : w.channel_at ≡ (masked m i c mask).user.channel_at)
    (maps : w.map_at ≡ m.user.map_at) where
  -- The memory after the backend's call, and after each change of the channel.
  abbrev polled : Memory
  polled = record m { user = w }

  abbrev restored : Memory
  restored = put_channel polled i c

  abbrev cleared : Memory
  cleared = put_channel restored i (remove_mask c mask)

  written_self : (n : Memory) (d : Channel) → (put_channel n i d).user.channel_at i ≡ some d
  written_self n d = rw (eq→== i i refl) refl

  polled_same : polled.user.channel_at i ≡ some (record c { mask = mask })
  polled_same = ap (λ h. h i) channels ∙ written_self m (record c { mask = mask })

  cleared-others : (a : Ptr) → a ≢ i → cleared.user.channel_at a ≡ m.user.channel_at a
  cleared-others a k = rw (ne→== a i k) (ap (λ h. h a) channels ∙ rw (ne→== a i k) refl)

  cleared-IsMap : IsMap cleared map l (xs ++ (p, i) ∷ ys)
  cleared-IsMap = record {
    ne_null = is.ne_null;
    at_map = ap (λ h. h map) maps ∙ is.at_map;
    list = record {
      ne_null = is.list.ne_null;
      unmapped = is.list.unmapped;
      header = is.list.header;
      links = is.list.links;
    };
    channels =
        AllChannels-kept m.user cleared.user i c (remove_mask c mask) e
          (written_self restored (remove_mask c mask)) cleared-others (xs ++ (p, i) ∷ ys)
          is.channels;
  }

  -- The call up to its last test.
  remove_fd-run :
      (fuel : ℕ) (fd : ℤ)
      → length (xs ++ (p, i) ∷ ys) < fuel
      → NoFd m.user fd xs
      → matches m.user fd i ≡ true
      → event_loop_remove_fd io fuel eloop fd mask m
        ≡ (if (remove_mask c mask).mask == 0
              then (do event_channel_map_remove fuel map fd; pure (pos 0, true))
              else pure (pos 0, false))
            cleared
  unfolding event_loop_remove_fd
  remove_fd-run fuel fd h n hit =
      rw
        (
          load_loop-ok m eloop lp eloop_ne at_loop,
          is_map,
          event_channel_map_find-run m is fuel fd h,
          channel_of-present m.user fd xs p i ys n hit,
          ne→== i null ne,
          get_mask-ok m i c ne e,
          set_mask-ok m i c ne e mask,
          told,
          set_mask-ok polled i (record c { mask = mask }) ne polled_same c.mask,
          remove_mask-ok restored i c ne (written_self polled c) mask,
          get_mask-ok cleared i (remove_mask c mask) ne
              (written_self restored (remove_mask c mask)),
        )
        refl

  -- What the call leaves behind.
  abbrev pub Found : ℕ → ℤ → Type 0
  Found fuel fd =
      (m' : Memory) × (event_loop_remove_fd io fuel eloop fd mask m
        ≡ ok (pos 0, (remove_mask c mask).mask == 0) m')
      × IsMap m' map l (if (remove_mask c mask).mask == 0 then xs ++ ys else xs ++ (p, i) ∷ ys)
      × (m'.user ≡ cleared.user)

  pub remove_fd_told :
      (fuel : ℕ) (fd : ℤ)
      → length (xs ++ (p, i) ∷ ys) < fuel
      → NoFd m.user fd xs
      → matches m.user fd i ≡ true
      → Found fuel fd
  remove_fd_told fuel fd h n hit =
      let start = remove_fd-run fuel fd h n hit in
      let at4 = written_self restored (remove_mask c mask) in
      let n' =
        NoFd-kept m.user cleared.user i c (remove_mask c mask) e at4 cleared-others refl fd xs n in
      let hit' : matches cleared.user fd i ≡ true =
        ap (λ f. eqb_ℤ f fd)
          (fd_kept m.user cleared.user i c (remove_mask c mask) e at4 cleared-others refl i)
        ∙ hit in
      elim (Bool-cases ((remove_mask c mask).mask == 0)) [
        | inl empty ↦
            let (m', run, is', user) =
              event_channel_map_remove-present cleared fuel fd xs p i ys cleared-IsMap h n' hit' in
            (m', rw (start, empty, run) refl, rw empty is', user)
        | inr left ↦ (cleared, rw (start, left) refl, rw left cleared-IsMap, refl)
      ]

module _ {g : Backend} (quiet : IsQuietBackend g) {m : Memory} {eloop map l : Ptr} (lp : Loop)
    (c : Channel) (xs : Cells) (p i : Ptr) (ys : Cells) (eloop_ne : eloop ≢ null)
    (at_loop : m.user.loop_at eloop ≡ some lp) (is_map : lp.ec_map ≡ map)
    (is : IsMap m map l (xs ++ (p, i) ∷ ys)) (ne : i ≢ null) (e : m.user.channel_at i ≡ some c)
    (mask : ℕ) where
  -- `event_loop_remove_fd` of a descriptor that the loop's map has, with a backend that leaves channels
  -- and maps alone and more rounds than the map has channels: it returns 0, the first channel with
  -- the descriptor loses exactly the given bits of its mask, no other channel changes, and that
  -- channel leaves the map, with `*is_delete` set, exactly if no bit is left.
  event_loop_remove_fd-found :
      (fuel : ℕ) (fd : ℤ)
      → length (xs ++ (p, i) ∷ ys) < fuel
      → NoFd m.user fd xs
      → matches m.user fd i ≡ true
      → (m' : Memory) × (event_loop_remove_fd (backend g) fuel eloop fd mask m
          ≡ ok (pos 0, (remove_mask c mask).mask == 0) m')
        × IsMap m' map l (if (remove_mask c mask).mask == 0 then xs ++ ys else xs ++ (p, i) ∷ ys)
        × (m'.user.channel_at i ≡ some (remove_mask c mask))
        × ((a : Ptr) → a ≢ i → m'.user.channel_at a ≡ m.user.channel_at a)
  event_loop_remove_fd-found fuel fd h n hit =
      let seen = masked m i c mask in
      let w = g lp.fd_io i seen.user in
      let channels = quiet.channels lp.fd_io i seen.user in
      let maps = quiet.maps lp.fd_io i seen.user in
      let (m', run, is', user) =
        remove_fd_told (backend g) lp c xs p i ys eloop_ne at_loop is_map is ne e mask w refl
          channels maps fuel fd h n hit in
      (
        m',
        run,
        is',
        rw (user, eq→== i i refl) refl,
        λ a k. rw (user, ne→== a i k) (ap (λ h. h a) channels ∙ rw (ne→== a i k) refl),
      )
