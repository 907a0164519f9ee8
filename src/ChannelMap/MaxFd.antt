-- ===== src/ChannelMap/MaxFd.antt =====
-- `event_channel_map_get_max_fd`: the largest descriptor of a map.
use eloop.Base.{
  ℕ, zero, suc, ◌<◌, ◌≡◌, refl, ◌⊎◌, inl, inr, Bool-cases, true, false, [], ◌∷◌, ne→==,
  if◌then◌else◌, ℤ, minus_one, ltb_ℤ, length, arith,
}
use eloop.Memory.{Ptr, null, ok}
use eloop.LinkedList.Links.{Cells, first, Links}
use eloop.LinkedList.Access.{list_get_head-ok, list_get_next-ok, list_get_data-ok}
use eloop.World.{World, Memory}
use eloop.ChannelMap.{max_fd_loop, event_channel_map_get_max_fd}
use eloop.ChannelMap.Find.{AllChannels, fd_at, IsMap, load_map-ok, get_fd-ok}

-- `a ≤ b` of two ints.
abbrev pub ◌≤ℤ◌ : ℤ → ℤ → Type 0
a ≤ℤ b = ltb_ℤ b a ≡ false

infix 50 ◌≤ℤ◌
≤ℤ_refl : (a : ℤ) → a ≤ℤ a
≤ℤ_refl a = ground arith

≤ℤ_trans : (a b c : ℤ) → a ≤ℤ b → b ≤ℤ c → a ≤ℤ c
≤ℤ_trans a b c h k = ground arith

lt→≤ℤ : (a b : ℤ) → ltb_ℤ a b ≡ true → a ≤ℤ b
lt→≤ℤ a b h = ground arith

-- No channel of the cells has a descriptor above `r`.
abbrev pub AllAtMost : World → ℤ → Cells → Type 0
AllAtMost w r [] = Unit {0}
AllAtMost w r ((p, i) ∷ xs) = (fd_at w i ≤ℤ r) × AllAtMost w r xs

-- Some channel of the cells has the descriptor `r`.
abbrev pub Attains : World → ℤ → Cells → Type 0
Attains w r [] = ⊥
Attains w r ((p, i) ∷ xs) = (fd_at w i ≡ r) ⊎ Attains w r xs

module _ (m : Memory) where
  max_fd_loop-run :
      (fuel : ℕ) (before : Ptr) (ys : Cells) (ret : ℤ)
      → Links m.node_at before ys null
      → AllChannels m.user ys
      → length ys < fuel
      → (r : ℤ) × (max_fd_loop fuel (first ys null) ret m ≡ ok r m)
        × (ret ≤ℤ r)
        × AllAtMost m.user r ys
        × ((r ≡ ret) ⊎ Attains m.user r ys)
  unfolding max_fd_loop
  max_fd_loop-run zero before ys ret s a h = absurd (omega arith)
  max_fd_loop-run (suc fuel) before [] ret s a h = (ret, refl, ≤ℤ_refl ret, tt, inl refl)
  max_fd_loop-run (suc fuel) before ((p, i) ∷ ys) ret s a h =
      let fd : ℤ = fd_at m.user i in
      let next : ℤ = (if ltb_ℤ ret fd then fd else ret) in
      let (r, run, ge, most, at) = max_fd_loop-run fuel p ys next s.3 a.2 (omega arith) in
      (
        r,
        rw
            (
              ne→== p null s.0,
              list_get_data-ok m p _ s.0 s.1,
              get_fd-ok m i a.0 a.1,
              list_get_next-ok m p _ s.0 s.1,
            )
            run,
        ≤ℤ_trans ret next r (above ret fd) ge,
        (≤ℤ_trans fd next r (above' ret fd) ge, most),
        attained ret fd r at,
      )
    where
      above : (a b : ℤ) → a ≤ℤ (if ltb_ℤ a b then b else a)
      above a b = ground (arith, lt→≤ℤ a b, ≤ℤ_refl a)

      above' : (a b : ℤ) → b ≤ℤ (if ltb_ℤ a b then b else a)
      above' a b = ground (arith, ≤ℤ_refl b)

      attained :
          (a b r : ℤ)
          → (r ≡ (if ltb_ℤ a b then b else a)) ⊎ Attains m.user r ys
          → (r ≡ a) ⊎ (b ≡ r) ⊎ Attains m.user r ys
      attained a b r (inr k) = inr (inr k)
      attained a b r (inl e) = elim (Bool-cases (ltb_ℤ a b)) [
        | inl t ↦ inr (inl (ground arith))
        | inr t ↦ inl (ground arith)
      ]

  -- `event_channel_map_get_max_fd`, with more rounds than the map has channels: the result is at
  -- least -1 and at least every descriptor of the map, it is -1 or the descriptor of some channel of
  -- the map, and nothing changes.
  pub event_channel_map_get_max_fd-max :
      {map l : Ptr} {xs : Cells} (fuel : ℕ)
      → IsMap m map l xs
      → length xs < fuel
      → (r : ℤ) × (event_channel_map_get_max_fd fuel map m ≡ ok r m)
        × (minus_one ≤ℤ r)
        × AllAtMost m.user r xs
        × ((r ≡ minus_one) ⊎ Attains m.user r xs)
  unfolding event_channel_map_get_max_fd
  event_channel_map_get_max_fd-max {xs = xs} fuel is h =
      let (r, run, ge, most, at) =
        max_fd_loop-run fuel null xs minus_one is.list.links is.channels h in
      (r, rw (load_map-ok m is.ne_null is.at_map, list_get_head-ok is.list) run, ge, most, at)
