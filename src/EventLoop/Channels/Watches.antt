-- ===== src/EventLoop/Channels/Watches.antt =====
-- The channels of src/event_loop.c with the backend of src/event_io_select.c: what it means that the
-- map and the three descriptor sets with their largest descriptor are in step.
use eloop.Base.{
  ◌≡◌, ◌≢◌, ◌⊎◌, refl, sym, Bool-cases, inl, inr, true, Option, some, [], ◌∷◌, ◌++◌, ◌==◌, ne→==,
  eq→==, ==→eq, if◌then◌else◌, ℤ, eqb_ℤ-refl, subst, arith,
}
use eloop.Memory.{Ptr, null, ok, write}
use eloop.LinkedList.Links.{Cells}
use eloop.World.{Select, Channel, Loop, World, Memory, load_channel}
use eloop.EventChannel.{event_channel_get_fd}
use eloop.ChannelMap.Find.{IsMap, fd_at, matches}
use eloop.ChannelMap.MaxFd.{AllAtMost}
use eloop.ChannelMap.Remove.{NoFd}
use eloop.EventIo.Select.Sets.{with_selects}
use eloop.EventIo.Select.InStep.{InStep, dropped-InStep}
use eloop.EventIo.Select.Poll.{IsAsked}
use eloop.EventLoop.Channels.Remove.{put_channel}

-- `eloop` is a loop whose map, with its list at `l`, has the cells `xs`, and whose backend has the
-- sets `s`.
pub record IsPolled (m : Memory) (eloop : Ptr) (lp : Loop) (l : Ptr) (xs : Cells) (s : Select)
    : Type 0 where
  pub ne_null : eloop ≢ null
  pub at_loop : m.user.loop_at eloop ≡ some lp
  pub channels : IsMap m lp.ec_map l xs
  pub io_ne_null : lp.fd_io ≢ null
  pub at_io : m.user.select_at lp.fd_io ≡ some s

-- The sets hold exactly what the channels of the map wait for, and `max_fd`, from which the next
-- poll takes the number of descriptors that select looks at, is no less than any descriptor of the
-- map, unless `fds_is_dirty` tells that poll to compute it anew.
pub record Watches (m : Memory) (eloop : Ptr) (lp : Loop) (l : Ptr) (xs : Cells) : Type 0 where
  pub sets : Select
  pub polled : IsPolled m eloop lp l xs sets
  pub in_step : InStep m.user xs sets
  pub max_known : (sets.fds_is_dirty ≡ true) ⊎ AllAtMost m.user sets.max_fd xs

pub fd_matches :
    (w : World) (i : Ptr) (c : Channel) → w.channel_at i ≡ some c → matches w c.fd i ≡ true
fd_matches w i c e = rw (e, fd_at) (eqb_ℤ-refl c.fd)

pub NoFd-selects :
    (m : Memory) (f : Ptr → Option Select) (fd : ℤ) (xs : Cells)
    → NoFd m.user fd xs
    → NoFd (with_selects m f).user fd xs
NoFd-selects m f fd [] n = tt
NoFd-selects m f fd ((p, i) ∷ xs) n = (n.0, NoFd-selects m f fd xs n.1)

pub get_fd-run :
    (m : Memory) (i : Ptr) (c : Channel)
    → i ≢ null
    → m.user.channel_at i ≡ some c
    → event_channel_get_fd i m ≡ ok c.fd m
unfolding event_channel_get_fd load_channel
get_fd-run m i c ne e = rw (ne→== i null ne, e) refl

pub written : (m : Memory) (i : Ptr) (c : Channel) → (put_channel m i c).user.channel_at i ≡ some c
written m i c = rw (eq→== i i refl) refl

-- A channel that is overwritten and put back.
pub rewritten :
    (m : Memory) (i : Ptr) (d c : Channel) (a : Ptr)
    → m.user.channel_at i ≡ some c
    → write (write m.user.channel_at i (some d)) i (some c) a ≡ m.user.channel_at a
rewritten m i d c a e = elim (Bool-cases (a == i)) [
  | inl hit ↦ rw (hit, ==→eq a i hit) (sym e)
  | inr miss ↦ rw miss refl
]

-- The cells that stay in the map.
pub InStep-left :
    (w : World) (i : Ptr) (c : Channel)
    → w.channel_at i ≡ some c
    → (xs ys : Cells) (p : Ptr) (s : Select) → InStep w (xs ++ (p, i) ∷ ys) s
    → InStep w (if c.mask == 0 then xs ++ ys else xs ++ (p, i) ∷ ys) s
InStep-left w i c e xs ys p s is = elim (Bool-cases (c.mask == 0)) [
  | inl empty ↦ rw empty (dropped-InStep w i c e (==→eq c.mask 0 empty) xs ys p s is)
  | inr left ↦ rw left is
]

-- On such a loop, the largest descriptor that the poll asks select about covers the whole map.
IsAsked-covers :
    {m : Memory} {eloop : Ptr} {lp : Loop} {l : Ptr} {xs : Cells} (is : Watches m eloop lp l xs)
    (top : ℤ)
    → IsAsked m.user xs is.sets top
    → AllAtMost m.user top xs
IsAsked-covers is top (inr (dirty, most, attained)) = most
IsAsked-covers {m} {xs = xs} is top (inl (clean, kept)) = elim is.max_known [
  | inl dirty ↦ absurd (ground (arith, dirty, clean))
  | inr known ↦ subst (λ n. AllAtMost m.user n xs) (sym kept) known
]
