-- ===== src/EventChannel/Masks.antt =====
-- The mask operations as operations on four flags. The masks of src/event.h have the bits 1 to 8.
use Prim.Native.Nat.{bit_and, bit_or}
use eloop.Base.{
  ℕ, zero, suc, ◌/◌, ◌%◌, ◌^◌, ◌<◌, ◌≡◌, refl, Bool, true, false, ◌&&◌, ◌||◌, not, ◌==◌,
  if◌then◌else◌, arith,
}
use eloop.World.{Channel}
use eloop.EventChannel.{add_mask, remove_mask, is_exist_mask, complement}

-- Whether bit `i` is set.
abbrev pub flag : ℕ → ℕ → Bool
flag i mask = mask / 2 ^ i % 2 == 1

abbrev same : Bool → Bool → Bool
same true b = b
same false b = not b

-- Every flag of `mask` is set in `all`.
abbrev pub covers : (all mask : ℕ) → Bool
covers all mask =
    (not (flag 0 mask) || flag 0 all)
    && (not (flag 1 mask) || flag 1 all)
    && (not (flag 2 mask) || flag 2 all)
    && (not (flag 3 mask) || flag 3 all)

-- A test on every number below a bound, from the largest down.
holds_below : (ℕ → Bool) → ℕ → Bool
holds_below test zero = true
holds_below test (suc k) = if test k then holds_below test k else false

holds_below-lt : (test : ℕ → Bool) (k i : ℕ) → i < k → holds_below test k ≡ true → test i ≡ true
unfolding holds_below
holds_below-lt test zero i below all = absurd (omega arith)
holds_below-lt test (suc k) i below all = ground (arith, holds_below-lt test k i)

eq_of_same : (a b : Bool) → same a b ≡ true → a ≡ b
eq_of_same a b h = ground arith

-- A test of two masks and a bit, at every value.
module _ (test : ℕ → ℕ → ℕ → Bool)
    (table : holds_below (λ a. holds_below (λ b. holds_below (test a b) 4) 16) 16 ≡ true) where
  by_table : (a b i : ℕ) → a < 16 → b < 16 → i < 4 → test a b i ≡ true
  by_table a b i ha hb hi =
      let rows =
        holds_below-lt (λ x. holds_below (λ y. holds_below (test x y) 4) 16) 16 a ha table in
      let row = holds_below-lt (λ y. holds_below (test a y) 4) 16 b hb rows in
      holds_below-lt (test a b) 4 i hi row

abbrev or_test : ℕ → ℕ → ℕ → Bool
or_test a b i = same (flag i (bit_or a b)) (flag i a || flag i b)

abbrev and_not_test : ℕ → ℕ → ℕ → Bool
and_not_test a b i = same (flag i (bit_and a (complement b))) (flag i a && not (flag i b))

abbrev exist_test : ℕ → ℕ → ℕ → Bool
exist_test a b i = same (bit_and a b == b) (covers a b)

or_table : holds_below (λ a. holds_below (λ b. holds_below (or_test a b) 4) 16) 16 ≡ true
unfolding holds_below
or_table = refl

and_not_table : holds_below (λ a. holds_below (λ b. holds_below (and_not_test a b) 4) 16) 16 ≡ true
unfolding holds_below
and_not_table = refl

exist_table : holds_below (λ a. holds_below (λ b. holds_below (exist_test a b) 4) 16) 16 ≡ true
unfolding holds_below
exist_table = refl

-- For masks of the four bits: `event_channel_add_mask` sets the flags of `mask` and keeps the others,
-- `event_channel_remove_mask` clears the flags of `mask` and keeps the others, and
-- `event_channel_is_exist_mask` says whether all flags of `mask` are set.
pub mask_flags :
    (c : Channel) (mask i : ℕ)
    → c.mask < 16
    → mask < 16
    → i < 4
    → (flag i ((add_mask c mask).mask) ≡ (flag i c.mask || flag i mask))
      × (flag i ((remove_mask c mask).mask) ≡ (flag i c.mask && not (flag i mask)))
      × (is_exist_mask c mask ≡ covers c.mask mask)
mask_flags c mask i hc hm hi = (
  eq_of_same _ _ (by_table or_test or_table c.mask mask i hc hm hi),
  eq_of_same _ _ (by_table and_not_test and_not_table c.mask mask i hc hm hi),
  eq_of_same _ _ (by_table exist_test exist_table c.mask mask i hc hm hi),
)

-- The bit 2 ^ i of a mask after the bits of another have gone.
abbrev keep_test : ℕ → ℕ → ℕ → Bool
keep_test a b i =
    same (bit_and (bit_and a (complement b)) (2 ^ i) == 2 ^ i)
      ((bit_and a (2 ^ i) == 2 ^ i) && not (bit_and b (2 ^ i) == 2 ^ i))

keep_table : holds_below (λ a. holds_below (λ b. holds_below (keep_test a b) 4) 16) 16 ≡ true
unfolding holds_below
keep_table = refl

pub is_exist_remove :
    (c : Channel) (mask i : ℕ)
    → c.mask < 16
    → mask < 16
    → i < 4
    → is_exist_mask (remove_mask c mask) (2 ^ i)
      ≡ (is_exist_mask c (2 ^ i) && not (is_exist_mask (record c { mask = mask }) (2 ^ i)))
is_exist_remove c mask i hc hm hi =
    eq_of_same _ _ (by_table keep_test keep_table c.mask mask i hc hm hi)
