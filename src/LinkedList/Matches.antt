-- ===== src/LinkedList/Matches.antt =====
-- The cells that the searching removals of src/common/list.c drop, by recursion on the sequence.
use eloop.Base.{
  ℕ, ◌+◌, ◌<◌, ◌≡◌, refl, ap, ◌∙◌, ◌⊎◌, inl, inr, Bool-cases, true, false, [], ◌∷◌, ◌++◌,
  if◌then◌else◌, length, length-append, arith,
}
use eloop.Memory.{Ptr, null}
use eloop.LinkedList.{DataCmp, FreeData, is_equal, release}
use eloop.LinkedList.Links.{Cells}
use eloop.LinkedList.Find.{find_cell}

module _ {D : Type 0} (cmp : DataCmp D) (f : FreeData D) (item : Ptr) where
  -- The list, the rest of the memory and the number of matches when each matching cell has been
  -- dropped and its data released. A release may change what later comparisons see.
  unfoldable pub survivors : Cells → D → Cells
  survivors [] d = []
  survivors ((p, i) ∷ xs) d =
      let hit = is_equal cmp d i item in
      let rest = survivors xs (if hit then release f i d else d) in
      if hit then rest else (p, i) ∷ rest

  unfoldable pub released : Cells → D → D
  released [] d = d
  released ((p, i) ∷ xs) d = released xs (if is_equal cmp d i item then release f i d else d)

  unfoldable pub matches : Cells → D → ℕ
  matches [] d = 0
  matches ((p, i) ∷ xs) d =
      let hit = is_equal cmp d i item in
      (if hit then 1 else 0) + matches xs (if hit then release f i d else d)

  -- No cell of the list matches.
  abbrev pub NoMatch : Cells → D → Type 0
  NoMatch [] d = Unit {0}
  NoMatch ((p, i) ∷ xs) d = (is_equal cmp d i item ≡ false) × NoMatch xs d

  pub record Split (ys : Cells) (d : D) : Type 0 where
    pub before : Cells
    pub p : Ptr
    pub i : Ptr
    pub after : Cells
    pub parts : ys ≡ before ++ (p, i) ∷ after
    pub miss : NoMatch before d
    pub hit : is_equal cmp d i item ≡ true
    pub found : find_cell cmp d item ys ≡ p

  pub split : (ys : Cells) (d : D) → (NoMatch ys d × (find_cell cmp d item ys ≡ null)) ⊎ Split ys d
  unfolding find_cell
  split [] d = inl (tt, refl)
  split ((q, j) ∷ ys) d = elim (Bool-cases (is_equal cmp d j item)) [
    | inl e ↦ inr (record {
      before = [];
      p = q;
      i = j;
      after = ys;
      parts = refl;
      miss = tt;
      hit = e;
      found = rw e;
    })
    | inr e ↦ elim (split ys d) [
      | inl (none_left, k) ↦ inl ((e, none_left), rw e k)
      | inr s ↦ inr (record {
        before = (q, j) ∷ s.before;
        p = s.p;
        i = s.i;
        after = s.after;
        parts = ap (λ r. (q, j) ∷ r) s.parts;
        miss = (e, s.miss);
        hit = s.hit;
        found = rw e s.found;
      })
    ]
  ]

  pub survivors-miss :
      (us zs : Cells) (d : D) → NoMatch us d → survivors (us ++ zs) d ≡ us ++ survivors zs d
  unfolding survivors
  survivors-miss [] zs d n = refl
  survivors-miss ((p, i) ∷ us) zs d n = rw n.0 (ap (λ r. (p, i) ∷ r) (survivors-miss us zs d n.1))

  pub released-miss : (us zs : Cells) (d : D) → NoMatch us d → released (us ++ zs) d ≡ released zs d
  unfolding released
  released-miss [] zs d n = refl
  released-miss ((p, i) ∷ us) zs d n = rw (n.0, released) (released-miss us zs d n.1)

  pub matches-miss : (us zs : Cells) (d : D) → NoMatch us d → matches (us ++ zs) d ≡ matches zs d
  unfolding matches
  matches-miss [] zs d n = refl
  matches-miss ((p, i) ∷ us) zs d n = rw n.0 (omega (arith, matches-miss us zs d n.1))

  -- The list without its first matching cell.
  unfoldable pub erase : Cells → D → Cells
  erase [] d = []
  erase ((p, i) ∷ xs) d = if is_equal cmp d i item then xs else (p, i) ∷ erase xs d

  pub erase-miss : (us zs : Cells) (d : D) → NoMatch us d → erase (us ++ zs) d ≡ us ++ erase zs d
  unfolding erase
  erase-miss [] zs d n = refl
  erase-miss ((p, i) ∷ us) zs d n = rw n.0 (ap (λ r. (p, i) ∷ r) (erase-miss us zs d n.1))

  -- The same facts where nothing matches, and at the first match.
  pub survivors-none : (ys : Cells) (d : D) → NoMatch ys d → survivors ys d ≡ ys
  unfolding survivors
  survivors-none [] d n = refl
  survivors-none ((p, i) ∷ ys) d n = rw n.0 (ap (λ r. (p, i) ∷ r) (survivors-none ys d n.1))

  pub released-none : (ys : Cells) (d : D) → NoMatch ys d → released ys d ≡ d
  unfolding released
  released-none [] d n = refl
  released-none ((p, i) ∷ ys) d n = rw (n.0, released) (released-none ys d n.1)

  pub matches-none : (ys : Cells) (d : D) → NoMatch ys d → matches ys d ≡ 0
  unfolding matches
  matches-none [] d n = refl
  matches-none ((p, i) ∷ ys) d n = rw n.0 (omega (arith, matches-none ys d n.1))

  module _ (ys : Cells) (d : D) (s : Split ys d) where
    pub survivors-split : survivors ys d ≡ s.before ++ survivors s.after (release f s.i d)
    survivors-split = rw s.parts (
        survivors-miss s.before _ d s.miss ∙ ap (λ r. s.before ++ r) (unfold survivors in rw s.hit))

    pub released-split : released ys d ≡ released s.after (release f s.i d)
    released-split =
        rw s.parts (released-miss s.before _ d s.miss ∙ (unfold released in rw (s.hit, released)))

    pub matches-split : matches ys d ≡ 1 + matches s.after (release f s.i d)
    matches-split = rw s.parts (matches-miss s.before _ d s.miss ∙ (unfold matches in rw s.hit))

    pub length-split : length s.after < length ys
    length-split = rw s.parts (omega (arith, length-append s.before ((s.p, s.i) ∷ s.after)))

    pub erase-split : erase ys d ≡ s.before ++ s.after
    erase-split =
        rw s.parts
          (erase-miss s.before _ d s.miss ∙ ap (λ r. s.before ++ r) (unfold erase in rw s.hit))
