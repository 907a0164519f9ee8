-- ===== src/LinkedList/Updates.antt =====
-- What the pointer writes of src/common/list.c do to a segment.
use eloop.Base.{
  ◌≡◌, ◌≢◌, refl, sym, ap, ◌∙◌, ◌⊎◌, inl, inr, Option, none, some, [], ◌∷◌, ◌==◌, ne→==, Bool-cases,
  arith,
}
use eloop.Memory.{Ptr, null, Node, node, Nodes, Mem, ok, write, set_next, set_prev}
use eloop.LinkedList.{set_next_if, set_prev_if}
use eloop.LinkedList.Links.{Cells, has, ◌∈◌, ◌∉◌, first, last, last-mem, Links, frame}

-- `p->next = q` and `p->prev = q` at an address that holds a node.
unfoldable pub with_next : Nodes → Ptr → Ptr → Nodes
with_next h p q = elim (h p) [ none ↦ h | some n ↦ write h p (some (record n { next = q })) ]

unfoldable pub with_prev : Nodes → Ptr → Ptr → Nodes
with_prev h p q = elim (h p) [ none ↦ h | some n ↦ write h p (some (record n { prev = q })) ]

abbrev pub put : {D : Type 0} → Mem D → Nodes → Mem D
put m h = record m { node_at = h }

-- An address that a guarded write is safe at.
abbrev pub IsAlive : Nodes → Ptr → Type 0
IsAlive h p = (p ≡ null) ⊎ ((n : Node) × (h p ≡ some n))

module _ (h : Nodes) (p q : Ptr) where
  pub with_next-ne : (a : Ptr) → a ≢ p → with_next h p q a ≡ h a
  unfolding with_next
  with_next-ne a e = ground (arith, ne→== a p e)

  pub with_prev-ne : (a : Ptr) → a ≢ p → with_prev h p q a ≡ h a
  unfolding with_prev
  with_prev-ne a e = ground (arith, ne→== a p e)

  pub with_next_self :
      (b n i : Ptr) → h p ≡ some (node b n i) → with_next h p q p ≡ some (node b q i)
  unfolding with_next
  with_next_self b n i e = ground arith

  pub with_prev_self :
      (b n i : Ptr) → h p ≡ some (node b n i) → with_prev h p q p ≡ some (node q n i)
  unfolding with_prev
  with_prev_self b n i e = ground arith

  pub with_next-none : (a : Ptr) → h a ≡ none → with_next h p q a ≡ none
  unfolding with_next
  with_next-none a e = ground arith

  pub with_prev-none : (a : Ptr) → h a ≡ none → with_prev h p q a ≡ none
  unfolding with_prev
  with_prev-none a e = ground arith

  with_next-off : h p ≡ none → with_next h p q ≡ h
  unfolding with_next
  with_next-off e = rw (e, with_next)

  with_prev-off : h p ≡ none → with_prev h p q ≡ h
  unfolding with_prev
  with_prev-off e = rw (e, with_prev)

  pub with_next-IsAlive : (a : Ptr) → IsAlive h a → IsAlive (with_next h p q) a
  unfolding with_next
  with_next-IsAlive a (inl e) = inl e
  with_next-IsAlive a (inr (n, e)) = at (h p) refl
    where
      at : (o : Option Node) → h p ≡ o → IsAlive (with_next h p q) a
      at none k = inr (n, ground arith)
      at (some r) k = elim (Bool-cases (a == p)) [
        | inl hit ↦ inr (record r { next = q }, ground arith)
        | inr miss ↦ inr (n, ground arith)
      ]

  pub with_prev-IsAlive : (a : Ptr) → IsAlive h a → IsAlive (with_prev h p q) a
  unfolding with_prev
  with_prev-IsAlive a (inl e) = inl e
  with_prev-IsAlive a (inr (n, e)) = at (h p) refl
    where
      at : (o : Option Node) → h p ≡ o → IsAlive (with_prev h p q) a
      at none k = inr (n, ground arith)
      at (some r) k = elim (Bool-cases (a == p)) [
        | inl hit ↦ inr (record r { prev = q }, ground arith)
        | inr miss ↦ inr (n, ground arith)
      ]

ne_of_mem : (a p : Ptr) (xs : Cells) → a ∈ xs → p ∉ xs → a ≢ p
ne_of_mem a p xs i o e = cc (ap (λ k. has k xs) e)

module _ (h : Nodes) (p : Ptr) (before : Ptr) (xs : Cells) (stop : Ptr) (s : Links h before xs stop)
    (out : p ∉ xs) where
  pub frame-next : (q : Ptr) → Links (with_next h p q) before xs stop
  frame-next q = frame before xs stop s (λ a i. with_next-ne h p q a (ne_of_mem a p xs i out))

  pub frame-prev : (q : Ptr) → Links (with_prev h p q) before xs stop
  frame-prev q = frame before xs stop s (λ a i. with_prev-ne h p q a (ne_of_mem a p xs i out))

  pub frame-write : (c : Option Node) → Links (write h p c) before xs stop
  frame-write c = frame before xs stop s (λ a i. ground (arith, ne→== a p (ne_of_mem a p xs i out)))

-- Writing the `next` of the last cell moves the end of the segment.
pub relink_next :
    (h : Nodes) (q before : Ptr) (xs : Cells) (stop to : Ptr)
    → Links h before xs stop
    → Links (with_next h (last xs q) to) before xs to
relink_next h q before [] stop to s = tt
relink_next h q before ((p, i) ∷ []) stop to s =
    (s.0, with_next_self h p to before stop i s.1, refl, tt)
relink_next h q before ((p, i) ∷ (r, j) ∷ xs) stop to s = (
  s.0,
  with_next-ne h (last xs r) to p (λ e. ne_of_mem _ p ((r, j) ∷ xs) (last-mem r j xs p) s.2 (sym e))
      ∙ s.1,
  s.2,
  relink_next h p p ((r, j) ∷ xs) stop to s.3,
)

-- Writing the `prev` of the first cell moves the start of the segment.
pub relink_prev :
    (h : Nodes) (q before : Ptr) (xs : Cells) (stop from : Ptr)
    → Links h before xs stop
    → Links (with_prev h (first xs q) from) from xs stop
relink_prev h q before [] stop from s = tt
relink_prev h q before ((p, i) ∷ xs) stop from s = (
  s.0,
  with_prev_self h p from before (first xs stop) i s.1,
  s.2,
  frame-prev h p p xs stop s.3 s.2 from,
)

pub last-IsAlive :
    (h : Nodes) (before : Ptr) (xs : Cells) (stop : Ptr)
    → Links h before xs stop
    → IsAlive h before
    → IsAlive h (last xs before)
last-IsAlive h before [] stop s a = a
last-IsAlive h before ((p, i) ∷ xs) stop s a =
    last-IsAlive h p xs stop s.3 (inr (node before (first xs stop) i, s.1))

pub first-IsAlive :
    (h : Nodes) (before : Ptr) (xs : Cells) (stop : Ptr)
    → Links h before xs stop
    → IsAlive h stop
    → IsAlive h (first xs stop)
first-IsAlive h before [] stop s a = a
first-IsAlive h before ((p, i) ∷ xs) stop s a = inr (node before (first xs stop) i, s.1)

module _ {D : Type 0} (m : Mem D) (p q : Ptr) where
  -- The guarded writes, and the plain ones at a node, in one equation.
  pub set_next_if-ok :
      m.node_at null ≡ none
      → IsAlive m.node_at p
      → set_next_if p q m ≡ ok tt (put m (with_next m.node_at p q))
  unfolding set_next_if
  set_next_if-ok z (inl e) =
      rw e (ap (λ g. ok tt (put m g)) (sym (with_next-off m.node_at null q z)))
  set_next_if-ok z (inr (n, e)) = unfold with_next set_next in ground arith

  pub set_prev_if-ok :
      m.node_at null ≡ none
      → IsAlive m.node_at p
      → set_prev_if p q m ≡ ok tt (put m (with_prev m.node_at p q))
  unfolding set_prev_if
  set_prev_if-ok z (inl e) =
      rw e (ap (λ g. ok tt (put m g)) (sym (with_prev-off m.node_at null q z)))
  set_prev_if-ok z (inr (n, e)) = unfold with_prev set_prev in ground arith

  pub set_next-ok :
      p ≢ null
      → (n : Node) → m.node_at p ≡ some n
      → set_next p q m ≡ ok tt (put m (with_next m.node_at p q))
  unfolding set_next with_next
  set_next-ok ne n e = ground arith

  pub set_prev-ok :
      p ≢ null
      → (n : Node) → m.node_at p ≡ some n
      → set_prev p q m ≡ ok tt (put m (with_prev m.node_at p q))
  unfolding set_prev with_prev
  set_prev-ok ne n e = ground arith

-- The two writes of an unlinking touch nothing away from the neighbours.
pub writes-ne :
    (h : Nodes) (a : Ptr) (xs ys : Cells) (p q : Ptr)
    → a ≢ p
    → a ≢ q
    → with_prev (with_next h p q) q p a ≡ h a
writes-ne h a xs ys p q e f = with_prev-ne (with_next h p q) q p a f ∙ with_next-ne h p q a e
