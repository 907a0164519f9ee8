-- ===== src/LinkedList/Links.antt =====
-- What the nodes of a `struct list` stand for: the sequence of their addresses and data.
use eloop.Base.{
  Bool-cases, inl, inr, ◌≡◌, ◌≢◌, refl, sym, ap, ◌∙◌, Bool, true, false, ◌||◌, none, some, List, [],
  ◌∷◌, ◌++◌, ◌==◌, length, arith,
}
use eloop.Memory.{Ptr, null, node, handle, Nodes, Mem}

-- The address and the data pointer of each node, in order.
abbrev pub Cells : Type 0
Cells = List (Ptr × Ptr)

-- Some cell has the address.
abbrev pub has : Ptr → Cells → Bool
has a [] = false
has a (c ∷ xs) = (a == c.0) || has a xs

-- The address of the first and of the last cell, or `stop` if there is none.
abbrev pub first : Cells → Ptr → Ptr
first [] stop = stop
first ((p, _) ∷ xs) stop = p

abbrev pub last : Cells → Ptr → Ptr
last [] stop = stop
last ((p, _) ∷ xs) stop = last xs p

infix 40 ◌∈◌ ◌∉◌
abbrev pub ◌∉◌ : Ptr → Cells → Type 0
a ∉ xs = has a xs ≡ false

abbrev pub ◌∈◌ : Ptr → Cells → Type 0
a ∈ xs = has a xs ≡ true

-- From the first cell the `next` pointers lead through `xs` to `stop`, the `prev` pointers lead
-- back to `before`, and no address comes twice.
abbrev pub Links : Nodes → Ptr → Cells → Ptr → Type 0
Links h before [] stop = Unit {0}
Links h before ((p, i) ∷ xs) stop =
    (p ≢ null) × (h p ≡ some (node before (first xs stop) i)) × (p ∉ xs) × Links h p xs stop

-- `l` is the address of a list with the cells `xs`; no node lies at NULL.
pub record IsList {D : Type 0} (m : Mem D) (l : Ptr) (xs : Cells) : Type 0 where
  pub ne_null : l ≢ null
  pub unmapped : m.node_at null ≡ none
  pub header : m.list_at l ≡ some (handle (first xs null) (last xs null) (length xs))
  pub links : Links m.node_at null xs null

abbrev pub Disjoint : Cells → Cells → Type 0
Disjoint xs ys = (a : Ptr) → a ∈ xs → a ∉ ys

pub has-append : (a : Ptr) (xs ys : Cells) → has a (xs ++ ys) ≡ (has a xs || has a ys)
has-append a [] ys = refl
has-append a (x ∷ xs) ys = ground (arith, has-append a xs ys)

pub first-append : (xs ys : Cells) (s : Ptr) → first (xs ++ ys) s ≡ first xs (first ys s)
first-append [] ys s = refl
first-append (x ∷ xs) ys s = refl

pub last-append : (xs ys : Cells) (s : Ptr) → last (xs ++ ys) s ≡ last ys (last xs s)
last-append [] ys s = refl
last-append (x ∷ xs) ys s = last-append xs ys x.0

pub last-mem : (p i : Ptr) (xs : Cells) (s : Ptr) → last ((p, i) ∷ xs) s ∈ ((p, i) ∷ xs)
last-mem p i [] s = ground arith
last-mem p i ((q, j) ∷ xs) s = ground (arith, last-mem q j xs p)

module _ {h g : Nodes} where
  -- A segment survives any change that spares its own addresses.
  pub frame :
      (before : Ptr) (xs : Cells) (stop : Ptr)
      → Links h before xs stop
      → ((a : Ptr) → a ∈ xs → g a ≡ h a)
      → Links g before xs stop
  frame before [] stop s same = tt
  frame before ((p, i) ∷ xs) stop s same =
      (s.0, same p (ground arith) ∙ s.1, s.2, frame p xs stop s.3 (λ a k. same a (ground arith)))

module _ (h : Nodes) where
  pub null-not-mem : (before : Ptr) (xs : Cells) (stop : Ptr) → Links h before xs stop → null ∉ xs
  null-not-mem before [] stop s = refl
  null-not-mem before ((p, i) ∷ xs) stop s = ground (arith, null-not-mem p xs stop s.3)

  pub mem-ne-none :
      (a before : Ptr) (xs : Cells) (stop : Ptr) → Links h before xs stop → h a ≡ none → a ∉ xs
  mem-ne-none a before [] stop s e = refl
  mem-ne-none a before ((p, i) ∷ xs) stop s e = ground (arith, mem-ne-none a p xs stop s.3 e)

  pub Links-left :
      (before : Ptr) (xs ys : Cells) (stop : Ptr)
      → Links h before (xs ++ ys) stop
      → Links h before xs (first ys stop)
  Links-left before [] ys stop s = tt
  Links-left before ((p, i) ∷ xs) ys stop s = (
    s.0,
    s.1 ∙ ap (λ f. some (node before f i)) (first-append xs ys stop),
    ground (arith, has-append p xs ys, s.2),
    Links-left p xs ys stop s.3,
  )

  pub Links-right :
      (before : Ptr) (xs ys : Cells) (stop : Ptr)
      → Links h before (xs ++ ys) stop
      → Links h (last xs before) ys stop
  Links-right before [] ys stop s = s
  Links-right before ((p, i) ∷ xs) ys stop s = Links-right p xs ys stop s.3

  pub Links-Disjoint :
      (before : Ptr) (xs ys : Cells) (stop : Ptr) → Links h before (xs ++ ys) stop → Disjoint xs ys
  Links-Disjoint before [] ys stop s a k = cc
  Links-Disjoint before ((p, i) ∷ xs) ys stop s a k =
      ground (arith, has-append p xs ys, s.2, Links-Disjoint p xs ys stop s.3 a)

  pub Links-append :
      (before : Ptr) (xs ys : Cells) (stop : Ptr)
      → Links h before xs (first ys stop)
      → Links h (last xs before) ys stop
      → Disjoint xs ys
      → Links h before (xs ++ ys) stop
  Links-append before [] ys stop s t d = t
  Links-append before ((p, i) ∷ xs) ys stop s t d = (
    s.0,
    s.1 ∙ ap (λ f. some (node before f i)) (sym (first-append xs ys stop)),
    ground (arith, has-append p xs ys, s.2, d p),
    Links-append p xs ys stop s.3 t (λ a k. d a (ground arith)),
  )

pub ne-first : (q : Ptr) (ys : Cells) (stop : Ptr) → q ≢ stop → q ∉ ys → q ≢ first ys stop
ne-first q [] stop ne o = ne
ne-first q ((p, i) ∷ ys) stop ne o = λ e. ground arith

pub ne-last : (q : Ptr) (ys : Cells) (before : Ptr) → q ≢ before → q ∉ ys → q ≢ last ys before
ne-last q [] before ne o = ne
ne-last q ((p, i) ∷ ys) before ne o = ne-last q ys p (λ e. ground arith) (ground arith)

pub not-mem_of_mem : (q : Ptr) (xs ys : Cells) → Disjoint xs ys → q ∈ ys → q ∉ xs
not-mem_of_mem q xs ys d i = elim (Bool-cases (has q xs)) [ inl k ↦ cc (d q k) | inr k ↦ k ]

pub first-not-mem : (q : Ptr) (xs ys : Cells) → q ∉ xs → Disjoint xs ys → first ys q ∉ xs
first-not-mem q xs [] o d = o
first-not-mem q xs ((p, i) ∷ ys) o d = not-mem_of_mem p xs ((p, i) ∷ ys) d (ground arith)

pub last-not-mem : (q : Ptr) (xs ys : Cells) → q ∉ ys → Disjoint xs ys → last xs q ∉ ys
last-not-mem q [] ys o d = o
last-not-mem q ((p, i) ∷ xs) ys o d = d _ (last-mem p i xs q)

pub last-ne : (p i : Ptr) (bs : Cells) (q : Ptr) → q ∉ ((p, i) ∷ bs) → last ((p, i) ∷ bs) q ≢ q
last-ne p i bs q out e = cc (out, last-mem p i bs q, ap (λ a. has a ((p, i) ∷ bs)) e)

pub last-node :
    (h : Nodes) (before p i : Ptr) (xs : Cells) (stop : Ptr)
    → Links h before ((p, i) ∷ xs) stop
    → (b : Ptr) × (j : Ptr) × (h (last xs p) ≡ some (node b stop j))
last-node h before p i [] stop s = (before, i, s.1)
last-node h before p i ((q, j) ∷ xs) stop s = last-node h p q j xs stop s.3

pub ne_null_of_mem :
    (h : Nodes) (before : Ptr) (xs : Cells) (stop : Ptr)
    → Links h before xs stop
    → (a : Ptr) → a ∈ xs
    → a ≢ null
ne_null_of_mem h before xs stop s a i e =
    cc (null-not-mem h before xs stop s, i, ap (λ b. has b xs) e)
