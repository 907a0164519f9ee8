-- ===== src/Memory.antt =====
-- The memory that the containers of src/common/list.c live in, and commands over it.
-- A command runs from a memory to a value and a new memory; it faults where the C code would read
-- or write through NULL or through an address that holds nothing of that kind.
use eloop.Base.{ℕ, Bool, Option, none, some, ◌==◌, if◌then◌else◌}

abbrev pub Ptr : Type 0
Ptr = ℕ

abbrev pub null : Ptr
null = 0

-- `struct list_node`; `item` is its `data`.
pub record Node : Type 0 where
  pub prev : Ptr
  pub next : Ptr
  pub item : Ptr

abbrev pub node : Ptr → Ptr → Ptr → Node
node p n i = record { prev = p; next = n; item = i }

-- `struct list`.
pub record Handle : Type 0 where
  pub head : Ptr
  pub tail : Ptr
  pub length : ℕ

abbrev pub handle : Ptr → Ptr → ℕ → Handle
handle h t n = record { head = h; tail = t; length = n }

abbrev pub Nodes : Type 0
Nodes = Ptr → Option Node

-- `user` is the rest of the program's memory, on which the callbacks act.
pub record Mem (D : Type 0) : Type 0 where
  pub node_at : Nodes
  pub list_at : Ptr → Option Handle
  pub user : D

pub data Run (D A : Type 0) : Type 0 where
  ok : A → Mem D → Run D A
  fault : Run D A
  out_of_fuel : Run D A

abbrev pub Cmd : Type 0 → Type 0 → Type 0
Cmd D A = Mem D → Run D A

abbrev pub pure : {D A : Type 0} → A → Cmd D A
pure = ok

module _ {D A B : Type 0} where
  abbrev pub and_then : Run D A → (A → Cmd D B) → Run D B
  and_then (ok a m) k = k a m
  and_then fault k = fault
  and_then out_of_fuel k = out_of_fuel

  infixl 5 ◌>>=◌ ◌>>◌
  abbrev pub ◌>>=◌ : Cmd D A → (A → Cmd D B) → Cmd D B
  c >>= k = λ m. and_then (c m) k

  abbrev pub ◌>>◌ : Cmd D A → Cmd D B → Cmd D B
  c >> k = c >>= λ _. k

-- `if (test) command;`
abbrev pub when : {D : Type 0} → Bool → Cmd D (Unit {0}) → Cmd D (Unit {0})
when b c = if b then c else pure tt

abbrev pub write {ℓ} : {A : Type ℓ} → (Ptr → Option A) → Ptr → Option A → Ptr → Option A
write h p c a = if a == p then c else h a

module _ {D : Type 0} where
  -- `*p` of a `struct list_node *`.
  unfoldable pub load : Ptr → Cmd D Node
  load p m = if p == null then fault else elim (m.node_at p) [ none ↦ fault | some n ↦ ok n m ]

  unfoldable pub store : Ptr → Option Node → Cmd D (Unit {0})
  store p c m = ok tt (record m { node_at = write m.node_at p c })

  -- `p->next = q`.
  unfoldable pub set_next : Ptr → Ptr → Cmd D (Unit {0})
  unfolding load store
  set_next p q = do n ← load p; store p (some (record n { next = q }))

  -- `p->prev = q`.
  unfoldable pub set_prev : Ptr → Ptr → Cmd D (Unit {0})
  unfolding load store
  set_prev p q = do n ← load p; store p (some (record n { prev = q }))

  -- `free(p)` of a node.
  unfoldable pub free_node : Ptr → Cmd D (Unit {0})
  unfolding load store
  free_node p = do load p; store p none

  -- `*l` of a `struct list *`.
  unfoldable pub load_list : Ptr → Cmd D Handle
  load_list l m = if l == null then fault else elim (m.list_at l) [ none ↦ fault | some h ↦ ok h m ]

  unfoldable pub store_list : Ptr → Option Handle → Cmd D (Unit {0})
  store_list l c m = ok tt (record m { list_at = write m.list_at l c })

  -- A callback changes the rest of the memory alone.
  unfoldable pub act : (D → D) → Cmd D (Unit {0})
  act f m = ok tt (record m { user = f m.user })

-- Total correctness of a run: it ends with no fault, and its value and memory meet `P`.
abbrev pub Ensures : {D A : Type 0} → (A → Mem D → Type 0) → Run D A → Type 0
Ensures P (ok a m) = P a m
Ensures P fault = ⊥
Ensures P out_of_fuel = ⊥
