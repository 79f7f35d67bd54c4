-- ===== src/Graph/Layout/Order.antt =====
-- The order of the children in the layout of ui/src/lib/fn-graph.ts: `childrenOf` against the order
-- of the keys on a telephone.
use benis_phone.Common.{
  ℕ, suc, ◌≤◌, ◌≡◌, inl, inr, Bool, true, Option, none, some, List, [], ◌∷◌, All, Bool-cases, ◌==◌,
  ltb, leb, if◌then◌else◌,
}
use benis_phone.Common.Table.{filter}
use benis_phone.Common.Text.{Text, max_safe_integer}
use benis_phone.Graph.Layout.{
  Coordinates, GraphNode, GraphEdge, Child, action_node, node_at, in_order, insert_child,
  sort_children,
}

-- The keys from the top of a telephone to its bottom; 11 is # and 10 is *.
abbrev pub keypad : List ℕ
keypad = 1 ∷ 2 ∷ 3 ∷ 4 ∷ 5 ∷ 6 ∷ 7 ∷ 8 ∷ 9 ∷ 0 ∷ 11 ∷ 10 ∷ []

abbrev pub index_in : List ℕ → ℕ → ℕ
index_in [] n = 0
index_in (k ∷ ks) n = if n == k then 0 else suc (index_in ks n)

-- Where a child stands: an action at its key or behind all keys, any other node behind the actions.
unfoldable pub place_of : {Num : Type 0} → Option (GraphNode Num) → ℕ
place_of none = 13
place_of (some n) = elim n.kind [ action_node k ↦ index_in keypad k | _ ↦ 13 ]

-- Each stands at no later place than all behind it.
unfoldable pub Ordered : (Text → ℕ) → List Text → Type 0
Ordered place [] = Unit
Ordered place (x ∷ xs) = All (λ y. place x ≤ place y) xs × Ordered place xs

-- The children are the targets, in the order of the keypad, and at one place in the order they had.
pub record IsKeypadOrder {Num : Type 0} (nodes : List (GraphNode Num)) (targets : List Text)
    (children : List Text) : Type 0 where
  pub ordered : Ordered (λ id. place_of (node_at nodes id)) children
  pub same :
      (k : ℕ)
      → filter (λ id. place_of (node_at nodes id) == k) children
        ≡ filter (λ id. place_of (node_at nodes id) == k) targets

-- The rank that the code gives to a place.
as_rank : ℕ → ℕ
as_rank p = if ltb p 12 then suc p else if p == 12 then 99 else max_safe_integer

-- Each child stands in order with all behind it.
InOrder : List Child → Type 0
InOrder [] = Unit
InOrder (a ∷ cs) = All (λ c. in_order a c ≡ true) cs × InOrder cs

pub All-insert_child :
    (P : Child → Type 0) (a : Child) (cs : List Child) → P a → All P cs → All P (insert_child a cs)
unfolding insert_child
All-insert_child P a [] p h = (p, tt)
All-insert_child P a (b ∷ bs) p (q, h) = elim (Bool-cases (in_order a b)) [
  | inl t ↦ let r : All P (a ∷ b ∷ bs) = (p, (q, h)) in rw t r
  | inr f ↦ let r : All P (b ∷ insert_child a bs) = (q, All-insert_child P a bs p h) in rw f r
]

pub All-sort_children : (P : Child → Type 0) (cs : List Child) → All P cs → All P (sort_children cs)
unfolding sort_children
All-sort_children P [] h = tt
All-sort_children P (a ∷ cs) (pa, h) =
    All-insert_child P a (sort_children cs) pa (All-sort_children P cs h)

-- The indices grow.
Increasing : List Child → Type 0
Increasing [] = Unit
Increasing (a ∷ cs) = All (λ (b : Child). leb a.index b.index ≡ true) cs × Increasing cs

module _ (place : Text → ℕ) (bound : (id : Text) → place id ≤ 13) where
  -- The rank of a child is that of its place.
  abbrev Ranked : Child → Type 0
  Ranked c = c.rank ≡ as_rank (place c.id)

  abbrev at : ℕ → Child → Bool
  at k c = place c.id == k

module _ {Num : Type 0} (num : Coordinates Num) (nodes : List (GraphNode Num))
    (edges : List GraphEdge) where
  abbrev place : Text → ℕ
  place id = place_of (node_at nodes id)
