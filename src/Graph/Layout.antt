-- ===== src/Graph/Layout.antt =====
-- `runTreeLayout` of ui/src/lib/fn-graph.ts: the nodes and edges as it reads them, the order of a
-- node's children, and the placing of the subtrees. Positions are JavaScript's numbers, whose
-- addition, subtraction and halving are a parameter. What the code writes into the node objects
-- stands in two tables of the state, keyed by the node's id: of two nodes with one id the code knows
-- the later alone, and leaves the earlier where it is.
pub mod Order
pub mod Placed
mod Tests
use benis_phone.Common.{
  ◌>>=◌, ℕ, zero, suc, ◌+◌, ◌*◌, ◌<◌, Bool, true, false, not, ◌&&◌, ◌||◌, Option, none, some, List,
  [], ◌∷◌, ◌++◌, map, if◌then◌else◌, is_some, length, ◌==◌, leb, ltb,
}
use benis_phone.Common.Table.{filter}
use benis_phone.Common.Text.{Text, ◌=ₜ◌, max_safe_integer}

-- The arithmetic of the vertical coordinates.
pub record Coordinates (Num : Type 0) : Type 0 where
  pub of_nat : ℕ → Num
  pub add : Num → Num → Num
  pub sub : Num → Num → Num
  pub half : Num → Num

-- The `type` of a node, an action node with `data.action.num`, which is no negative number.
pub data NodeType : Type 0 where
  fn_node : NodeType
  action_node : ℕ → NodeType
  queue_node : NodeType
  sip_input_node : NodeType

pub record Point (Num : Type 0) : Type 0 where
  pub x : ℕ
  pub y : Num

pub record GraphNode (Num : Type 0) : Type 0 where
  pub id : Text
  pub kind : NodeType
  pub position : Point Num

pub record GraphEdge : Type 0 where
  pub source : Text
  pub target : Text

unfoldable pub node_w : NodeType → ℕ
node_w fn_node = 220
node_w (action_node _) = 240
node_w queue_node = 220
node_w sip_input_node = 220

unfoldable pub node_h : NodeType → ℕ
node_h fn_node = 60
node_h (action_node _) = 88
node_h queue_node = 80
node_h sip_input_node = 64

abbrev pub col_w : ℕ
col_w = 320

abbrev pub row_gap : ℕ
row_gap = 28

-- 1 to 9, then 0, # (11) and * (10).
unfoldable pub keypad_rank : ℕ → ℕ
keypad_rank num =
    if leb 1 num && leb num 9
    then num
    else if num == 0
    then 10
    else if num == 11
    then 11
    else if num == 10
    then 12
    else 99

-- `set.has(id)`
unfoldable pub holds : List Text → Text → Bool
holds [] id = false
holds (x ∷ xs) id = (x =ₜ id) || holds xs id

pub record Child : Type 0 where
  pub id : Text
  pub rank : ℕ
  pub index : ℕ

-- `a.rank - b.rank || a.i - b.i` is not positive.
unfoldable pub in_order : Child → Child → Bool
in_order a b = ltb a.rank b.rank || ((a.rank == b.rank) && leb a.index b.index)

unfoldable pub insert_child : Child → List Child → List Child
unfolding in_order
insert_child a [] = a ∷ []
insert_child a (b ∷ bs) =
    let rest = insert_child a bs in if in_order a b then a ∷ b ∷ bs else b ∷ rest

unfoldable pub sort_children : List Child → List Child
unfolding insert_child
sort_children [] = []
sort_children (a ∷ cs) = insert_child a (sort_children cs)

pub record LayoutState (Num : Type 0) : Type 0 where
  pub visited : List Text
  pub cursor : ℕ
  pub sizes : List (Text × (ℕ × ℕ))
  pub points : List (Text × Point Num)

unfoldable pub point_at : {Num : Type 0} → List (Text × Point Num) → Text → Option (Point Num)
point_at [] id = none
point_at ((k, p) ∷ ps) id = let rest = point_at ps id in if k =ₜ id then some p else rest

unfoldable pub last_center : {Num : Type 0} → Num → List Num → Num
last_center y [] = y
last_center y (z ∷ zs) = last_center z zs

-- `byId.get(id)`: of two nodes of one id the map holds the later.
unfoldable pub node_at : {Num : Type 0} → List (GraphNode Num) → Text → Option (GraphNode Num)
node_at [] id = none
node_at (n ∷ ns) id = elim (node_at ns id) [
  | some m ↦ some m
  | none ↦ if n.id =ₜ id then some n else none
]

module _ {Num : Type 0} (num : Coordinates Num) (nodes : List (GraphNode Num))
    (edges : List GraphEdge) where
  abbrev pub has_node : Text → Bool
  has_node id = is_some (node_at nodes id)

  -- `outEdges.get(id) ?? []`
  unfoldable pub out_edges : Text → List GraphEdge
  unfolding node_at filter
  out_edges id =
      filter (λ (e : GraphEdge). has_node e.source && has_node e.target && (e.source =ₜ id)) edges

  unfoldable pub rank_of : Option (GraphNode Num) → ℕ
  unfolding keypad_rank
  rank_of none = max_safe_integer
  rank_of (some n) = elim n.kind [ action_node k ↦ keypad_rank k | _ ↦ max_safe_integer ]

  unfoldable pub ranked : ℕ → List GraphEdge → List Child
  unfolding rank_of node_at
  ranked i [] = []
  ranked i (e ∷ es) =
      record { id = e.target; rank = rank_of (node_at nodes e.target); index = i }
      ∷ ranked (suc i) es

  unfoldable pub children_of : Text → List Text
  unfolding sort_children ranked out_edges
  children_of id = map (λ (c : Child). c.id) (sort_children (ranked 0 (out_edges id)))

  -- `n.position.y`, which is the node's own until it is placed.
  unfoldable pub y_of : LayoutState Num → GraphNode Num → Num
  unfolding point_at
  y_of s n = elim (point_at s.points n.id) [ none ↦ n.position.y | some p ↦ p.y ]

  -- The entry of a node: it is visited and gets its size.
  unfoldable pub enter : GraphNode Num → LayoutState Num → LayoutState Num
  unfolding node_w node_h
  enter n s = record {
    visited = n.id ∷ s.visited;
    cursor = s.cursor;
    sizes = (n.id, (node_w n.kind, node_h n.kind)) ∷ s.sizes;
    points = s.points;
  }

  -- `n.position = …`
  unfoldable pub put : GraphNode Num → ℕ → Num → LayoutState Num → LayoutState Num
  unfolding node_h
  put n depth center s =
      let y = num.sub center (num.half (num.of_nat (node_h n.kind))) in
      record {
        visited = s.visited;
        cursor = s.cursor;
        sizes = s.sizes;
        points = (n.id, record { x = depth * col_w; y = y }) ∷ s.points;
      }

  unfoldable pub advance : ℕ → LayoutState Num → LayoutState Num
  advance h s = record {
    visited = s.visited;
    cursor = s.cursor + (h + row_gap);
    sizes = s.sizes;
    points = s.points;
  }

  -- The center of a node behind its children, a leaf when there are none.
  unfoldable pub settle : GraphNode Num → ℕ → List Num × LayoutState Num → Num × LayoutState Num
  unfolding node_h put advance last_center
  settle n depth ([], s) =
      let h = node_h n.kind in
      let center = num.add (num.of_nat s.cursor) (num.half (num.of_nat h)) in
      (center, put n depth center (advance h s))
  settle n depth (y ∷ ys, s) =
      let center = num.half (num.add y (last_center y ys)) in (center, put n depth center s)

  -- `kids.map(c => place(c, depth + 1))`
  unfoldable pub place_all :
      (Text → LayoutState Num → Option (Num × LayoutState Num))
      → List Text
      → LayoutState Num
      → Option (List Num × LayoutState Num)
  place_all p [] s = some ([], s)
  place_all p (c ∷ cs) s = do (y, t) ← p c s; (ys, u) ← place_all p cs t; some (y ∷ ys, u)

  unfoldable pub kids_of : Text → LayoutState Num → List Text
  unfolding children_of holds filter
  kids_of id s = filter (λ c. not (holds s.visited c)) (children_of id)

  -- `place(id, depth)`; without fuel, and for an id that no node has, no result.
  unfoldable pub place : ℕ → Text → ℕ → LayoutState Num → Option (Num × LayoutState Num)
  unfolding node_at holds y_of node_h enter kids_of place_all settle
  place zero id depth s = none
  place (suc fuel) id depth s = elim (node_at nodes id) [
    | none ↦ none
    | some n ↦ elim (holds s.visited id) [
      | true ↦ some (num.add (y_of s n) (num.half (num.of_nat (node_h n.kind))), s)
      | false ↦ do
        done ← place_all (λ c t. place fuel c (suc depth) t) (kids_of id (enter n s)) (enter n s)
        some (settle n depth done)
    ]
  ]

  abbrev is_sip_input : NodeType → Bool
  is_sip_input sip_input_node = true
  is_sip_input _ = false

  abbrev is_menu : NodeType → Bool
  is_menu fn_node = true
  is_menu queue_node = true
  is_menu _ = false

  abbrev pub ids_of : List (GraphNode Num) → List Text
  ids_of = map (λ (n : GraphNode Num). n.id)

  abbrev pub input_roots : List Text
  input_roots = ids_of (filter (λ (n : GraphNode Num). is_sip_input n.kind) nodes)

  abbrev pub menu_roots : List Text
  menu_roots = ids_of (filter (λ (n : GraphNode Num). is_menu n.kind) nodes)

  unfoldable pub root_order : List Text
  unfolding filter
  root_order = input_roots ++ menu_roots ++ ids_of nodes

  unfoldable pub place_roots : ℕ → List Text → LayoutState Num → Option (LayoutState Num)
  unfolding place holds node_at
  place_roots fuel [] s = some s
  place_roots fuel (id ∷ ids) s = elim (has_node id && not (holds s.visited id)) [
    | false ↦ place_roots fuel ids s
    | true ↦ do (_, t) ← place fuel id 0 s; place_roots fuel ids t
  ]

  -- The fuel is one more than the nodes.
  unfoldable pub run_tree_layout : Option (LayoutState Num)
  unfolding place_roots root_order
  run_tree_layout =
      place_roots (suc (length nodes)) root_order
        (record { visited = []; cursor = 0; sizes = []; points = [] })
