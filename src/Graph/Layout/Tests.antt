-- ===== src/Graph/Layout/Tests.antt =====
-- A menu that two trunks enter and that leads back to itself, laid out on whole numbers.
use benis_phone.Common.{
  ℕ, ◌+◌, ◌-◌, ◌/◌, ◌≡◌, refl, String, true, Option, none, some, List, [], ◌∷◌, map, is_some,
}
use benis_phone.Common.Text.{Text, codes, ◌=ₜ◌}
use benis_phone.Graph.Layout.{
  Coordinates, GraphNode, GraphEdge, LayoutState, NodeType, fn_node, action_node, queue_node,
  sip_input_node, run_tree_layout, has_node, point_at, children_of,
}
use benis_phone.Graph.Layout.Placed.{run_tree_layout-places}
use benis_phone.Graph.Layout.Placed.Effects.{Once}

abbrev whole : Coordinates ℕ
whole = record { of_nat = λ n. n; add = λ a b. a + b; sub = λ a b. a - b; half = λ a. a / 2 }

abbrev node : String → NodeType → GraphNode ℕ
node id kind = record { id = codes id; kind = kind; position = record { x = 0; y = 0 } }

abbrev edge : String → String → GraphEdge
edge a b = record { source = codes a; target = codes b }

abbrev nodes : List (GraphNode ℕ)
nodes =
    node "sip_a" sip_input_node
    ∷ node "fn_m" fn_node
    ∷ node "act_m_0" (action_node 0)
    ∷ node "act_m_1" (action_node 5)
    ∷ node "queue_q" queue_node
    ∷ []

abbrev edges : List GraphEdge
edges =
    edge "sip_a" "fn_m"
    ∷ edge "fn_m" "act_m_0"
    ∷ edge "fn_m" "act_m_1"
    ∷ edge "act_m_1" "fn_m"
    ∷ edge "act_m_0" "fn_gone"
    ∷ []

-- Key 5 stands before key 0.
children_of_menu :
    children_of whole nodes edges (codes "fn_m") ≡ codes "act_m_1" ∷ codes "act_m_0" ∷ []
unfolding children_of ◌=ₜ◌ codes
children_of_menu = refl

abbrev y_after : Text → Option (LayoutState ℕ) → Option ℕ
y_after id none = none
y_after id (some s) = elim (point_at s.points id) [ none ↦ none | some p ↦ some p.y ]

layout_of_menu :
    map
      (λ id. y_after (codes id) (run_tree_layout whole nodes edges))
      ("act_m_1" ∷ "act_m_0" ∷ "fn_m" ∷ "queue_q" ∷ [])
    ≡ some 0 ∷ some 116 ∷ some 72 ∷ some 232 ∷ []
unfolding run_tree_layout point_at ◌=ₜ◌ codes
layout_of_menu = refl

run_tree_layout-places_example :
    (t : LayoutState ℕ) × ((run_tree_layout whole nodes edges ≡ some t)
      × ((id : Text) → has_node whole nodes edges id ≡ true → is_some (point_at t.points id) ≡ true)
      × Once t.points)
run_tree_layout-places_example = run_tree_layout-places whole nodes edges
