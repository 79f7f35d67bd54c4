-- ===== src/Graph/Layout/Placed/Children.antt =====
-- The children of a node in the layout of ui/src/lib/fn-graph.ts are nodes.
use benis_phone.Common.{
  ℕ, suc, ◌≡◌, inl, inr, Bool, true, List, [], ◌∷◌, map, All, Bool-cases, and-true,
}
use benis_phone.Common.Table.{filter}
use benis_phone.Common.Text.{Text}
use benis_phone.Graph.Layout.{
  Coordinates, GraphNode, GraphEdge, LayoutState, Child, ranked, out_edges, children_of, kids_of,
  has_node,
}
use benis_phone.Graph.Layout.Order.{All-sort_children}

module _ {ℓ κ} {A : Type ℓ} (P : A → Type κ) (p : A → Bool) where
  -- The items of a filtered list have what the test gives them.
  All-filter : (xs : List A) → ((x : A) → p x ≡ true → P x) → All P (filter p xs)
  unfolding filter
  All-filter [] h = tt
  All-filter (x ∷ xs) h = elim (Bool-cases (p x)) [
    | inl t ↦ let r : P x × All P (filter p xs) = (h x t, All-filter xs h) in rw t r
    | inr f ↦ rw f (All-filter xs h)
  ]

  All-filter_keep : (xs : List A) → All P xs → All P (filter p xs)
  unfolding filter
  All-filter_keep [] h = tt
  All-filter_keep (x ∷ xs) (a, h) = elim (Bool-cases (p x)) [
    | inl t ↦ let r : P x × All P (filter p xs) = (a, All-filter_keep xs h) in rw t r
    | inr f ↦ rw f (All-filter_keep xs h)
  ]

module _ {Num : Type 0} (num : Coordinates Num) (nodes : List (GraphNode Num))
    (edges : List GraphEdge) where
  abbrev IsNode : Text → Type 0
  IsNode id = has_node num nodes edges id ≡ true

  ranked-All :
      (i : ℕ) (es : List GraphEdge)
      → All (λ (e : GraphEdge). IsNode e.target) es
      → All (λ (c : Child). IsNode c.id) (ranked num nodes edges i es)
  unfolding ranked
  ranked-All i [] h = tt
  ranked-All i (e ∷ es) (a, h) = (a, ranked-All (suc i) es h)

  map-All :
      (cs : List Child)
      → All (λ (c : Child). IsNode c.id) cs
      → All IsNode (map (λ (c : Child). c.id) cs)
  map-All [] h = tt
  map-All (c ∷ cs) (a, h) = (a, map-All cs h)

  children_of-IsNode : (id : Text) → All IsNode (children_of num nodes edges id)
  unfolding children_of out_edges
  children_of-IsNode id =
      let targets =
        All-filter (λ (e : GraphEdge). IsNode e.target) _ edges
          (λ e h.
            (and-true (has_node num nodes edges e.source) (has_node num nodes edges e.target)
              (and-true _ _ h).0).1) in
      map-All _ (All-sort_children (λ (c : Child). IsNode c.id) _ (ranked-All 0 _ targets))

  pub kids_of-IsNode : (id : Text) (s : LayoutState Num) → All IsNode (kids_of num nodes edges id s)
  unfolding kids_of
  kids_of-IsNode id s = All-filter_keep IsNode _ _ (children_of-IsNode id)
