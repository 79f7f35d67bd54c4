-- ===== src/Graph/Layout/Placed.antt =====
-- The layout of ui/src/lib/fn-graph.ts ends, and places every node: `place` enters a node that was
-- not visited, so the nodes that are left are fewer at each call.
mod Children
mod Pending
pub mod Effects
use benis_phone.Common.{
  ℕ, zero, suc, ◌+◌, ◌≤◌, ◌<◌, ◌≡◌, refl, sym, subst, ap, ◌⊎◌, inl, inr, Bool, true, false, not,
  ◌&&◌, ◌||◌, Option, none, some, List, [], ◌∷◌, ◌++◌, map, if◌then◌else◌, is_some, length, All,
  All-append, Bool-cases, Option-cases, and-true, ◌>>=◌, arith,
}
use benis_phone.Common.Text.{Text, ◌=ₜ◌, =ₜ_iff}
use benis_phone.Graph.Layout.{
  Coordinates, GraphNode, GraphEdge, LayoutState, Point, y_of, node_h, holds, point_at, node_at,
  enter, settle, put, advance, place_all, place, kids_of, ids_of, input_roots, menu_roots,
  place_roots, root_order, run_tree_layout, has_node,
}
use benis_phone.Graph.Layout.Placed.Children.{kids_of-IsNode}
use benis_phone.Graph.Layout.Placed.Pending.{
  pending, node_at-id, pending_grows, pending-length, pending_visit,
}
use benis_phone.Graph.Layout.Placed.Effects.{
  Once, Grown, Grown-refl, Grown-trans, settle-Grown, settle-visited,
}

All-append_right {ℓ κ} :
    {A : Type ℓ} (P : A → Type κ) (xs ys : List A) → All P (xs ++ ys) → All P ys
All-append_right P [] ys h = h
All-append_right P (x ∷ xs) ys (_, h) = All-append_right P xs ys h

All-node_at :
    {Num : Type 0} (P : Text → Type 0) (ns : List (GraphNode Num)) (id : Text)
    → All P (map (λ (n : GraphNode Num). n.id) ns)
    → is_some (node_at ns id) ≡ true
    → P id
unfolding node_at
All-node_at P [] id h k = absurd (ground arith)
All-node_at P (m ∷ ns) id (a, h) k = elim (Option-cases (node_at ns id)) [
  | inr (n, e) ↦ All-node_at P ns id h (ground (arith, e))
  | inl e ↦ elim (Bool-cases (m.id =ₜ id)) [
    | inl d ↦ subst P ((=ₜ_iff m.id id).0 d) a
    | inr d ↦ absurd (let k1 = rw (e, d) at k in ground arith)
  ]
]

module _ {Num : Type 0} (num : Coordinates Num) (nodes : List (GraphNode Num))
    (edges : List GraphEdge) where
  abbrev Placer : Type 0
  Placer = Text → LayoutState Num → Option (Num × LayoutState Num)

  -- A placer ends while fewer than `fuel` nodes are left.
  abbrev Ends : ℕ → Placer → Type 0
  Ends fuel p =
      (c : Text) (s : LayoutState Num)
      → has_node num nodes edges c ≡ true
      → pending s.visited nodes < fuel
      → (r : Num × LayoutState Num) × ((p c s ≡ some r)
          × Grown s r.1
          × (holds r.1.visited c ≡ true))

  place_all-Ends :
      (fuel : ℕ) (p : Placer)
      → Ends fuel p
      → (cs : List Text) (s : LayoutState Num) → All (λ c. has_node num nodes edges c ≡ true) cs
      → pending s.visited nodes < fuel
      → (r : List Num × LayoutState Num) × ((place_all num nodes edges p cs s ≡ some r)
          × Grown s r.1)
  unfolding place_all
  place_all-Ends fuel p ends [] s h lt = (([], s), (refl, Grown-refl s))
  place_all-Ends fuel p ends (c ∷ cs) s (a, h) lt =
      let ((y, t), (e, g, _)) = ends c s a lt in
      let less = pending_grows s.visited t.visited nodes g.grows in
      let ((ys, u), (d, k)) = place_all-Ends fuel p ends cs t h (omega (arith, lt, less)) in
      ((y ∷ ys, u), (rw (e, d), Grown-trans g k))

  place-Ends : (fuel : ℕ) (depth : ℕ) → Ends fuel (λ c s. place num nodes edges fuel c depth s)
  unfolding place enter
  place-Ends zero depth c s a lt = absurd (omega (arith, lt))
  place-Ends (suc fuel) depth c s a lt = elim (Option-cases (node_at nodes c)) [
    | inl e ↦ absurd (let b = rw e at a in ground arith)
    | inr (n, e) ↦ elim (Bool-cases (holds s.visited c)) [
      | inl t ↦
          let y = num.add (y_of num nodes edges s n) (num.half (num.of_nat (node_h n.kind))) in
          ((y, s), (rw (place, e, t), Grown-refl s, t))
      | inr f ↦
          let same = node_at-id nodes c {n = n} e in
          let less = pending_visit s.visited c nodes {n = n} f e in
          let t = enter num nodes edges n s in
          let fewer =
            subst (λ x. pending (x ∷ s.visited) nodes < pending s.visited nodes) (sym same) less in
          let left : pending t.visited nodes < fuel = omega (arith, fewer, lt) in
          let (done, (d, g)) =
            place_all-Ends fuel (λ c t. place num nodes edges fuel c (suc depth) t)
              (place-Ends fuel (suc depth)) (kids_of num nodes edges c t) t
              (kids_of-IsNode num nodes edges c t) left in
          let seen = settle-visited num nodes edges n depth s done g in
          let last = settle num nodes edges n depth done in
          (
            last,
            (
              rw (place, e, f, d),
              settle-Grown num nodes edges n depth s done
                  (subst (λ x. holds s.visited x ≡ false) (sym same) f) g,
              subst (λ x. holds last.1.visited x ≡ true) same seen,
            ),
          )
    ]
  ]

  abbrev Reached : LayoutState Num → Text → Type 0
  Reached t c = has_node num nodes edges c ≡ true → holds t.visited c ≡ true

  place_roots-places :
      (fuel : ℕ) (ids : List Text) (s : LayoutState Num)
      → pending s.visited nodes < fuel
      → (t : LayoutState Num) × ((place_roots num nodes edges fuel ids s ≡ some t)
          × Grown s t
          × All (Reached t) ids)
  unfolding place_roots
  place_roots-places fuel [] s lt = (s, (refl, Grown-refl s, tt))
  place_roots-places fuel (c ∷ cs) s lt =
      elim (Bool-cases (has_node num nodes edges c && not (holds s.visited c))) [
        | inr f ↦
            let (t, (e, g, h)) = place_roots-places fuel cs s lt in
            (t, (rw (place_roots, f, e), g, (λ a. g.grows c (ground arith), h)))
        | inl b ↦
            let ((y, t), (e, g, v)) = place-Ends fuel 0 c s ((and-true _ _ b).0) lt in
            let less = pending_grows s.visited t.visited nodes g.grows in
            let (u, (d, k, h)) = place_roots-places fuel cs t (omega (arith, lt, less)) in
            (u, (rw (place_roots, b, e, d), Grown-trans g k, (λ a. k.grows c v, h)))
      ]

  -- The layout ends within its fuel, without looking up an id that no node has, and for every id of a
  -- node it writes a position, exactly one, whatever cycles, unknown targets and repeated ids the
  -- graph has.
  pub run_tree_layout-places :
      (t : LayoutState Num) × ((run_tree_layout num nodes edges ≡ some t)
        × ((id : Text) → has_node num nodes edges id ≡ true → is_some (point_at t.points id) ≡ true)
        × Once t.points)
  unfolding run_tree_layout root_order holds point_at Once
  run_tree_layout-places =
      let start : LayoutState Num = record { visited = []; cursor = 0; sizes = []; points = [] } in
      let most = pending-length [] nodes in
      let (t, (e, g, h)) =
        place_roots-places (suc (length nodes)) (root_order num nodes edges) start
          (omega (arith, most)) in
      let first = input_roots num nodes edges ++ menu_roots num nodes edges in
      let every = All-append_right (Reached t) first (ids_of num nodes edges nodes) h in
      (
        t,
        (
          e,
          λ id a. elim (g.settles id (All-node_at (Reached t) nodes id every a a)) [
            | inl v ↦ absurd (ground arith)
            | inr p ↦ p
          ],
          g.once tt (λ x p. absurd (ground arith)),
        ),
      )
