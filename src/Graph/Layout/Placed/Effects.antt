-- ===== src/Graph/Layout/Placed/Effects.antt =====
-- What a call of `place` in ui/src/lib/fn-graph.ts leaves of the state of the layout.
use benis_phone.Common.{
  ℕ, ◌≡◌, refl, subst, ◌⊎◌, inl, inr, true, false, List, [], ◌∷◌, is_some, Bool-cases, arith,
}
use benis_phone.Common.Text.{Text, ◌=ₜ◌, =ₜ_iff}
use benis_phone.Graph.Layout.{
  Coordinates, GraphNode, GraphEdge, LayoutState, Point, holds, point_at, enter, settle, put,
  advance,
}
use benis_phone.Graph.Layout.Placed.Pending.{holds_more, holds_head}

-- The ids are distinct: each position was written once.
unfoldable pub Once : {Num : Type 0} → List (Text × Point Num) → Type 0
unfolding point_at
Once [] = Unit
Once ((k, p) ∷ ps) = (is_some (point_at ps k) ≡ false) × Once ps

-- Every position that was written is that of a visited node.
abbrev pub Inside : {Num : Type 0} → LayoutState Num → Type 0
Inside s = (x : Text) → is_some (point_at s.points x) ≡ true → holds s.visited x ≡ true

-- What a call leaves: visits and positions stay, and what it visited it placed.
pub record Grown {Num : Type 0} (s t : LayoutState Num) : Type 0 where
  pub grows : (x : Text) → holds s.visited x ≡ true → holds t.visited x ≡ true
  pub keeps :
      (x : Text) → is_some (point_at s.points x) ≡ true → is_some (point_at t.points x) ≡ true
  pub settles :
      (x : Text)
      → holds t.visited x ≡ true
      → (holds s.visited x ≡ true) ⊎ (is_some (point_at t.points x) ≡ true)
  pub news :
      (x : Text)
      → is_some (point_at t.points x) ≡ true
      → (is_some (point_at s.points x) ≡ true)
        ⊎ ((holds s.visited x ≡ false) × (holds t.visited x ≡ true))
  pub once : Once s.points → Inside s → Once t.points

pub Grown-refl : {Num : Type 0} (s : LayoutState Num) → Grown s s
Grown-refl s = record {
  grows = λ x h. h;
  keeps = λ x h. h;
  settles = λ x h. inl h;
  news = λ x h. inl h;
  once = λ o i. o;
}

pub Grown-trans : {Num : Type 0} {s t u : LayoutState Num} → Grown s t → Grown t u → Grown s u
Grown-trans {s} g h = record {
  grows = λ x v. h.grows x (g.grows x v);
  keeps = λ x p. h.keeps x (g.keeps x p);
  settles = λ x v. elim (h.settles x v) [
    | inr p ↦ inr p
    | inl w ↦ elim (g.settles x w) [ inl o ↦ inl o | inr p ↦ inr (h.keeps x p) ]
  ];
  news = λ x p. elim (h.news x p) [
    | inr (n, v) ↦ inr (
      elim (Bool-cases (holds s.visited x)) [
        | inl w ↦ absurd (let k = g.grows x w in ground arith)
        | inr w ↦ w
      ],
      v,
    )
    | inl q ↦ elim (g.news x q) [ inl o ↦ inl o | inr (n, v) ↦ inr (n, h.grows x v) ]
  ];
  once = λ o i.
      h.once (g.once o i) (λ x p. elim (g.news x p) [ inl q ↦ g.grows x (i x q) | inr (n, v) ↦ v ]);
}

module _ {Num : Type 0} (num : Coordinates Num) (nodes : List (GraphNode Num))
    (edges : List GraphEdge) where
  settle-points :
      (n : GraphNode Num) (depth : ℕ) (done : List Num × LayoutState Num)
      → ((settle num nodes edges n depth done).1.visited ≡ done.1.visited)
        × ((p : Point Num) × ((settle num nodes edges n depth done).1.points
              ≡ (n.id, p) ∷ done.1.points))
  unfolding settle put advance
  settle-points n depth ([], s) = (refl, (_, refl))
  settle-points n depth (y ∷ ys, s) = (refl, (_, refl))

  -- A node that was entered, its children placed and its position written.
  pub settle-Grown :
      (n : GraphNode Num) (depth : ℕ) (s : LayoutState Num) (done : List Num × LayoutState Num)
      → holds s.visited n.id ≡ false
      → Grown (enter num nodes edges n s) done.1
      → Grown s (settle num nodes edges n depth done).1
  unfolding enter holds point_at Once
  settle-Grown n depth s done f g =
      let (v, (p, e)) = settle-points n depth done in
      record {
        grows = λ x h. rw v (g.grows x (holds_more s.visited n.id x h));
        keeps = λ x h. let k = g.keeps x h in rw e (ground arith);
        settles = λ x h. rw e (elim (Bool-cases (n.id =ₜ x)) [
          | inl t ↦ inr (ground arith)
          | inr f ↦ elim (g.settles x (rw v at h)) [
            | inl w ↦ inl (ground arith)
            | inr k ↦ inr (ground arith)
          ]
        ]);
        news = λ x h. rw v (elim (Bool-cases (n.id =ₜ x)) [
          | inl t ↦
              let same = (=ₜ_iff n.id x).0 t in
              inr (
                subst (λ y. holds s.visited y ≡ false) same f,
                subst (λ y. holds done.1.visited y ≡ true) same
                    (g.grows n.id (holds_head s.visited n.id)),
              )
          | inr d ↦ elim (g.news x (let k = rw e at h in ground arith)) [
            | inl p ↦ inl p
            | inr (w, u) ↦ inr (ground arith, u)
          ]
        ]);
        once = λ o i. rw e (
          elim (Bool-cases (is_some (point_at done.1.points n.id))) [
            | inr k ↦ k
            | inl k ↦ absurd (elim (g.news n.id k) [
              | inl q ↦ let w = i n.id q in ground arith
              | inr (w, _) ↦ let u = holds_head s.visited n.id in ground arith
            ])
          ],
          g.once o (λ x q. holds_more s.visited n.id x (i x q)),
        );
      }

  pub settle-visited :
      (n : GraphNode Num) (depth : ℕ) (s : LayoutState Num) (done : List Num × LayoutState Num)
      → Grown (enter num nodes edges n s) done.1
      → holds (settle num nodes edges n depth done).1.visited n.id ≡ true
  unfolding enter
  settle-visited n depth s done g =
      let (v, _) = settle-points n depth done in rw v (g.grows n.id (holds_head s.visited n.id))
