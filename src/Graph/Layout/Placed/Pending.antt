-- ===== src/Graph/Layout/Placed/Pending.antt =====
-- The nodes that the layout of ui/src/lib/fn-graph.ts has not visited.
use benis_phone.Common.{
  ℕ, ◌+◌, ◌≤◌, ◌<◌, ◌≡◌, sym, subst, inl, inr, true, false, some, List, [], ◌∷◌, if◌then◌else◌,
  length, Bool-cases, Option-cases, arith,
}
use benis_phone.Common.Text.{Text, ◌=ₜ◌, =ₜ_iff}
use benis_phone.Graph.Layout.{GraphNode, holds, node_at}

-- The nodes that are not visited.
pub pending : {Num : Type 0} → List Text → List (GraphNode Num) → ℕ
unfolding holds
pending vs [] = 0
pending vs (n ∷ ns) = (if holds vs n.id then 0 else 1) + pending vs ns

pub node_at-id :
    {Num : Type 0} (ns : List (GraphNode Num)) (id : Text) {n : GraphNode Num}
    → node_at ns id ≡ some n
    → n.id ≡ id
unfolding node_at
node_at-id [] id h = absurd (ground arith)
node_at-id (m ∷ ns) id {n} h = ground (arith, node_at-id ns id {n = n}, =ₜ_iff m.id id)

pub pending_grows :
    {Num : Type 0} (vs ws : List Text) (ns : List (GraphNode Num))
    → ((x : Text) → holds vs x ≡ true → holds ws x ≡ true)
    → pending ws ns ≤ pending vs ns
unfolding pending
pending_grows vs ws [] le = omega arith
pending_grows vs ws (n ∷ ns) le = ground (arith, pending_grows vs ws ns le, le n.id)

pub pending-length :
    {Num : Type 0} (vs : List Text) (ns : List (GraphNode Num)) → pending vs ns ≤ length ns
unfolding pending
pending-length vs [] = omega arith
pending-length vs (n ∷ ns) = ground (arith, pending-length vs ns)

pub holds_more : (vs : List Text) (id x : Text) → holds vs x ≡ true → holds (id ∷ vs) x ≡ true
unfolding holds
holds_more vs id x h = ground arith

pub holds_head : (vs : List Text) (id : Text) → holds (id ∷ vs) id ≡ true
unfolding holds
holds_head vs id = ground (arith, =ₜ_iff id id)

pub pending_visit :
    {Num : Type 0} (vs : List Text) (id : Text) (ns : List (GraphNode Num)) {n : GraphNode Num}
    → holds vs id ≡ false
    → node_at ns id ≡ some n
    → pending (id ∷ vs) ns < pending vs ns
unfolding pending node_at
pending_visit vs id [] f h = absurd (ground arith)
pending_visit vs id (m ∷ ns) {n} f h = elim (Option-cases (node_at ns id)) [
  | inr (k, e) ↦ ground (arith, pending_visit vs id ns {n = k} f e, holds_more vs id m.id)
  | inl e ↦ elim (Bool-cases (m.id =ₜ id)) [
    | inr d ↦ absurd (let h1 = rw (e, d) at h in ground arith)
    | inl d ↦
        let same = (=ₜ_iff m.id id).0 d in
        let f1 = subst (λ x. holds vs x ≡ false) (sym same) f in
        let now = subst (λ x. holds (x ∷ vs) m.id ≡ true) same (holds_head vs m.id) in
        ground (arith, f1, now, pending_grows vs (id ∷ vs) ns (holds_more vs id))
  ]
]
