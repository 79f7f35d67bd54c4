-- ===== src/Config/Sip/Sound.antt =====
-- What a definition satisfies that `validateSIPDefinition` reports no error for.
use benis_phone.Common.{
  some-inj, ℕ, suc, ◌+◌, ◌≤◌, ◌≡◌, ◌≢◌, ◌⊎◌, inl, inr, refl, sym, ap, ◌∙◌, Bool, true, false, not,
  ◌||◌, Option, none, some, List, [], ◌∷◌, ◌++◌, arith, ltb, if◌then◌else◌, All, Bool-cases,
  Option-cases,
}
use benis_phone.Common.Text.{distinct_from, Text, codes, ◌=ₜ◌, =ₜ_iff, has_text, trim}
use benis_phone.Config.Sip.{
  Route, Connection, Definition, set_key, is_one_of, id_ok, fn_names, report, is_kind, port_key,
  number_of, valid_cidr, is_blank, or_empty, basic_errors, mode_errors, cidr_errors, route_errors,
  no_routes, kind_errors, connection_errors, label_of, all_errors, no_connections,
  validate_sip_definition, is_used, with_key,
}

-- No text stands twice.
abbrev pub Apart : List Text → Type 0
Apart [] = Unit
Apart (x ∷ xs) = All (λ y. y ≢ x) xs × Apart xs

abbrev pub route_ids : List Route → List Text
route_ids [] = []
route_ids (r ∷ rs) = set_key r.id ∷ route_ids rs

abbrev pub exact_numbers : List Route → List Text
exact_numbers [] = []
exact_numbers (r ∷ rs) = if r.catch_all then exact_numbers rs else number_of r ∷ exact_numbers rs

abbrev pub catch_all_numbers : List Route → List (Option Text)
catch_all_numbers [] = []
catch_all_numbers (r ∷ rs) =
    if r.catch_all then r.number ∷ catch_all_numbers rs else catch_all_numbers rs

abbrev pub catch_alls : List Route → ℕ
catch_alls [] = 0
catch_alls (r ∷ rs) = if r.catch_all then suc (catch_alls rs) else catch_alls rs

abbrev pub connection_ids : List Connection → List Text
connection_ids [] = []
connection_ids (c ∷ cs) = set_key c.id ∷ connection_ids cs

abbrev pub used_ports : List Connection → List Text
used_ports [] = []
used_ports (c ∷ cs) = with_key (port_key c) (used_ports cs)

pub record AreRouted (fns : List Text) (rs : List Route) : Type 0 where
  pub ids_formed : All (λ (r : Route). id_ok r.id ≡ true) rs
  pub numbers_given : All (λ number. is_blank number ≡ false) (exact_numbers rs)
  pub unnumbered : All (λ number. is_blank (trim (or_empty number)) ≡ true) (catch_all_numbers rs)
  pub ids_apart : Apart (route_ids rs)
  pub numbers_apart : Apart (exact_numbers rs)
  pub one_catch_all : catch_alls rs ≤ 1
  pub entrypoints : All (λ (r : Route). is_one_of fns r.entrypoint ≡ true) rs

module _ (url_host : Text → Option Text) where
  pub record IsServable (fns : List Text) (c : Connection) : Type 0 where
    pub has_id : id_ok c.id ≡ true
    pub cidrs : All (λ cidr. valid_cidr url_host cidr ≡ true) c.allowed_cidrs
    pub answered :
        ((is_kind "endpoint" c.kind ≡ true) × (is_one_of fns c.entrypoint ≡ true))
        ⊎ ((is_kind "endpoint" c.kind ≡ false)
            × (no_routes c.route ≡ false)
            × AreRouted fns c.route)

  pub record IsSound (doc : Definition) : Type 0 where
    pub connected : no_connections doc.connection ≡ false
    pub ids_apart : Apart (connection_ids doc.connection)
    pub ports_apart : Apart (used_ports doc.connection)
    pub servable : All (IsServable (fn_names doc.fn)) doc.connection

append-empty {ℓ} : {A : Type ℓ} (xs ys : List A) → xs ++ ys ≡ [] → (xs ≡ []) × (ys ≡ [])
append-empty [] ys h = (refl, h)
append-empty (x ∷ xs) ys h = absurd (cc)

report-empty : (b : Bool) (t : Text) → report b t ≡ [] → b ≡ false
report-empty true t h = absurd (cc)
report-empty false t h = refl

not-false : (b : Bool) → not b ≡ false → b ≡ true
not-false true h = refl
not-false false h = absurd (cc)

or-false : (a b : Bool) → (a || b) ≡ false → (a ≡ false) × (b ≡ false)
or-false true b h = absurd (cc)
or-false false b h = (refl, h)

-- Texts that are not among the seen ones, one of which was just added.
abbrev Unseen : List Text → List Text → Type 0
Unseen seen xs = All (λ y. has_text seen y ≡ false) xs

has_text-behind :
    (x : Text) (seen : List Text) (y : Text)
    → has_text (x ∷ seen) y ≡ false
    → (y ≢ x) × (has_text seen y ≡ false)
unfolding has_text
has_text-behind x seen y h =
    let (a, b) = or-false (x =ₜ y) (has_text seen y) h in
    ((λ e. ground (arith, (=ₜ_iff x y).1 (sym e))), b)

Unseen-behind :
    (x : Text) (seen ys : List Text) → Unseen (x ∷ seen) ys → All (λ y. y ≢ x) ys × Unseen seen ys
Unseen-behind x seen [] h = (tt, tt)
Unseen-behind x seen (y ∷ ys) (h, hs) =
    let (a, b) = has_text-behind x seen y h in
    let (others, rest) = Unseen-behind x seen ys hs in ((a, others), (b, rest))

-- What the loop over the routes shows from some point on.
record RoutedFrom (fns ids numbers : List Text) (n : ℕ) (rs : List Route) : Type 0 where
  new_ids : Unseen ids (route_ids rs)
  ids_apart : Apart (route_ids rs)
  new_numbers : Unseen numbers (exact_numbers rs)
  numbers_apart : Apart (exact_numbers rs)
  few : n + catch_alls rs ≤ 1
  entrypoints : All (λ (r : Route). is_one_of fns r.entrypoint ≡ true) rs
  ids_formed : All (λ (r : Route). id_ok r.id ≡ true) rs
  numbers_given : All (λ number. is_blank number ≡ false) (exact_numbers rs)
  unnumbered : All (λ number. is_blank (trim (or_empty number)) ≡ true) (catch_all_numbers rs)

RoutedFrom-catch_all :
    (fns ids numbers : List Text) (n : ℕ) (r : Route) (rs : List Route)
    → r.catch_all ≡ true
    → (not (id_ok r.id) || has_text ids (set_key r.id)) ≡ false
    → not (is_one_of fns r.entrypoint) ≡ false
    → not (is_blank (trim (or_empty r.number))) ≡ false
    → RoutedFrom fns (set_key r.id ∷ ids) numbers (suc n) rs
    → RoutedFrom fns ids numbers n (r ∷ rs)
RoutedFrom-catch_all fns ids numbers n r rs t f1 f2 b i =
    let (formed, fresh) = or-false (not (id_ok r.id)) (has_text ids (set_key r.id)) f1 in
    let (others, unseen) = Unseen-behind (set_key r.id) ids (route_ids rs) i.new_ids in
    record {
      new_ids = (fresh, unseen);
      ids_apart = (others, i.ids_apart);
      new_numbers = rw t i.new_numbers;
      numbers_apart = rw t i.numbers_apart;
      few = rw t (omega (arith, i.few));
      entrypoints = (not-false (is_one_of fns r.entrypoint) f2, i.entrypoints);
      ids_formed = (not-false (id_ok r.id) formed, i.ids_formed);
      numbers_given = rw t i.numbers_given;
      unnumbered = rw t (not-false (is_blank (trim (or_empty r.number))) b, i.unnumbered);
    }

RoutedFrom-exact :
    (fns ids numbers : List Text) (n : ℕ) (r : Route) (rs : List Route)
    → r.catch_all ≡ false
    → (not (id_ok r.id) || has_text ids (set_key r.id)) ≡ false
    → not (is_one_of fns r.entrypoint) ≡ false
    → (is_blank (number_of r) || has_text numbers (number_of r)) ≡ false
    → RoutedFrom fns (set_key r.id ∷ ids) (number_of r ∷ numbers) n rs
    → RoutedFrom fns ids numbers n (r ∷ rs)
unfolding number_of
RoutedFrom-exact fns ids numbers n r rs f f1 f2 b i =
    let (formed, fresh) = or-false (not (id_ok r.id)) (has_text ids (set_key r.id)) f1 in
    let (given, new) = or-false (is_blank (number_of r)) (has_text numbers (number_of r)) b in
    let (others, unseen) = Unseen-behind (set_key r.id) ids (route_ids rs) i.new_ids in
    let (others', unseen') = Unseen-behind (number_of r) numbers (exact_numbers rs) i.new_numbers in
    record {
      new_ids = (fresh, unseen);
      ids_apart = (others, i.ids_apart);
      new_numbers = rw f (new, unseen');
      numbers_apart = rw f (others', i.numbers_apart);
      few = rw f i.few;
      entrypoints = (not-false (is_one_of fns r.entrypoint) f2, i.entrypoints);
      ids_formed = (not-false (id_ok r.id) formed, i.ids_formed);
      numbers_given = rw f (given, i.numbers_given);
      unnumbered = rw f i.unnumbered;
    }

route_errors_sound :
    (fns : List Text) (label : Text) (ids numbers : List Text) (n : ℕ) (rs : List Route)
    → route_errors fns label ids numbers n rs ≡ []
    → RoutedFrom fns ids numbers n rs
unfolding route_errors
route_errors_sound fns label ids numbers n [] h = record {
  new_ids = tt;
  ids_apart = tt;
  new_numbers = tt;
  numbers_apart = tt;
  few = ground (arith, report-empty (ltb 1 n) _ h);
  entrypoints = tt;
  ids_formed = tt;
  numbers_given = tt;
  unnumbered = tt;
}
route_errors_sound fns label ids numbers n (r ∷ rs) h =
    elim (Bool-cases (not (id_ok r.id) || has_text ids (set_key r.id))) [
      | inl t ↦ absurd (ground arith)
      | inr f1 ↦ elim (Bool-cases (not (is_one_of fns r.entrypoint))) [
        | inl t ↦ absurd (ground arith)
        | inr f2 ↦ elim (Bool-cases r.catch_all) [
          | inl t ↦ elim (Bool-cases (not (is_blank (trim (or_empty r.number))))) [
            | inl b ↦ absurd (ground arith)
            | inr b ↦ RoutedFrom-catch_all fns ids numbers n r rs t f1 f2 b (
                route_errors_sound fns label (set_key r.id ∷ ids) numbers (suc n) rs
                  (rw (f1, f2, t, b, route_errors) at h))
          ]
          | inr f ↦ elim (Bool-cases (is_blank (number_of r) || has_text numbers (number_of r))) [
            | inl b ↦ absurd (ground arith)
            | inr b ↦ RoutedFrom-exact fns ids numbers n r rs f f1 f2 b (
                route_errors_sound fns label (set_key r.id ∷ ids) (number_of r ∷ numbers) n rs
                  (rw (f1, f2, f, b, route_errors) at h))
          ]
        ]
      ]
    ]

-- The loop over the connections, from some point on.
record ServedFrom (u : Text → Option Text) (fns ids ports : List Text) (cs : List Connection)
    : Type 0 where
  new_ids : Unseen ids (connection_ids cs)
  ids_apart : Apart (connection_ids cs)
  new_ports : Unseen ports (used_ports cs)
  ports_apart : Apart (used_ports cs)
  servable : All (IsServable u fns) cs

cidr_errors_sound :
    (u : Text → Option Text) (label : Text) (cidrs : List Text)
    → cidr_errors u label cidrs ≡ []
    → All (λ cidr. valid_cidr u cidr ≡ true) cidrs
unfolding cidr_errors
cidr_errors_sound u label [] h = tt
cidr_errors_sound u label (c ∷ cs) h = elim (Bool-cases (valid_cidr u c)) [
  | inl t ↦ (t, cidr_errors_sound u label cs (rw (t, cidr_errors) at h))
  | inr f ↦ absurd (ground arith)
]

kind_errors_sound :
    (fns : List Text) (label : Text) (c : Connection)
    → kind_errors fns label c ≡ []
    → ((is_kind "endpoint" c.kind ≡ true) × (is_one_of fns c.entrypoint ≡ true))
      ⊎ ((is_kind "endpoint" c.kind ≡ false) × (no_routes c.route ≡ false) × AreRouted fns c.route)
unfolding kind_errors
kind_errors_sound fns label c h = elim (Bool-cases (is_kind "endpoint" c.kind)) [
  | inl t ↦ elim (Bool-cases (is_one_of fns c.entrypoint)) [
    | inl e ↦ inl (t, e)
    | inr e ↦ absurd (ground arith)
  ]
  | inr f ↦ elim (Bool-cases (no_routes c.route)) [
    | inl t ↦ absurd (ground arith)
    | inr e ↦
        let g = route_errors_sound fns label [] [] 0 c.route (rw (f, e, kind_errors) at h) in
        inr (
          f,
          e,
          record {
            ids_formed = g.ids_formed;
            numbers_given = g.numbers_given;
            unnumbered = g.unnumbered;
            ids_apart = g.ids_apart;
            numbers_apart = g.numbers_apart;
            one_catch_all = omega (arith, g.few);
            entrypoints = g.entrypoints;
          },
        )
  ]
]

-- The identity of a connection that `basic_errors` passes.
basic_errors_sound :
    (ids ports : List Text) (label : Text) (c : Connection)
    → basic_errors ids ports label c ≡ []
    → (id_ok c.id ≡ true)
      × (has_text ids (set_key c.id) ≡ false)
      × (is_used ports (port_key c) ≡ false)
unfolding basic_errors
basic_errors_sound ids ports label c h =
    elim (Bool-cases (not (id_ok c.id) || has_text ids (set_key c.id))) [
      | inl t ↦ absurd (ground arith)
      | inr f ↦
          let (named, fresh) = or-false (not (id_ok c.id)) (has_text ids (set_key c.id)) f in
          (not-false (id_ok c.id) named, fresh, ground arith)
    ]

with_key-Unseen :
    (key : Option Text) (ports ps : List Text)
    → is_used ports key ≡ false
    → Unseen (with_key key ports) ps
    → Apart ps
    → Unseen ports (with_key key ps) × Apart (with_key key ps)
with_key-Unseen none ports ps u h a = (h, a)
with_key-Unseen (some key) ports ps u h a =
    let (others, unseen) = Unseen-behind key ports ps h in ((u, unseen), (others, a))

ServedFrom-step :
    (u : Text → Option Text) (fns ids ports : List Text) (label : Text) (c : Connection)
    (cs : List Connection)
    → basic_errors ids ports label c ≡ []
    → cidr_errors u label c.allowed_cidrs ≡ []
    → kind_errors fns label c ≡ []
    → ServedFrom u fns (set_key c.id ∷ ids) (with_key (port_key c) ports) cs
    → ServedFrom u fns ids ports (c ∷ cs)
ServedFrom-step u fns ids ports label c cs basic cidr kind rest =
    let (named, fresh, free) = basic_errors_sound ids ports label c basic in
    let (others, unseen) = Unseen-behind (set_key c.id) ids (connection_ids cs) rest.new_ids in
    let (new, apart) =
      with_key-Unseen (port_key c) ports (used_ports cs) free rest.new_ports rest.ports_apart in
    record {
      new_ids = (fresh, unseen);
      ids_apart = (others, rest.ids_apart);
      new_ports = new;
      ports_apart = apart;
      servable = (
        record {
          has_id = named;
          cidrs = cidr_errors_sound u label c.allowed_cidrs cidr;
          answered = kind_errors_sound fns label c kind;
        },
        rest.servable,
      );
    }

all_errors_sound :
    (u : Text → Option Text) (fns ids ports : List Text) (i : ℕ) (cs : List Connection)
    → all_errors u fns ids ports i cs ≡ some []
    → ServedFrom u fns ids ports cs
unfolding all_errors connection_errors
all_errors_sound u fns ids ports i [] h = record {
  new_ids = tt;
  ids_apart = tt;
  new_ports = tt;
  ports_apart = tt;
  servable = tt;
}
all_errors_sound u fns ids ports i (c ∷ cs) h = elim (Option-cases (mode_errors (label_of i c) c)) [
  | inl n ↦ absurd (ground arith)
  | inr (mode, m) ↦
      elim (Option-cases
        (all_errors u fns (set_key c.id ∷ ids) (with_key (port_key c) ports) (suc i) cs)) [
          | inl n ↦ absurd (ground arith)
          | inr (rest, e) ↦
              let b = basic_errors ids ports (label_of i c) c in
              let a = cidr_errors u (label_of i c) c.allowed_cidrs in
              let k = kind_errors fns (label_of i c) c in
              let whole = some-inj (rw (m, e, all_errors, connection_errors) at h) in
              let (own, last) = append-empty (((b ++ mode) ++ a) ++ k) rest whole in
              let (own', kind) = append-empty ((b ++ mode) ++ a) k own in
              let (own'', cidr) = append-empty (b ++ mode) a own' in
              let (basic, _) = append-empty b mode own'' in
              ServedFrom-step u fns ids ports (label_of i c) c cs basic cidr kind (
                all_errors_sound u fns (set_key c.id ∷ ids) (with_key (port_key c) ports) (suc i) cs
                  (e ∙ ap some last))
        ]
]

distinct_from-empty : (xs : List Text) → distinct_from [] xs ≡ [] → xs ≡ []
unfolding distinct_from has_text
distinct_from-empty [] h = refl
distinct_from-empty (x ∷ xs) h = absurd (cc)

-- Where the validation ends without an exception and without an error, there is a connection; no two
-- connections have the same id or the same port on the same transport; every id, of
-- connections and of routes, has the form it should and every allowed range is a valid CIDR; an endpoint leads to a function that exists, and
-- a trunk has routes, all to functions that exist, with no id and no exact number twice, and
-- each either the one catch-all, without a number, or one with a number.
pub validate_sip_definition-IsSound :
    (url_host : Text → Option Text) (doc : Definition)
    → validate_sip_definition url_host doc ≡ some []
    → IsSound url_host doc
unfolding validate_sip_definition
validate_sip_definition-IsSound u doc h =
    elim (Option-cases (all_errors u (fn_names doc.fn) [] [] 0 doc.connection)) [
      | inl n ↦ absurd (ground arith)
      | inr (errors, e) ↦
          let all : (report (no_connections doc.connection)
                  (codes "Add at least one SIP connection.")
                ++ errors)
              ≡ [] =
            distinct_from-empty _ (some-inj (rw (e, validate_sip_definition) at h)) in
          let (some_connection, none_left) =
            append-empty
              (report (no_connections doc.connection) (codes "Add at least one SIP connection."))
              errors all in
          let s =
            all_errors_sound u (fn_names doc.fn) [] [] 0 doc.connection (e ∙ ap some none_left) in
          record {
            connected = report-empty (no_connections doc.connection) _ some_connection;
            ids_apart = s.ids_apart;
            ports_apart = s.ports_apart;
            servable = s.servable;
          }
    ]
