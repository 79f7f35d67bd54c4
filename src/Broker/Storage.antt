-- ===== src/Broker/Storage.antt =====
-- The key-value storage of a durable object, as far as ui/worker/durable/configBroker.ts uses it.
use benis_phone.Common.{
  some-inj, subst, ◌≡◌, Bool, Option, none, some, List, [], ◌∷◌, if◌then◌else◌, All, Bool-cases,
  inl, inr, is_some,
}
use benis_phone.Common.Text.{Text, ◌=ₜ◌, strip_prefix}

module _ {ℓ} {V : Type ℓ} where
  unfoldable pub get : Text → List (Text × V) → Option V
  get key [] = none
  get key ((k, v) ∷ kvs) = if k =ₜ key then some v else get key kvs

  unfoldable pub put : Text → V → List (Text × V) → List (Text × V)
  put key v [] = (key, v) ∷ []
  put key v ((k, w) ∷ kvs) = if k =ₜ key then (k, v) ∷ kvs else (k, w) ∷ put key v kvs

  -- The entries whose key has the prefix.
  unfoldable pub entries : Text → List (Text × V) → List (Text × V)
  entries prefix [] = []
  entries prefix ((k, v) ∷ kvs) =
      let rest = entries prefix kvs in
      if is_some (strip_prefix prefix k) then (k, v) ∷ rest else rest

  -- Removes the entries with the prefix that a test refuses.
  unfoldable pub expire : Text → (V → Bool) → List (Text × V) → List (Text × V)
  expire prefix live [] = []
  expire prefix live ((k, v) ∷ kvs) =
      let rest = expire prefix live kvs in
      if is_some (strip_prefix prefix k)
      then if live v then (k, v) ∷ rest else rest
      else (k, v) ∷ rest

module _ {ℓ κ} {V : Type ℓ} (P : V → Type κ) where
  -- A property of every stored value.
  abbrev pub Stored : List (Text × V) → Type κ
  Stored kvs = All (λ kv. P kv.1) kvs

  pub Stored-get :
      (key : Text) (kvs : List (Text × V)) {v : V} → Stored kvs → get key kvs ≡ some v → P v
  unfolding get
  Stored-get key [] h e = absurd (cc)
  Stored-get key ((k, w) ∷ kvs) (p, h) e = elim (Bool-cases (k =ₜ key)) [
    | inl t ↦ subst P (some-inj (rw t at e)) p
    | inr f ↦ Stored-get key kvs h (rw f at e)
  ]

  pub Stored-put :
      (key : Text) (v : V) (kvs : List (Text × V)) → P v → Stored kvs → Stored (put key v kvs)
  unfolding put
  Stored-put key v [] p h = (p, tt)
  Stored-put key v ((k, w) ∷ kvs) p (q, h) = elim (Bool-cases (k =ₜ key)) [
    | inl t ↦ rw (t, put) (p, h)
    | inr f ↦ rw (f, put) (q, Stored-put key v kvs p h)
  ]

  pub Stored-expire :
      (prefix : Text) (live : V → Bool) (kvs : List (Text × V))
      → Stored kvs
      → Stored (expire prefix live kvs)
  unfolding expire
  Stored-expire prefix live [] h = tt
  Stored-expire prefix live ((k, w) ∷ kvs) (q, h) =
      elim (Bool-cases (is_some (strip_prefix prefix k))) [
        | inr f ↦ rw (f, expire) (q, Stored-expire prefix live kvs h)
        | inl t ↦ elim (Bool-cases (live w)) [
          | inl l ↦ rw (t, l, expire) (q, Stored-expire prefix live kvs h)
          | inr d ↦ rw (t, d, expire) (Stored-expire prefix live kvs h)
        ]
      ]
