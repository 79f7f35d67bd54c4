-- ===== src/Broker/Fresh.antt =====
-- What a snapshot reports is within the retention period.
use benis_phone.Common.{
  ℕ, ◌+◌, ◌≤◌, ◌≡◌, refl, Bool, true, Option, none, some, List, [], ◌∷◌, arith, length, All,
  Bool-cases, inl, inr, is_some,
}
use benis_phone.Common.Text.{Text, strip_prefix}
use benis_phone.Broker.Storage.{entries, expire, Stored}
use benis_phone.Broker.Bounded.{All-drop, retained-is_retained, length-kept_events}
use benis_phone.Broker.{
  StoredStatusEvent, ConnectionStatus, InstanceStatus, Broker, is_retained, retained, kept_events,
  connection_prefix, instance_prefix, retention_ms,
}
use benis_phone.Broker.Service.{
  snapshot, Instance, live_connection, live_instance, has_events, last_or, trimmed, trim_all,
  instances_of,
}

-- The last event of a list.
abbrev pub newest : List StoredStatusEvent → Option StoredStatusEvent
newest [] = none
newest (e ∷ []) = some e
newest (e ∷ f ∷ fs) = newest (f ∷ fs)

pub record IsFresh (now : ℕ) (c : ConnectionStatus) : Type 0 where
  pub few : length c.events ≤ 50
  pub recent : All (λ (e : StoredStatusEvent). now ≤ e.at + retention_ms) c.events
  pub last : newest c.events ≡ some c.current

pub record IsFreshInstance (now : ℕ) (i : Instance) : Type 0 where
  pub seen : now ≤ i.last_seen + retention_ms
  pub statuses : All (IsFresh now) i.connections

newest-last_or :
    (e : StoredStatusEvent) (es : List StoredStatusEvent)
    → has_events es ≡ true
    → newest es ≡ some (last_or e es)
unfolding last_or
newest-last_or e [] h = absurd (cc)
newest-last_or e (f ∷ []) h = refl
newest-last_or e (f ∷ g ∷ gs) h = newest-last_or f (g ∷ gs) refl

All-recent :
    (now : ℕ) (es : List StoredStatusEvent)
    → All (λ e. is_retained now e ≡ true) es
    → All (λ (e : StoredStatusEvent). now ≤ e.at + retention_ms) es
unfolding is_retained
All-recent now [] h = tt
All-recent now (e ∷ es) (p, h) = (ground (arith, p), All-recent now es h)

trimmed-IsFresh :
    (now : ℕ) (c : ConnectionStatus) → live_connection now c ≡ true → IsFresh now (trimmed now c)
unfolding trimmed live_connection
trimmed-IsFresh now c h = record {
  few = length-kept_events now c.events;
  recent = All-recent now (kept_events now c.events) (
      unfold kept_events in
      All-drop _ _ (retained now c.events) (retained-is_retained now c.events));
  last = newest-last_or c.current (kept_events now c.events) h;
}

-- What is left under the prefix passes the test.
entries-expire {ℓ} :
    {V : Type ℓ} (prefix : Text) (live : V → Bool) (kvs : List (Text × V))
    → Stored (λ v. live v ≡ true) (entries prefix (expire prefix live kvs))
unfolding entries expire
entries-expire prefix live [] = tt
entries-expire prefix live ((k, v) ∷ kvs) = elim (Bool-cases (is_some (strip_prefix prefix k))) [
  | inr f ↦ rw (f, expire) (rw (f, entries) (entries-expire prefix live kvs))
  | inl t ↦ elim (Bool-cases (live v)) [
    | inl l ↦ rw (t, l, expire) (rw (t, entries) (l, entries-expire prefix live kvs))
    | inr d ↦ rw (t, d, expire) (entries-expire prefix live kvs)
  ]
]

Stored-entries {ℓ κ} :
    {V : Type ℓ} (P : V → Type κ) (prefix : Text) (kvs : List (Text × V))
    → Stored P kvs
    → Stored P (entries prefix kvs)
unfolding entries
Stored-entries P prefix [] h = tt
Stored-entries P prefix ((k, v) ∷ kvs) (p, h) =
    elim (Bool-cases (is_some (strip_prefix prefix k))) [
      | inl t ↦ rw (t, entries) (p, Stored-entries P prefix kvs h)
      | inr f ↦ rw (f, entries) (Stored-entries P prefix kvs h)
    ]

trim_all-IsFresh :
    (now : ℕ) (kcs : List (Text × ConnectionStatus))
    → Stored (λ c. live_connection now c ≡ true) kcs
    → All (IsFresh now) (trim_all now kcs)
unfolding trim_all
trim_all-IsFresh now [] h = tt
trim_all-IsFresh now ((k, c) ∷ kcs) (p, h) = (trimmed-IsFresh now c p, trim_all-IsFresh now kcs h)

instances_of-fresh :
    (name : Text) (now : ℕ) (kcs : List (Text × ConnectionStatus))
    (kis : List (Text × InstanceStatus))
    → Stored (λ c. live_connection now c ≡ true) kcs
    → Stored (λ i. live_instance now i ≡ true) kis
    → All (IsFreshInstance now) (instances_of name now kcs kis)
unfolding instances_of live_instance
instances_of-fresh name now kcs [] h k = tt
instances_of-fresh name now kcs ((key, i) ∷ kis) h (p, k) = (
  record { seen = ground (arith, p); statuses = trim_all-IsFresh now _ (Stored-entries _ _ kcs h) },
  instances_of-fresh name now kcs kis h k,
)

-- Whatever is stored, a snapshot reports only instances that were seen within the last seven days,
-- each connection with at most fifty events, all of them from the last seven days, and with the
-- last of them as the current one.
pub snapshot-IsFresh :
    (name : Text) (now : ℕ) (b : Broker) → All (IsFreshInstance now) (snapshot name now b).0
unfolding snapshot
snapshot-IsFresh name now b =
    instances_of-fresh name now _ _
      (entries-expire (connection_prefix name) (live_connection now) b.connections)
      (entries-expire (instance_prefix name) (live_instance now) b.instances)
