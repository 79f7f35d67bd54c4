-- ===== src/Bridge/Service/Replay.antt =====
-- A signed request is accepted once: what its nonce is worth over a run of the service.
use benis_phone.Common.{
  ℕ, ◌+◌, ◌/◌, ◌≤◌, ◌<◌, String, ◌≡◌, refl, Bool, Option, none, some, List, [], ◌∷◌, arith, leb,
  ◌=ₛ◌, Bool-cases, Option-cases, Sum-cases, eq_iff, inl, inr, ◌⊎◌,
}
use benis_phone.Common.Table.{first?}
use benis_phone.Bridge.Store.{Nonce, Config, Store}
use benis_phone.Bridge.Crypto.{Platform}
use benis_phone.Bridge.Auth.{
  SignedRequest, AuthenticatedBridge, signed_at, check_request, purge_nonces, insert_nonce,
  spend_nonce, authenticate_bridge,
}
use benis_phone.Bridge.Auth.Nonces.{IsHeld, purge_nonces-IsHeld, insert_nonce-IsHeld, IsHeld-first?}
use benis_phone.Bridge.Auth.Sound.{IsGenuine, authenticate_bridge-IsGenuine}
use benis_phone.Bridge.Enroll.{
  EnrollmentBody, enroll, enroll_key, create_enrollment, enrollment_status, verify_body,
}
use benis_phone.Bridge.Registrations.{
  Confirmation, decide, decide_found, confirm_approval, approve_batch, expire_all, revoke_bridge,
  touch_bridge,
}
use benis_phone.Bridge.Service.{
  Event, signed, enrolls, polls, decides, lists, revokes, touches, handle, run,
}

-- The clock of an event, in seconds.
abbrev pub seconds : Event → ℕ
seconds (signed req now) = now
seconds (enrolls body now) = now / 1000
seconds (polls id now) = now / 1000
seconds (decides r a b i now) = now / 1000
seconds (lists now) = now / 1000
seconds (revokes id now) = now / 1000
seconds (touches id now) = now / 1000

-- The clock does not run backwards from `t` on, and ends at most at `last`.
abbrev pub Ascending : ℕ → List Event → ℕ → Type 0
Ascending t [] last = t ≤ last
Ascending t (e ∷ es) last = (t ≤ seconds e) × Ascending (seconds e) es last

-- The request's nonce is spent for as long as its time stamp is accepted, or it is out of date.
abbrev IsSpent : SignedRequest → ℕ → Store → Type 0
IsSpent req now s =
    IsHeld req.bridge_id req.nonce (signed_at req + 300) s.nonces ⊎ (signed_at req + 300 < now)

spend_nonce-IsSpent :
    (req other : SignedRequest) (now : ℕ) (ns : List Nonce)
    → IsHeld req.bridge_id req.nonce (signed_at req + 300) ns
    → IsHeld req.bridge_id req.nonce (signed_at req + 300) (spend_nonce other now ns).0
      ⊎ (signed_at req + 300 < now)
unfolding spend_nonce
spend_nonce-IsSpent req other now ns h = elim (Bool-cases (leb now (signed_at req + 300))) [
  | inl soon ↦ inl (
      insert_nonce-IsHeld _ req.bridge_id req.nonce (signed_at req + 300) (purge_nonces now ns)
        (purge_nonces-IsHeld now req.bridge_id req.nonce (signed_at req + 300) ns (ground arith) h))
  | inr late ↦ inr (ground arith)
]

authenticate_bridge-IsSpent :
    (p : Platform) (req other : SignedRequest) (now : ℕ) (s : Store)
    → IsHeld req.bridge_id req.nonce (signed_at req + 300) s.nonces
    → IsSpent req now (authenticate_bridge p other now s).1
unfolding authenticate_bridge
authenticate_bridge-IsSpent p req other now s h =
    elim (Option-cases (check_request p other now s.bridges)) [
      | inl n ↦ rw (n, authenticate_bridge) (inl h)
      | inr (row, e) ↦ rw (e, authenticate_bridge) (spend_nonce-IsSpent req other now s.nonces h)
    ]

enroll_key-nonces :
    (p : Platform) (body : EnrollmentBody) (key : List ℕ) (c : Config) (now : ℕ) (s : Store)
    → (enroll_key p body key c now s).1.nonces ≡ s.nonces
unfolding enroll_key create_enrollment
enroll_key-nonces p body key c now s = ground arith

enroll-nonces :
    (p : Platform) (body : Option EnrollmentBody) (now : ℕ) (s : Store)
    → (enroll p body now s).1.nonces ≡ s.nonces
unfolding enroll
enroll-nonces p none now s = refl
enroll-nonces p (some body) now s = elim (Sum-cases (verify_body p body now)) [
  | inr (refused, e) ↦ rw (e, enroll)
  | inl (key, e) ↦
      elim (Option-cases
        (first? (λ (c : Config). c.registration_id =ₛ body.registration_id) s.configs)) [
          | inl n ↦ rw (e, n, enroll)
          | inr (c, f) ↦ rw (e, f, enroll) (enroll_key-nonces p body key c now _)
        ]
]

decide-nonces :
    (r : String) (a : Bool) (b : Confirmation) (id : String) (now : ℕ) (s : Store)
    → (decide r a b id now s).1.nonces ≡ s.nonces
unfolding decide decide_found confirm_approval approve_batch
decide-nonces r a b id now s = ground arith

handle-IsSpent :
    (p : Platform) (req : SignedRequest) (e : Event) (t : ℕ) (s : Store)
    → t ≤ seconds e
    → IsSpent req t s
    → IsSpent req (seconds e) (handle p e s)
handle-IsSpent p req e t s le (inr late) = inr (omega arith)
handle-IsSpent p req (signed other now) t s le (inl h) =
    unfold handle in authenticate_bridge-IsSpent p req other now s h
handle-IsSpent p req (enrolls body now) t s le (inl h) =
    unfold handle in inl (rw (enroll-nonces p body now s) h)
handle-IsSpent p req (polls id now) t s le (inl h) = unfold handle enrollment_status in inl h
handle-IsSpent p req (decides r a b i now) t s le (inl h) =
    unfold handle in inl (rw (decide-nonces r a b i now s) h)
handle-IsSpent p req (lists now) t s le (inl h) = unfold handle expire_all in inl h
handle-IsSpent p req (revokes id now) t s le (inl h) = unfold handle revoke_bridge in inl h
handle-IsSpent p req (touches id now) t s le (inl h) = unfold handle touch_bridge in inl h

run-IsSpent :
    (p : Platform) (req : SignedRequest) (es : List Event) (t last : ℕ) (s : Store)
    → Ascending t es last
    → IsSpent req t s
    → IsSpent req last (run p es s)
unfolding run
run-IsSpent p req [] t last s le (inl h) = inl h
run-IsSpent p req [] t last s le (inr late) = inr (omega arith)
run-IsSpent p req (e ∷ es) t last s (le, up) h =
    run-IsSpent p req es (seconds e) last (handle p e s) up (handle-IsSpent p req e t s le h)

authenticate_bridge-spends :
    (p : Platform) (req : SignedRequest) (now : ℕ) (s : Store) (a : AuthenticatedBridge)
    → (authenticate_bridge p req now s).0 ≡ some a
    → signed_at req ≤ now
    → IsHeld req.bridge_id req.nonce
        (signed_at req + 300)
        (authenticate_bridge p req now s).1.nonces
unfolding authenticate_bridge spend_nonce insert_nonce
authenticate_bridge-spends p req now s a h le =
    ground (arith, eq_iff req.bridge_id req.bridge_id, eq_iff req.nonce req.nonce)

IsSpent-refuses :
    (p : Platform) (req : SignedRequest) (now : ℕ) (s : Store)
    → IsSpent req now s
    → (authenticate_bridge p req now s).0 ≡ none
IsSpent-refuses p req now s h = elim (Option-cases (authenticate_bridge p req now s).0) [
  | inl n ↦ n
  | inr (a, e) ↦ absurd (refuse (authenticate_bridge-IsGenuine p req now s a e) h)
]
  where
    refuse : {a : AuthenticatedBridge} → IsGenuine p req now s a → IsSpent req now s → ⊥
    refuse g (inr late) = omega (arith, g.not_late)
    refuse g (inl held) = ground (
      arith,
      g.unspent,
      IsHeld-first? req.bridge_id req.nonce (signed_at req + 300) (purge_nonces now s.nonces) (
          purge_nonces-IsHeld now req.bridge_id req.nonce (signed_at req + 300) s.nonces g.not_late
            held),
    )

-- A request that was accepted at a time not before its time stamp is never accepted again, whatever
-- requests the service handles in between, as long as the clock does not run backwards.
pub authenticate_bridge_once :
    (p : Platform) (req : SignedRequest) (now : ℕ) (s : Store) (a : AuthenticatedBridge)
    (es : List Event) (later : ℕ)
    → (authenticate_bridge p req now s).0 ≡ some a
    → signed_at req ≤ now
    → Ascending now es later
    → (authenticate_bridge p req later (run p es (authenticate_bridge p req now s).1)).0 ≡ none
authenticate_bridge_once p req now s a es later h le up =
    IsSpent-refuses p req later _
      (run-IsSpent p req es now later _ up (inl (authenticate_bridge-spends p req now s a h le)))
