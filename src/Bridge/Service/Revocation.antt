-- ===== src/Bridge/Service/Revocation.antt =====
-- A revoked bridge stays revoked.
use benis_phone.Common.{
  ℕ, ◌<◌, String, ◌≡◌, refl, subst, Bool, true, false, ◌&&◌, Option, none, some, List, [], ◌∷◌,
  arith, ◌=ₛ◌, Bool-cases, Option-cases, Sum-cases, inl, inr, is_none, eq_iff, is_some,
}
use benis_phone.Common.Table.{first?, update, count}
use benis_phone.Bridge.Store.{Bridge, Config, Store}
use benis_phone.Bridge.Crypto.{Platform}
use benis_phone.Bridge.Auth.{SignedRequest, find_bridge, check_request, authenticate_bridge}
use benis_phone.Bridge.Enroll.{
  EnrollmentBody, verify_body, create_enrollment, enroll_key, enroll, enrollment_status,
}
use benis_phone.Bridge.Registrations.{
  Confirmation, insert_bridge, approve_batch, confirm_approval, decide_found, decide, expire_all,
  revoke_bridge, touch_bridge,
}
use benis_phone.Bridge.Service.{
  Event, signed, enrolls, polls, decides, lists, revokes, touches, handle, run,
}
use benis_phone.Bridge.Service.Valid.{insert_bridge-eq-some}

-- The bridge of that id is in the table, and is revoked.
abbrev pub revoked : Option Bridge → Bool
revoked none = false
revoked (some b) = is_some b.revoked_at

abbrev pub IsRevoked : String → List Bridge → Type 0
IsRevoked id bs = revoked (find_bridge id bs) ≡ true

update-IsRevoked :
    (p : Bridge → Bool) (f : Bridge → Bridge) (id : String) (bs : List Bridge)
    → ((b : Bridge) → (f b).bridge_id ≡ b.bridge_id)
    → ((b : Bridge) → is_some b.revoked_at ≡ true → is_some (f b).revoked_at ≡ true)
    → IsRevoked id bs
    → IsRevoked id (update p f bs)
unfolding find_bridge first? update
update-IsRevoked p f id [] same keep h = h
update-IsRevoked p f id (b ∷ bs) same keep h =
    ground (arith, update-IsRevoked p f id bs same keep, same b, keep b)

insert_bridge-IsRevoked :
    (b : Bridge) (id : String) (bs : List Bridge) {bs' : List Bridge}
    → insert_bridge b bs ≡ some bs'
    → IsRevoked id bs
    → IsRevoked id bs'
unfolding find_bridge first?
insert_bridge-IsRevoked b id bs h r =
    let (same, fresh, _) = insert_bridge-eq-some b bs h in
    subst (IsRevoked id) same (elim (Bool-cases (b.bridge_id =ₛ id)) [
      | inr other ↦ rw other r
      | inl here ↦
          let at_id : b.bridge_id ≡ id = (eq_iff _ _).0 here in
          let missing : first? (λ (c : Bridge). c.bridge_id =ₛ id) bs ≡ none = rw at_id at fresh in
          absurd (ground (arith, missing))
    ])

enroll_key-bridges :
    (p : Platform) (body : EnrollmentBody) (key : List ℕ) (c : Config) (now : ℕ) (s : Store)
    → (enroll_key p body key c now s).1.bridges ≡ s.bridges
unfolding enroll_key create_enrollment
enroll_key-bridges p body key c now s = ground arith

enroll-bridges :
    (p : Platform) (body : Option EnrollmentBody) (now : ℕ) (s : Store)
    → (enroll p body now s).1.bridges ≡ s.bridges
unfolding enroll
enroll-bridges p none now s = refl
enroll-bridges p (some body) now s = elim (Sum-cases (verify_body p body now)) [
  | inr (refused, e) ↦ rw (e, enroll)
  | inl (key, e) ↦
      elim (Option-cases
        (first? (λ (c : Config). c.registration_id =ₛ body.registration_id) s.configs)) [
          | inl n ↦ rw (e, n, enroll)
          | inr (c, f) ↦ rw (e, f, enroll) (enroll_key-bridges p body key c now _)
        ]
]

decide-IsRevoked :
    (r : String) (a : Bool) (b : Confirmation) (id' : String) (now : ℕ) (id : String) (s : Store)
    → IsRevoked id s.bridges
    → IsRevoked id (decide r a b id' now s).1.bridges
unfolding decide decide_found confirm_approval approve_batch
decide-IsRevoked r a b id' now id s h = grind (arith, insert_bridge-IsRevoked)

handle-IsRevoked :
    (p : Platform) (e : Event) (id : String) (s : Store)
    → IsRevoked id s.bridges
    → IsRevoked id (handle p e s).bridges
unfolding handle enrollment_status expire_all revoke_bridge touch_bridge
handle-IsRevoked p (signed req now) id s h = unfold authenticate_bridge in ground arith
handle-IsRevoked p (enrolls body now) id s h = rw (enroll-bridges p body now s) h
handle-IsRevoked p (polls r now) id s h = h
handle-IsRevoked p (decides r a b i now) id s h = decide-IsRevoked r a b i now id s h
handle-IsRevoked p (lists now) id s h = h
handle-IsRevoked p (revokes i now) id s h =
    update-IsRevoked _ _ id s.bridges (λ b. refl) (λ b k. refl) h
handle-IsRevoked p (touches i now) id s h =
    update-IsRevoked _ _ id s.bridges (λ b. refl) (λ b k. k) h

run-IsRevoked :
    (p : Platform) (es : List Event) (id : String) (s : Store)
    → IsRevoked id s.bridges
    → IsRevoked id (run p es s).bridges
unfolding run
run-IsRevoked p [] id s h = h
run-IsRevoked p (e ∷ es) id s h = run-IsRevoked p es id (handle p e s) (handle-IsRevoked p e id s h)

abbrev active : String → Bridge → Bool
active id b = (b.bridge_id =ₛ id) && is_none b.revoked_at

update-active-IsRevoked :
    (id : String) (now : ℕ) (bs : List Bridge)
    → 0 < count (active id) bs
    → IsRevoked id (update (active id) (λ b. record b { revoked_at = some now }) bs)
unfolding find_bridge first? update count
update-active-IsRevoked id now [] h = absurd (omega arith)
update-active-IsRevoked id now (b ∷ bs) h = ground (arith, update-active-IsRevoked id now bs)

revoke_bridge-IsRevoked :
    (id : String) (now : ℕ) (s : Store)
    → (revoke_bridge id now s).0 ≡ true
    → IsRevoked id (revoke_bridge id now s).1.bridges
unfolding revoke_bridge
revoke_bridge-IsRevoked id now s h = update-active-IsRevoked id now s.bridges (ground arith)

IsRevoked-refuses :
    (p : Platform) (req : SignedRequest) (now : ℕ) (s : Store)
    → IsRevoked req.bridge_id s.bridges
    → (authenticate_bridge p req now s).0 ≡ none
unfolding authenticate_bridge check_request
IsRevoked-refuses p req now s h = ground arith

-- Once a revocation has changed a row, no request with that bridge id is ever accepted again,
-- whatever other requests, approvals among them, come in between.
pub revoke_bridge_for_good :
    (p : Platform) (id : String) (now : ℕ) (s : Store) (es : List Event) (req : SignedRequest)
    (later : ℕ)
    → (revoke_bridge id now s).0 ≡ true
    → req.bridge_id ≡ id
    → (authenticate_bridge p req later (run p es (revoke_bridge id now s).1)).0 ≡ none
revoke_bridge_for_good p id now s es req later h same =
    IsRevoked-refuses p req later _
      (rw same (run-IsRevoked p es id _ (revoke_bridge-IsRevoked id now s h)))
