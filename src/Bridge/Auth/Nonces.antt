-- ===== src/Bridge/Auth/Nonces.antt =====
-- What the table of spent nonces keeps while it is purged and filled.
use benis_phone.Common.{
  ℕ, ◌≤◌, String, ◌≡◌, refl, true, false, ◌&&◌, List, [], ◌∷◌, arith, leb, any, is_none,
}
use benis_phone.Common.Table.{first?}
use benis_phone.Bridge.Store.{Nonce}
use benis_phone.Bridge.Auth.{same_nonce, purge_nonces, insert_nonce}

-- The nonce is in the table, and stays there until the clock passes `t`.
abbrev pub IsHeld : String → String → ℕ → List Nonce → Type 0
IsHeld id nonce t ns = any (λ n. same_nonce id nonce n && leb t n.expires_at) ns ≡ true

pub purge_nonces-IsHeld :
    (now : ℕ) (id nonce : String) (t : ℕ) (ns : List Nonce)
    → now ≤ t
    → IsHeld id nonce t ns
    → IsHeld id nonce t (purge_nonces now ns)
unfolding purge_nonces
purge_nonces-IsHeld now id nonce t [] le h = h
purge_nonces-IsHeld now id nonce t (n ∷ ns) le h =
    ground (arith, purge_nonces-IsHeld now id nonce t ns le)

pub insert_nonce-IsHeld :
    (m : Nonce) (id nonce : String) (t : ℕ) (ns : List Nonce)
    → IsHeld id nonce t ns
    → IsHeld id nonce t (insert_nonce m ns).0
unfolding insert_nonce
insert_nonce-IsHeld m id nonce t ns h = ground arith

pub IsHeld-first? :
    (id nonce : String) (t : ℕ) (ns : List Nonce)
    → IsHeld id nonce t ns
    → is_none (first? (same_nonce id nonce) ns) ≡ false
unfolding first?
IsHeld-first? id nonce t [] h = ground arith
IsHeld-first? id nonce t (n ∷ ns) h = ground (arith, IsHeld-first? id nonce t ns)

pub same_nonce-first?-purge_nonces :
    (id nonce : String) (now : ℕ) (ns : List Nonce)
    → any (same_nonce id nonce) ns ≡ false
    → is_none (first? (same_nonce id nonce) (purge_nonces now ns)) ≡ true
unfolding first? purge_nonces
same_nonce-first?-purge_nonces id nonce now [] h = refl
same_nonce-first?-purge_nonces id nonce now (n ∷ ns) h =
    ground (arith, same_nonce-first?-purge_nonces id nonce now ns)
