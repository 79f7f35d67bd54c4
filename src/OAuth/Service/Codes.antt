-- ===== src/OAuth/Service/Codes.antt =====
-- An authorization code is exchanged once.
use benis_phone.Common.{
  ℕ, ◌≡◌, refl, subst, true, false, some, List, [], ◌∷◌, arith, Bool-cases, Option-cases, inl, inr,
  is_none, is_some,
}
use benis_phone.Common.Text.{Text, codes, ◌=ₜ◌, =ₜ_iff}
use benis_phone.Common.Table.{first?}
use benis_phone.Common.Spent.{
  IsSpent, update-IsSpent, consume-IsSpent, cons-IsSpent, IsSpent-first?,
}
use benis_phone.OAuth.Store.{Code, Store}
use benis_phone.OAuth.Platform.{
  Platform, Fields, form_field, sha256_hex, random_token, oauth_error, tokens_issued,
}
use benis_phone.OAuth.Authorize.{DecisionForm, insert_code, decide_authorization}
use benis_phone.OAuth.Tokens.{
  find_code, consume_code, code_row_ok, code_form_ok, redeem_code, exchange_authorization_code,
  exchange_token,
}
use benis_phone.OAuth.Service.{
  Event, registers, opens, decides, exchanges, revokes, calls, revokes_agent, handle, run,
}
use benis_phone.OAuth.Service.Frames.{
  register_client-OnlyClients, authorization_page-OnlyRequests, revoke_token-OnlyGrants,
  authenticate_oauth_bearer-OnlyGrants, revoke_agent-OnlyGrants, issue_tokens-OnlyTokens,
  exchange_refresh_token-OnlyTokens, decide_request_cases, decide_authorization_cases,
}

-- The code of that hash is in the table and has been used.
abbrev pub IsUsed : Text → List Code → Type 0
IsUsed hash = IsSpent (λ c. c.code_hash =ₜ hash) (λ c. is_none c.used_at)

consume_code-keeps :
    (hash other : Text) (now : ℕ) (s : Store)
    → IsUsed hash s.codes
    → IsUsed hash (consume_code other now s).1.codes
unfolding consume_code
consume_code-keeps hash other now s h =
    update-IsSpent _ _ _ _ s.codes (λ c. refl) (λ c e. absurd (cc e)) h

pub consume_code-IsUsed :
    (hash : Text) (now : ℕ) (s : Store)
    → (consume_code hash now s).0 ≡ true
    → IsUsed hash (consume_code hash now s).1.codes
unfolding consume_code
consume_code-IsUsed hash now s h =
    consume-IsSpent _ _ _ s.codes (λ c. refl) (λ c. refl) (ground arith)

redeem_code-keeps :
    (p : Platform) (hash : Text) (row : Code) (other : Text) (bytes bytes' : List ℕ) (now : ℕ)
    (s : Store)
    → IsUsed hash s.codes
    → IsUsed hash (redeem_code p row other bytes bytes' now s).1.codes
unfolding redeem_code
redeem_code-keeps p hash row other bytes bytes' now s h =
    elim (Bool-cases (consume_code other now s).0) [
      | inr n ↦ rw n (consume_code-keeps hash other now s h)
      | inl t ↦
          rw
            (
              t,
              (issue_tokens-OnlyTokens p row.grant_id bytes bytes' now
                  (consume_code other now s).1).2,
            )
            (consume_code-keeps hash other now s h)
    ]

exchange_authorization_code-keeps :
    (p : Platform) (hash : Text) (form : Fields) (bytes bytes' : List ℕ) (now : ℕ) (s : Store)
    → IsUsed hash s.codes
    → IsUsed hash (exchange_authorization_code p form bytes bytes' now s).1.codes
unfolding exchange_authorization_code
exchange_authorization_code-keeps p hash form bytes bytes' now s h =
    elim (Bool-cases (code_form_ok p form)) [
      | inr n ↦ rw n h
      | inl t ↦ elim (Option-cases (find_code (sha256_hex p (form_field "code" form)) s.codes)) [
        | inl n ↦ rw (t, n, exchange_authorization_code) h
        | inr (row, e) ↦ elim (Bool-cases (code_row_ok p form now row)) [
          | inr n ↦ rw (t, e, n, exchange_authorization_code) h
          | inl ok_row ↦
              rw (t, e, ok_row, exchange_authorization_code)
                (redeem_code-keeps p hash row _ bytes bytes' now s h)
        ]
      ]
    ]

exchange_token-keeps :
    (p : Platform) (hash : Text) (form : Fields) (bytes bytes' : List ℕ) (now : ℕ) (s : Store)
    → IsUsed hash s.codes
    → IsUsed hash (exchange_token p form bytes bytes' now s).1.codes
unfolding exchange_token
exchange_token-keeps p hash form bytes bytes' now s h =
    elim (Bool-cases (form_field "grant_type" form =ₜ codes "authorization_code")) [
      | inl t ↦ rw t (exchange_authorization_code-keeps p hash form bytes bytes' now s h)
      | inr n ↦ elim (Bool-cases (form_field "grant_type" form =ₜ codes "refresh_token")) [
        | inl t ↦ rw (n, t, (exchange_refresh_token-OnlyTokens p form bytes bytes' now s).2) h
        | inr m ↦ rw (n, m) h
      ]
    ]

insert_code-keeps :
    (hash : Text) (c : Code) (cs : List Code) {cs' : List Code}
    → insert_code c cs ≡ some cs'
    → IsUsed hash cs
    → IsUsed hash cs'
unfolding insert_code
insert_code-keeps hash c cs {cs'} e h =
    let fresh : is_some (first? (λ (d : Code). d.code_hash =ₜ c.code_hash) cs) ≡ false =
      ground arith in
    let same : c ∷ cs ≡ cs' = ground arith in
    subst (IsUsed hash) same (elim (Bool-cases (c.code_hash =ₜ hash)) [
      | inr other ↦ cons-IsSpent _ _ c cs other h
      | inl here ↦
          let at_hash : c.code_hash ≡ hash = (=ₜ_iff _ _).0 here in
          absurd (
            cc (
              h.1,
              subst (λ t. is_some (first? (λ (d : Code). d.code_hash =ₜ t) cs) ≡ false) at_hash
                  fresh,
            ))
    ])

decide_authorization-keeps :
    (p : Platform) (hash : Text) (d : DecisionForm) (grant_id : Text) (bytes : List ℕ) (now : ℕ)
    (s : Store)
    → IsUsed hash s.codes
    → IsUsed hash (decide_authorization p d grant_id bytes now s).1.codes
decide_authorization-keeps p hash d grant_id bytes now s h =
    elim (decide_authorization_cases p d grant_id bytes now s) [
      | inl e ↦ rw e h
      | inr (row, e, _) ↦
          rw e
            (elim (decide_request_cases p row d grant_id (random_token p "mcp_code" bytes) now s) [
              | inl same ↦ rw (same.2) h
              | inr added ↦ insert_code-keeps hash _ s.codes added.3 h
            ])
    ]

handle-IsUsed :
    (p : Platform) (hash : Text) (e : Event) (s : Store)
    → IsUsed hash s.codes
    → IsUsed hash (handle p e s).codes
unfolding handle
handle-IsUsed p hash (registers body bytes now) s h =
    rw ((register_client-OnlyClients p body bytes now s).2) h
handle-IsUsed p hash (opens q o i b now) s h =
    rw ((authorization_page-OnlyRequests p q o i b now s).2) h
handle-IsUsed p hash (decides d g b now) s h = decide_authorization-keeps p hash d g b now s h
handle-IsUsed p hash (exchanges f b b' now) s h = exchange_token-keeps p hash f b b' now s h
handle-IsUsed p hash (revokes f now) s h = rw ((revoke_token-OnlyGrants p f now s).2) h
handle-IsUsed p hash (calls a now) s h = rw ((authenticate_oauth_bearer-OnlyGrants p a now s).0.2) h
handle-IsUsed p hash (revokes_agent i now) s h = rw ((revoke_agent-OnlyGrants i now s).2) h

pub run-IsUsed :
    (p : Platform) (hash : Text) (es : List Event) (s : Store)
    → IsUsed hash s.codes
    → IsUsed hash (run p es s).codes
unfolding run
run-IsUsed p hash [] s h = h
run-IsUsed p hash (e ∷ es) s h = run-IsUsed p hash es (handle p e s) (handle-IsUsed p hash e s h)

IsUsed-refuses :
    (p : Platform) (form : Fields) (bytes bytes' : List ℕ) (now : ℕ) (s : Store)
    → code_form_ok p form ≡ true
    → IsUsed (sha256_hex p (form_field "code" form)) s.codes
    → exchange_authorization_code p form bytes bytes' now s ≡ (oauth_error "invalid_grant" 400, s)
unfolding exchange_authorization_code
IsUsed-refuses p form bytes bytes' now s f h =
    elim (Option-cases (find_code (sha256_hex p (form_field "code" form)) s.codes)) [
      | inl n ↦ rw (f, n, exchange_authorization_code)
      | inr (row, e) ↦
          let used : is_none row.used_at ≡ false =
            IsSpent-first? _ _ s.codes {x = row} h (unfold find_code in e) in
          let refused : code_row_ok p form now row ≡ false = unfold code_row_ok in rw used in
          rw (f, e, refused, exchange_authorization_code)
    ]

redeem_code-IsUsed :
    (p : Platform) (row : Code) (hash : Text) (bytes bytes' : List ℕ) (now : ℕ) (s : Store)
    {a r scope : Text}
    → (redeem_code p row hash bytes bytes' now s).0 ≡ tokens_issued a r scope
    → IsUsed hash (redeem_code p row hash bytes bytes' now s).1.codes
unfolding redeem_code
redeem_code-IsUsed p row hash bytes bytes' now s e = elim (Bool-cases (consume_code hash now s).0) [
  | inr n ↦ absurd (ground arith)
  | inl t ↦
      rw
        (t, (issue_tokens-OnlyTokens p row.grant_id bytes bytes' now (consume_code hash now s).1).2)
        (consume_code-IsUsed hash now s t)
]

exchange_authorization_code-IsUsed :
    (p : Platform) (form : Fields) (bytes bytes' : List ℕ) (now : ℕ) (s : Store) {a r scope : Text}
    → (exchange_authorization_code p form bytes bytes' now s).0 ≡ tokens_issued a r scope
    → IsUsed
        (sha256_hex p (form_field "code" form))
        (exchange_authorization_code p form bytes bytes' now s).1.codes
unfolding exchange_authorization_code
exchange_authorization_code-IsUsed p form bytes bytes' now s {a} {r} {scope} e =
    elim (Option-cases (find_code (sha256_hex p (form_field "code" form)) s.codes)) [
      | inl n ↦ absurd (ground arith)
      | inr (row, found) ↦
          let f : code_form_ok p form ≡ true = ground arith in
          let g : code_row_ok p form now row ≡ true = ground arith in
          rw (f, found, g, exchange_authorization_code)
            (redeem_code-IsUsed p row _ bytes bytes' now s {a = a} {r = r} {scope = scope}
              (rw (f, found, g) at e))
    ]

-- After an exchange of a code has issued tokens, every later well-formed exchange of that code is
-- answered with `invalid_grant` and changes nothing, whatever requests come in between.
pub exchange_authorization_code_once :
    (p : Platform) (form : Fields) (bytes bytes' : List ℕ) (now : ℕ) (s : Store) (a r scope : Text)
    (es : List Event) (form' : Fields) (more more' : List ℕ) (later : ℕ)
    → (exchange_authorization_code p form bytes bytes' now s).0 ≡ tokens_issued a r scope
    → form_field "code" form' ≡ form_field "code" form
    → code_form_ok p form' ≡ true
    → let t = run p es (exchange_authorization_code p form bytes bytes' now s).1 in
      exchange_authorization_code p form' more more' later t ≡ (oauth_error "invalid_grant" 400, t)
exchange_authorization_code_once p form bytes bytes' now s a r scope es form' more more' later e
      same f =
    IsUsed-refuses p form' more more' later _ f (
      rw same (
        run-IsUsed p (sha256_hex p (form_field "code" form)) es _ (
          exchange_authorization_code-IsUsed p form bytes bytes' now s {a = a} {r = r}
            {scope = scope} e)))
