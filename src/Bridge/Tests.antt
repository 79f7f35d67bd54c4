-- ===== src/Bridge/Tests.antt =====
-- Runs of the bridge requests on concrete tables.
use benis_phone.Common.{
  ◌≤◌, ◌<◌, ◌=ₛ◌, All, ◌≡◌, refl, String, true, none, some, [], ◌∷◌, arith, map, leb,
}
use benis_phone.Common.Table.{first?, delete, count}
use benis_phone.Common.Text.{◌=ₜ◌, codes, matches, to_number, to_number_from}
use benis_phone.Bridge.Store.{pending, Enrollment, Bridge, Store}
use benis_phone.Bridge.Crypto.{
  Platform, base64_to_bytes, sha256_hex_bytes, canonical_bridge_request, upper, lower, join_lines,
}
use benis_phone.Bridge.Crypto.Canonical.{IsLine, canonical_bridge_request_inj}
use benis_phone.Bridge.Auth.{
  SignedRequest, headers_ok, signed_at, clock_ok, find_bridge, signature_ok, check_request,
  purge_nonces, insert_nonce, spend_nonce, authenticate_bridge, authenticated,
}
use benis_phone.Bridge.Auth.Sound.{IsGenuine, authenticate_bridge-IsGenuine}
use benis_phone.Bridge.Auth.Future.{authenticate_bridge_twice}
use benis_phone.Bridge.Registrations.{
  was_approved, confirm, decide, decide_found, confirm_approval, approve_batch, insert_bridge,
  revoke_bridge, new_bridge,
}
use benis_phone.Bridge.Service.{signed, polls, decides, lists, touches, handle, run}
use benis_phone.Bridge.Service.Replay.{Ascending, authenticate_bridge_once}
use benis_phone.Bridge.Service.Valid.{IsValid, run-IsValid}
use benis_phone.Bridge.Service.Lifecycle.{Evolves, handle-Evolves, decide-was_approved}
use benis_phone.Bridge.Service.Revocation.{revoke_bridge_for_good}

-- A platform whose texts decode to their own units and whose signatures are right if not empty.
abbrev platform : Platform
platform = record {
  atob = λ s. some (codes s);
  sha256 = λ bytes. bytes;
  imports = λ key. true;
  verify = λ key signature text. some (leb 1 (count (λ c. true) signature));
}

abbrev bridge_id : String
bridge_id = "0f0f0f0f-0000-4000-8000-000000000001"

abbrev bridge : Bridge
bridge = record {
  bridge_id = bridge_id;
  config_name = "main";
  public_key = "key";
  fingerprint = codes "6b:65";
  approved_at = 1000;
  last_seen = none;
  revoked_at = none;
}

abbrev enrollment : Enrollment
enrollment = record {
  request_id = "r1";
  config_name = "main";
  public_key = "other key";
  fingerprint = codes "6f:74";
  hostname = "phone";
  platform = "linux";
  version = "1";
  created_at = 1000;
  expires_at = 86401000;
  status = pending;
  decided_at = none;
  bridge_id = none;
}

abbrev store : Store
store = record {
  configs = record { name = "main"; registration_id = "c1" } ∷ [];
  enrollments = enrollment ∷ [];
  bridges = bridge ∷ [];
  nonces = [];
}

-- A request that is signed at second 1000.
abbrev request : SignedRequest
request = record {
  method = "GET";
  path = "/api/bridge/config";
  bridge_id = bridge_id;
  timestamp = "1000";
  nonce = "abcdefghijklmnop";
  signature = "sig";
  body = [];
}

accepted : (authenticate_bridge platform request 1010 store).0 ≡ some (authenticated bridge)
unfolding authenticate_bridge check_request spend_nonce insert_nonce purge_nonces headers_ok
    clock_ok signed_at find_bridge signature_ok first? delete count codes matches to_number
    to_number_from base64_to_bytes canonical_bridge_request sha256_hex_bytes
accepted = refl

accepted_early : (authenticate_bridge platform request 980 store).0 ≡ some (authenticated bridge)
unfolding authenticate_bridge check_request spend_nonce insert_nonce purge_nonces headers_ok
    clock_ok signed_at find_bridge signature_ok first? delete count codes matches to_number
    to_number_from base64_to_bytes canonical_bridge_request sha256_hex_bytes
accepted_early = refl

request-in_past : signed_at request ≤ 1010
unfolding signed_at codes to_number to_number_from
request-in_past = omega arith

request-ahead : 980 < signed_at request
unfolding signed_at codes to_number to_number_from
request-ahead = omega arith

in_order : Ascending 1010 (lists 1100000 ∷ signed request 1150 ∷ []) 1200
in_order = (omega arith, (omega arith, omega arith))

store-IsValid : IsValid store
unfolding count first?
store-IsValid = record {
  enrollments = record { unique_requests = (refl, tt); limited = λ config. ground arith };
  bridges = record { unique_bridges = (refl, tt); one_active = λ config key. ground arith };
}

approves : (decide "r1" true (confirm (some (codes "6f:74"))) "b2" 2000 store).0 ≡ was_approved "b2"
unfolding decide decide_found confirm_approval approve_batch insert_bridge first? codes ◌=ₜ◌
approves = refl

revokes_one : (revoke_bridge bridge_id 1010000 store).0 ≡ true
unfolding revoke_bridge count
revokes_one = refl

lower_lines :
    All IsLine
      (map upper (codes "get") ∷ codes "/x" ∷ map lower (codes "AB") ∷ codes "7" ∷ codes "n" ∷ [])
unfolding upper lower codes
lower_lines = (refl, (refl, (refl, (refl, (refl, tt)))))

upper_lines :
    All IsLine
      (map upper (codes "GET") ∷ codes "/x" ∷ map lower (codes "ab") ∷ codes "7" ∷ codes "n" ∷ [])
unfolding upper lower codes
upper_lines = (refl, (refl, (refl, (refl, (refl, tt)))))

same_text :
    canonical_bridge_request "get" "/x" (codes "AB") "7" "n"
    ≡ canonical_bridge_request "GET" "/x" (codes "ab") "7" "n"
unfolding canonical_bridge_request upper lower codes join_lines
same_text = refl

authenticate_bridge_once_example :
    (authenticate_bridge platform request 1200 (
      run platform
        (lists 1100000 ∷ signed request 1150 ∷ [])
        (authenticate_bridge platform request 1010 store).1)).0
    ≡ none
authenticate_bridge_once_example =
    authenticate_bridge_once platform request 1010 store (authenticated bridge)
      (lists 1100000 ∷ signed request 1150 ∷ []) 1200 accepted request-in_past in_order

authenticate_bridge-IsGenuine_example : IsGenuine platform request 1010 store (authenticated bridge)
authenticate_bridge-IsGenuine_example =
    authenticate_bridge-IsGenuine platform request 1010 store (authenticated bridge) accepted

authenticate_bridge_twice_example :
    (authenticate_bridge platform request 1281 (authenticate_bridge platform request 980 store).1).0
    ≡ some (authenticated bridge)
authenticate_bridge_twice_example =
    authenticate_bridge_twice platform request 980 store (authenticated bridge) accepted_early
      request-ahead

run-IsValid_example : IsValid (
    run platform
      (decides "r1" true (confirm (some (codes "6f:74"))) "b2" 2000 ∷ lists 90000000 ∷ [])
      store)
run-IsValid_example =
    run-IsValid platform
      (decides "r1" true (confirm (some (codes "6f:74"))) "b2" 2000 ∷ lists 90000000 ∷ []) store
      store-IsValid

handle-Evolves_example :
    Evolves (enrollment ∷ []) (handle platform (polls "r1" 90000000) store).enrollments
handle-Evolves_example = handle-Evolves platform (polls "r1" 90000000) store store-IsValid

decide-was_approved_example :
    (e : Enrollment) × (first? (λ (d : Enrollment). d.request_id =ₛ "r1") store.enrollments
      ≡ some e)
    × (true ≡ true)
    × (e.status ≡ pending)
    × (2000 < e.expires_at)
    × (confirm (some (codes "6f:74")) ≡ confirm (some e.fingerprint))
    × (◌≡◌ {A = String} "b2" "b2")
    × ((decide "r1" true (confirm (some (codes "6f:74"))) "b2" 2000 store).1.bridges
        ≡ new_bridge e "b2" 2000 ∷ store.bridges)
decide-was_approved_example =
    decide-was_approved "r1" true (confirm (some (codes "6f:74"))) "b2" 2000 store "b2" approves

revoke_bridge_for_good_example :
    (authenticate_bridge platform request 1020
      (run platform (touches bridge_id 1015000 ∷ []) (revoke_bridge bridge_id 1010000 store).1)).0
    ≡ none
revoke_bridge_for_good_example =
    revoke_bridge_for_good platform bridge_id 1010000 store (touches bridge_id 1015000 ∷ []) request
      1020 revokes_one refl

canonical_bridge_request_inj_example :
    (map upper (codes "get") ≡ map upper (codes "GET"))
    × (codes "/x" ≡ codes "/x")
    × (map lower (codes "AB") ≡ map lower (codes "ab"))
    × (codes "7" ≡ codes "7")
    × (codes "n" ≡ codes "n")
canonical_bridge_request_inj_example =
    canonical_bridge_request_inj "get" "/x" "7" "n" (codes "AB") "GET" "/x" "7" "n" (codes "ab")
      lower_lines upper_lines same_text
