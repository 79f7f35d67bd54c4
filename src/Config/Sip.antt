-- ===== src/Config/Sip.antt =====
-- `validateSIPDefinition` of ui/src/lib/sip-validation.ts. The schema leaves every field optional,
-- so an absent one is `none`; ports are whole numbers. `none` as a result is the exception that
-- `.trim()` on an absent username throws.

pub mod Sound
pub mod Decimal
use benis_phone.Common.{
  ℕ, zero, suc, ◌+◌, ◌/◌, ◌%◌, String, Bool, true, false, not, ◌&&◌, ◌||◌, Option, none, some, List,
  [], ◌∷◌, ◌++◌, leb, ltb, ◌==◌, if◌then◌else◌, length, all, is_none, is_some,
}
use benis_phone.Common.Text.{
  distinct_from, Text, codes, ◌=ₜ◌, has_text, matches, is_word_dash, is_digit, to_number, split,
  trim,
}

pub data ℤ : Type 0 where
  pos negsuc : ℕ → ℤ

pub record Route : Type 0 where
  pub id : Option Text
  pub number : Option Text
  pub entrypoint : Option Text
  pub catch_all : Bool

pub record Connection : Type 0 where
  pub id : Option Text
  pub name : Option Text
  pub kind : Option Text
  pub registration : Option Text
  pub server : Option Text
  pub extension : Option Text
  pub username : Option Text
  pub transport : Option Text
  pub local_port : Option ℤ
  pub allowed_cidrs : List Text
  pub entrypoint : Option Text
  pub route : List Route

pub record Definition : Type 0 where
  pub fn : List (Option Text)
  pub connection : List Connection

-- `s || d`
abbrev pub or_default : Option Text → Text → Text
or_default none d = d
or_default (some []) d = d
or_default (some (c ∷ s)) d = c ∷ s

-- What a set holds for an id; an absent one is equal to no text, whose units are below 65536.
abbrev pub set_key : Option Text → Text
set_key none = 65536 ∷ []
set_key (some s) = s

-- The text that a regular expression tests for an absent value.
abbrev pub as_text : Option Text → Text
as_text none = codes "undefined"
as_text (some s) = s

abbrev pub is_one_of : List Text → Option Text → Bool
is_one_of names none = false
is_one_of names (some s) = has_text names s

abbrev pub is_missing : Option Text → Bool
is_missing none = true
is_missing (some []) = true
is_missing (some (_ ∷ _)) = false

-- `/^[A-Za-z0-9_-]{1,128}$/.test(id)`
unfoldable pub id_ok : Option Text → Bool
unfolding matches codes
id_ok id = matches is_word_dash 1 128 (as_text id)

abbrev pub is_empty : List Text → Bool
is_empty [] = true
is_empty (_ ∷ _) = false

-- The names of the functions that are not empty.
unfoldable pub fn_names : List (Option Text) → List Text
fn_names [] = []
fn_names (none ∷ fns) = fn_names fns
fn_names (some [] ∷ fns) = fn_names fns
fn_names (some (c ∷ s) ∷ fns) = (c ∷ s) ∷ fn_names fns

-- `${n}`, on fuel: a quotient by ten is smaller.
unfoldable pub decimal_from : ℕ → ℕ → Text → Text
decimal_from zero n s = s
decimal_from (suc fuel) n s = elim (n / 10) [
  | zero ↦ (b'0' + n % 10) ∷ s
  | suc q ↦ decimal_from fuel (suc q) ((b'0' + n % 10) ∷ s)
]

unfoldable pub decimal : ℕ → Text
unfolding decimal_from
decimal n = decimal_from (suc n) n []

-- An error, where the test holds.
abbrev pub report : Bool → Text → List Text
report true message = message ∷ []
report false message = []

abbrev pub is_kind : String → Option Text → Bool
is_kind s none = false
is_kind s (some t) = t =ₜ codes s

unfoldable pub transport_of : Connection → Text
transport_of c = or_default c.transport (codes "udp")

abbrev pub out_of_range : Option ℤ → Bool
out_of_range none = false
out_of_range (some (negsuc n)) = true
out_of_range (some (pos n)) = ltb 65535 n

-- The port, where it is positive.
abbrev pub positive : Option ℤ → Option ℕ
positive (some (pos (suc n))) = some (suc n)
positive _ = none

abbrev pub no_port : Option ℤ → Bool
no_port none = true
no_port (some (pos zero)) = true
no_port (some (pos (suc n))) = false
no_port (some (negsuc n)) = false

unfoldable pub port_key : Connection → Option Text
port_key c = elim (positive c.local_port) [
  | none ↦ none
  | some port ↦ some (transport_of c ++ b':' ∷ decimal port)
]

abbrev pub is_used : List Text → Option Text → Bool
is_used ports none = false
is_used ports (some key) = has_text ports key

abbrev pub with_key : Option Text → List Text → List Text
with_key none ports = ports
with_key (some key) ports = key ∷ ports

-- `number ?? ""`, trimmed, without one leading `+`.
unfoldable pub strip_plus : Text → Text
strip_plus [] = []
strip_plus (c ∷ s) = if c == b'+' then s else c ∷ s

abbrev pub or_empty : Option Text → Text
or_empty none = []
or_empty (some s) = s

unfoldable pub number_of : Route → Text
unfolding strip_plus trim
number_of r = strip_plus (trim (or_empty r.number))

abbrev pub is_blank : Text → Bool
is_blank [] = true
is_blank (_ ∷ _) = false

abbrev in_message : Text → String → Text
in_message label s = label ++ codes s

-- The errors of one connection up to its mode, given the ids and ports of those before it.
unfoldable pub basic_errors : List Text → List Text → Text → Connection → List Text
basic_errors ids ports label c =
    report (not (id_ok c.id) || has_text ids (set_key c.id)) (
      in_message label
        ": connection ID must be present, unique, and use only letters, numbers, _ or -.")
    ++ report (not (is_one_of (codes "endpoint" ∷ codes "trunk" ∷ []) c.kind))
        (in_message label ": kind must be endpoint or trunk.")
    ++ report (not (is_one_of (codes "registered" ∷ codes "inbound" ∷ []) c.registration))
        (in_message label ": mode must be registered or inbound.")
    ++ report (not (has_text (codes "udp" ∷ codes "tcp" ∷ codes "ws" ∷ []) (transport_of c)))
        (in_message label ": transport must be udp, tcp, or ws.")
    ++ report (out_of_range c.local_port) (in_message label ": local port must be 0–65535.")
    ++ report (is_used ports (port_key c)) (
        label
        ++ codes ": "
        ++ or_empty (port_key c)
        ++ codes " is already used by another connection.")

-- The errors of its mode; `none` where `.trim()` is called on an absent username.
unfoldable pub mode_errors : Text → Connection → Option (List Text)
mode_errors label c =
    let registered =
      report
        (is_kind "registered" c.registration && (is_missing c.server || is_missing c.extension))
        (in_message label ": registered connections require server and extension.") in
    let inbound =
      report
        (is_kind "inbound" c.registration && (no_port c.local_port || is_empty c.allowed_cidrs))
        (in_message label
          ": inbound connections require an explicit port and at least one allowed CIDR.") in
    if is_kind "inbound" c.registration
    then elim c.username [
      | none ↦ none
      | some username ↦ some (
          registered
          ++ inbound
          ++ report (is_blank (trim username))
              (in_message label ": inbound connections require an authentication username."))
    ]
    else some (registered ++ inbound)

-- The loop over the routes of a trunk, with the ids, the numbers and the catch-alls so far.
unfoldable pub route_errors : List Text → Text → List Text → List Text → ℕ → List Route → List Text
route_errors fns label ids numbers catch_alls [] =
    report (ltb 1 catch_alls) (in_message label ": only one catch-all route is allowed.")
route_errors fns label ids numbers catch_alls (r ∷ rs) =
    report (not (id_ok r.id) || has_text ids (set_key r.id)) (
      in_message label
        ": route IDs must be present, unique, and use only letters, numbers, _ or -.")
    ++ report (not (is_one_of fns r.entrypoint))
        (in_message label ": every route needs a valid entrypoint.")
    ++ elim r.catch_all [
      | true ↦
          report (not (is_blank (trim (or_empty r.number))))
            (in_message label ": a catch-all cannot also have a number.")
          ++ route_errors fns label (set_key r.id ∷ ids) numbers (suc catch_alls) rs
      | false ↦
          report (is_blank (number_of r) || has_text numbers (number_of r))
            (in_message label ": exact route numbers must be present and unique.")
          ++ route_errors fns label (set_key r.id ∷ ids) (number_of r ∷ numbers) catch_alls rs
    ]

abbrev no_routes : List Route → Bool
no_routes [] = true
no_routes (_ ∷ _) = false

unfoldable pub kind_errors : List Text → Text → Connection → List Text
kind_errors fns label c =
    if is_kind "endpoint" c.kind
    then report (not (is_one_of fns c.entrypoint)) (in_message label ": select a valid entrypoint.")
      ++ report (not (no_routes c.route))
          (in_message label ": endpoint connections cannot contain trunk routes.")
    else report (no_routes c.route) (in_message label ": add at least one trunk route.")
      ++ route_errors fns label [] [] 0 c.route

unfoldable pub label_of : ℕ → Connection → Text
label_of index c = or_default c.name (codes "Connection " ++ decimal (suc index))

abbrev no_connections : List Connection → Bool
no_connections [] = true
no_connections (_ ∷ _) = false

-- `validCIDR`; the parameter is the host name that `new URL` gives for an address in brackets, or
-- `none` where it throws.
module _ (url_host : Text → Option Text) where
  abbrev pub has_colon : Option Text → Bool
  has_colon none = false
  has_colon (some host) = not (all (λ c. not (c == b':')) host)

  abbrev pub is_hex_colon : ℕ → Bool
  is_hex_colon c =
      is_digit c || (leb b'a' c && leb c b'f') || (leb b'A' c && leb c b'F') || c == b':'

  abbrev pub is_octet : Text → Bool
  is_octet part = matches is_digit 1 3 part && leb (to_number part) 255

  unfoldable pub valid_address : Text → ℕ → Bool
  unfolding matches to_number split
  valid_address address bits =
      if has_colon (some address)
      then leb bits 128 && all is_hex_colon address && has_colon (url_host address)
      else leb bits 32 && length (split b'.' address) == 4 && all is_octet (split b'.' address)

  unfoldable pub valid_cidr : Text → Bool
  unfolding split trim to_number valid_address
  valid_cidr value = elim (split b'/' (trim value)) [
    | [] ↦ false
    | address ∷ rest ↦ elim rest [
      | [] ↦ false
      | prefix ∷ extra ↦
          not (is_blank address)
          && is_empty extra
          && not (is_blank prefix)
          && all is_digit prefix
          && valid_address address (to_number prefix)
    ]
  ]

  unfoldable pub cidr_errors : Text → List Text → List Text
  cidr_errors label [] = []
  cidr_errors label (cidr ∷ cidrs) =
      report (not (valid_cidr cidr))
        (label ++ codes ": " ++ cidr ++ codes " is not a valid IPv4/IPv6 CIDR.")
      ++ cidr_errors label cidrs

  unfoldable pub connection_errors :
      List Text → List Text → List Text → Text → Connection → Option (List Text)
  connection_errors fns ids ports label c = elim (mode_errors label c) [
    | none ↦ none
    | some mode ↦ some (
        basic_errors ids ports label c
        ++ mode
        ++ cidr_errors label c.allowed_cidrs
        ++ kind_errors fns label c)
  ]

  unfoldable pub all_errors :
      List Text → List Text → List Text → ℕ → List Connection → Option (List Text)
  all_errors fns ids ports index [] = some []
  all_errors fns ids ports index (c ∷ cs) =
      elim (connection_errors fns ids ports (label_of index c) c) [
        | none ↦ none
        | some errors ↦
            elim (all_errors fns (set_key c.id ∷ ids) (with_key (port_key c) ports) (suc index)
              cs) [ none ↦ none | some rest ↦ some (errors ++ rest) ]
      ]

  unfoldable pub validate_sip_definition : Definition → Option (List Text)
  validate_sip_definition doc = elim (all_errors (fn_names doc.fn) [] [] 0 doc.connection) [
    | none ↦ none
    | some errors ↦ some (
        distinct_from [] (
          report (no_connections doc.connection) (codes "Add at least one SIP connection.")
          ++ errors))
  ]
