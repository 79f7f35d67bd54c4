-- ===== src/Config/Document.antt =====
-- A configuration document as the worker reads it: the members of a JSON value that
-- ui/src/lib/sip-validation.ts and ui/worker/handlers/configs.ts look at. A port is a whole number
-- below 10^21, which JSON prints in digits.
use benis_phone.Common.{
  ℕ, zero, suc, String, Bool, true, false, not, ◌&&◌, ◌||◌, Option, none, some, List, [], ◌∷◌, map,
  all, if◌then◌else◌, ◌==◌,
}
use benis_phone.Common.Text.{Text, codes, ◌=ₜ◌, is_digit, to_number}
use benis_phone.Config.Json.{Json, null, bool, num, str, arr, obj, Items, nil, cons, get_member}
use benis_phone.Config.Sip.{ℤ, pos, negsuc, Route, Connection, Definition}

-- `value?.key`
unfoldable pub field : String → Json → Option Json
unfolding codes
field key (obj ms) = get_member (codes key) ms
field key _ = none

abbrev pub field_of : String → Option Json → Option Json
field_of key none = none
field_of key (some j) = field key j

unfoldable pub items : Items → List Json
items nil = []
items (cons x xs) = x ∷ items xs

-- `value ?? []`, of an array.
abbrev pub list_of : Option Json → List Json
list_of (some (arr xs)) = items xs
list_of _ = []

abbrev pub text_of : Option Json → Option Text
text_of (some (str s)) = some s
text_of _ = none

abbrev pub is_true : Option Json → Bool
is_true (some (bool true)) = true
is_true _ = false

abbrev pub negative : ℕ → ℤ
negative zero = pos zero
negative (suc n) = negsuc n

abbrev pub digits : (ℕ → ℤ) → Text → Option ℤ
digits sign s = if all is_digit s then some (sign (to_number s)) else none

unfoldable pub integer : Text → Option ℤ
integer [] = none
integer (c ∷ s) = if c == b'-' then digits negative s else digits pos (c ∷ s)

abbrev pub integer_of : Option Json → Option ℤ
integer_of (some (num s)) = integer s
integer_of _ = none

unfoldable pub texts_of : List Json → List Text
texts_of [] = []
texts_of (str s ∷ js) = s ∷ texts_of js
texts_of (_ ∷ js) = texts_of js

unfoldable pub route_of : Json → Route
unfolding field
route_of j = record {
  id = text_of (field "id" j);
  number = text_of (field "number" j);
  entrypoint = text_of (field "entrypoint" j);
  catch_all = is_true (field "catch_all" j);
}

unfoldable pub connection_of : Json → Connection
unfolding field
connection_of j = record {
  id = text_of (field "id" j);
  name = text_of (field "name" j);
  kind = text_of (field "kind" j);
  registration = text_of (field "registration" j);
  server = text_of (field "server" j);
  extension = text_of (field "extension" j);
  username = text_of (field "username" j);
  transport = text_of (field "transport" j);
  local_port = integer_of (field "local_port" j);
  allowed_cidrs = texts_of (list_of (field "allowed_cidrs" j));
  entrypoint = text_of (field "entrypoint" j);
  route = map route_of (list_of (field "route" j));
}

abbrev pub is_array : Option Json → Bool
is_array (some (arr _)) = true
is_array _ = false

-- `!value` of a member, negated.
abbrev pub is_truthy : Option Json → Bool
is_truthy none = false
is_truthy (some null) = false
is_truthy (some (bool b)) = b
is_truthy (some (num s)) = not ((s =ₜ codes "0") || (s =ₜ codes "-0"))
is_truthy (some (str [])) = false
is_truthy (some (str (_ ∷ _))) = true
is_truthy (some (arr _)) = true
is_truthy (some (obj _)) = true

-- `doc.sip?.connection`
unfoldable pub connections : Json → Option Json
unfolding field
connections j = field_of "connection" (field "sip" j)

unfoldable pub definition_of : Json → Definition
unfolding field connections
definition_of j = record {
  fn = map (λ f. text_of (field "name" f)) (list_of (field "fn" j));
  connection = map connection_of (list_of (connections j));
}

-- `!candidate.sip || !Array.isArray(candidate.sip.connection) || …`, negated.
unfoldable pub is_complete : Json → Bool
unfolding field connections
is_complete j =
    is_truthy (field "sip" j)
    && is_array (connections j)
    && is_array (field "fn" j)
    && is_truthy (field "general" j)
    && is_array (field "queue" j)

-- `doc.sip.connection.map((connection) => connection.id)`
unfoldable pub connection_ids : List Connection → List (Option Text)
connection_ids [] = []
connection_ids (c ∷ cs) = c.id ∷ connection_ids cs

-- `ids.has(id)` of a text.
unfoldable pub has_id : List (Option Text) → Text → Bool
has_id [] t = false
has_id (none ∷ ids) t = has_id ids t
has_id (some s ∷ ids) t = (s =ₜ t) || has_id ids t

-- `ids.has(id)` of an id that may be absent.
abbrev pub has_id? : List (Option Text) → Option Text → Bool
has_id? ids (some t) = has_id ids t
has_id? [] none = false
has_id? (none ∷ ids) none = true
has_id? (some s ∷ ids) none = has_id? ids none

-- `new Set(ids).size === ids.length`
unfoldable pub are_distinct : List (Option Text) → Bool
are_distinct [] = true
are_distinct (id ∷ ids) = not (has_id? ids id) && are_distinct ids

abbrev pub document_ids : Json → List (Option Text)
document_ids j = connection_ids (definition_of j).connection
