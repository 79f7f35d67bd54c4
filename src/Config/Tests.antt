-- ===== src/Config/Tests.antt =====
-- Runs of patches on a concrete document.
use benis_phone.Common.{String, ◌≡◌, refl, Bool, true, false, Option, none, some, [], ◌∷◌}
use benis_phone.Common.Text.{
  distinct_from, matches, trim, trim_start, Text, codes, ◌=ₜ◌, split, split_first, to_number,
  to_number_from, has_text,
}
use benis_phone.Config.Json.{
  Json, num, str, arr, obj, nil, cons, end, member, size, get_item, set_item, get_member,
  set_member,
}
use benis_phone.Config.Pointer.{
  pointer_segments, is_unsafe, unsafe_segments, array_offset, is_index, escapes_ok, unescape,
  replace_pair,
}
use benis_phone.Config.Patch.{
  add, remove, replace, DiffItem, ok, add_in, replace_in, child, put_child, edit_at, last_of,
  apply_below, apply_segments, apply_operation, inherited, dash,
}
use benis_phone.Config.Patch.Undo.{apply_operation-replace_undo, apply_operation-add_undo}
use benis_phone.Config.Sip.{
  pos, Route, Connection, Definition, validate_sip_definition, all_errors, connection_errors,
  basic_errors, mode_errors, cidr_errors, kind_errors, route_errors, valid_cidr, valid_address,
  label_of, decimal, decimal_from, port_key, transport_of, number_of, strip_plus, id_ok, fn_names,
}
use benis_phone.Config.Sip.Sound.{IsSound, validate_sip_definition-IsSound}

abbrev items : Json → Json
items v = obj (member (codes "menu") (arr (cons (num (codes "1")) (cons v nil))) end)

abbrev doc : Json
doc = items (str (codes "two"))

abbrev replaced : DiffItem
replaced = record {
  op = replace;
  path = codes "/menu/1";
  before = some (str (codes "two"));
  after = some (num (codes "5"));
}

replaces :
    apply_operation
      (record { op = replace; path = codes "/menu/1"; value = some (num (codes "5")) })
      doc
    ≡ ok (items (num (codes "5")), replaced)
unfolding apply_operation apply_segments apply_below edit_at last_of child put_child replace_in
    pointer_segments is_unsafe unsafe_segments array_offset is_index escapes_ok unescape
    replace_pair size get_item set_item get_member set_member codes ◌=ₜ◌ split split_first to_number
    to_number_from has_text
replaces = refl

apply_operation-replace_undo_example :
    (back : DiffItem) × (apply_operation
        (record { op = replace; path = codes "/menu/1"; value = some (str (codes "two")) })
        (items (num (codes "5")))
      ≡ ok (doc, back))
    × (back.before ≡ some (num (codes "5")))
apply_operation-replace_undo_example =
    apply_operation-replace_undo (codes "/menu/1") (num (codes "5")) (str (codes "two")) doc
      (items (num (codes "5")), replaced) replaces refl

abbrev grown : Json
grown = obj (
    member (codes "menu") (arr (cons (num (codes "1")) (cons (str (codes "two")) nil)))
      (member (codes "a/b") (num (codes "3")) end))

abbrev added : DiffItem
added = record { op = add; path = codes "/a~1b"; before = none; after = some (num (codes "3")) }

adds :
    apply_operation (record { op = add; path = codes "/a~1b"; value = some (num (codes "3")) }) doc
    ≡ ok (grown, added)
unfolding apply_operation apply_segments apply_below edit_at last_of add_in inherited
    pointer_segments is_unsafe unsafe_segments escapes_ok unescape replace_pair get_member
    set_member codes ◌=ₜ◌ split split_first has_text
adds = refl

segments-added : pointer_segments (codes "/a~1b") ≡ some (codes "a/b" ∷ [])
unfolding pointer_segments escapes_ok unescape replace_pair codes split split_first
segments-added = refl

key-not_dash : ((last_of (codes "a/b") []).1 =ₜ dash) ≡ false
unfolding last_of codes ◌=ₜ◌
key-not_dash = refl

apply_operation-add_undo_example :
    (back : DiffItem) × (apply_operation
        (record { op = remove; path = codes "/a~1b"; value = none })
        grown
      ≡ ok (doc, back))
    × (back.before ≡ some (num (codes "3")))
apply_operation-add_undo_example =
    apply_operation-add_undo (codes "/a~1b") (codes "a/b") [] (num (codes "3")) doc (grown, added)
      segments-added key-not_dash adds refl

-- An endpoint with a registration and a trunk with one exact route and a catch-all.
abbrev no_url : Text → Option Text
no_url s = none

abbrev endpoint : Connection
endpoint = record {
  id = some (codes "c1");
  name = none;
  kind = some (codes "endpoint");
  registration = some (codes "registered");
  server = some (codes "sip.example");
  extension = some (codes "100");
  username = none;
  transport = none;
  local_port = none;
  allowed_cidrs = [];
  entrypoint = some (codes "menu");
  route = [];
}

abbrev route_of : String → String → Bool → Route
route_of id number catch_all = record {
  id = some (codes id);
  number = some (codes number);
  entrypoint = some (codes "menu");
  catch_all = catch_all;
}

abbrev trunk : Connection
trunk = record {
  id = some (codes "c2");
  name = some (codes "Trunk");
  kind = some (codes "trunk");
  registration = some (codes "inbound");
  server = none;
  extension = none;
  username = some (codes "phone");
  transport = some (codes "tcp");
  local_port = some (pos 5060);
  allowed_cidrs = codes "10.0.0.0/8" ∷ [];
  entrypoint = none;
  route = route_of "r1" "+4670" false ∷ route_of "r2" "" true ∷ [];
}

abbrev definition : Definition
definition = record { fn = some (codes "menu") ∷ []; connection = endpoint ∷ trunk ∷ [] }

validates : validate_sip_definition no_url definition ≡ some []
unfolding validate_sip_definition all_errors connection_errors basic_errors mode_errors cidr_errors
    kind_errors route_errors valid_cidr valid_address label_of decimal decimal_from port_key
    transport_of number_of strip_plus id_ok fn_names codes ◌=ₜ◌ matches has_text trim trim_start
    split split_first to_number to_number_from distinct_from
validates = refl

validate_sip_definition-IsSound_example : IsSound no_url definition
validate_sip_definition-IsSound_example =
    validate_sip_definition-IsSound no_url definition validates
