-- ===== src/Parser/Value.antt =====
-- internal/parser/parser.go: values of a header table, and stringFromAny.
use amqp_routing_inspector.Base.{
  List, [], ◌∷◌, ◌++◌, map, Option, none, some, nat_eq, list_eq, ◌==◌, if◌then◌else◌,
}
use amqp_routing_inspector.Base.Text.{Text, Bytes, codes, join}
use amqp_routing_inspector.Base.Decimal.{print_nat}

-- The dynamic types that the parser tells apart. `stringer` is any fmt.Stringer with the text of its
-- String method, `other` any other type with the text that fmt prints for it by %v.
-- The fields of a table stand in the order of their keys, each key once.
mutual
  pub data Value : Type 0 where
    nil : Value
    str : Text → Value
    bytes : Bytes → Value
    table : Fields → Value
    string_map : Fields → Value
    list : Items → Value
    strings : List Text → Value
    stringer : Text → Value
    other : Text → Value

  pub data Items : Type 0 where
    no_items : Items
    item : Value → Items → Items

  pub data Fields : Type 0 where
    no_fields : Fields
    field : Text → Value → Fields → Fields

abbrev bracketed : Text → List Text → Text
bracketed opening parts = opening ++ (join (codes " ") parts ++ codes "]")

-- fmt.Sprintf("%v", value), within a list or a table too.
unfoldable mutual
  unfolding print_nat join

  pub sprint : Value → Text
  sprint nil = codes "<nil>"
  sprint (str s) = s
  sprint (bytes b) = bracketed (codes "[") (map print_nat b)
  sprint (table fs) = bracketed (codes "map[") (sprint_fields fs)
  sprint (string_map fs) = bracketed (codes "map[") (sprint_fields fs)
  sprint (list vs) = bracketed (codes "[") (sprint_items vs)
  sprint (strings ss) = bracketed (codes "[") ss
  sprint (stringer s) = s
  sprint (other s) = s

  pub sprint_items : Items → List Text
  sprint_items no_items = []
  sprint_items (item v vs) = sprint v ∷ sprint_items vs

  pub sprint_fields : Fields → List Text
  sprint_fields no_fields = []
  sprint_fields (field k v fs) = (k ++ (codes ":" ++ sprint v)) ∷ sprint_fields fs

-- stringFromAny. The bytes of a []byte are taken as runes, which is right for ASCII.
unfoldable pub string_from_any : Value → Text
unfolding sprint
string_from_any nil = []
string_from_any (str s) = s
string_from_any (bytes b) = b
string_from_any (stringer s) = s
string_from_any v = sprint v

-- `value, ok := table[key]`
unfoldable pub get_field : Text → Fields → Option Value
get_field key no_fields = none
get_field key (field k v fs) = if k == key then some v else get_field key fs

-- `table[key]`, which is nil where the key is missing.
abbrev pub value_or_nil : Option Value → Value
value_or_nil none = nil
value_or_nil (some v) = v

-- amqp.Table, which may be a nil map.
abbrev pub Table : Type 0
Table = Option Fields
