-- ===== src/Parser/Headers.antt =====
-- internal/parser/parser.go: headerString, parseRoutingKey and parseStringSliceFirst.
use amqp_routing_inspector.Base.{
  not, List, [], ◌∷◌, Option, none, some, nat_eq, list_eq, is_nil, if◌then◌else◌,
}
use amqp_routing_inspector.Base.Text.{Text, codes, trim_space}
use amqp_routing_inspector.Parser.Value.{
  Value, list, strings, Items, no_items, item, Fields, Table, string_from_any, get_field,
}

-- The trimmed text of a header that is there, and "" of one that is not.
abbrev pub header_text : Option Value → Text
header_text none = []
header_text (some value) = trim_space (string_from_any value)

-- headerString on a table that is not nil.
unfoldable pub field_string : Fields → List Text → Text
unfolding get_field string_from_any trim_space
field_string fs [] = []
field_string fs (key ∷ keys) =
    let s = header_text (get_field key fs) in if not (is_nil s) then s else field_string fs keys

-- headerString
unfoldable pub header_string : Table → List Text → Text
unfolding field_string
header_string none keys = []
header_string (some fs) keys = field_string fs keys

-- The first loop of parseStringSliceFirst.
unfoldable pub first_item : Items → Text
unfolding string_from_any trim_space
first_item no_items = []
first_item (item entry entries) =
    let parsed = trim_space (string_from_any entry) in
    if not (is_nil parsed) then parsed else first_item entries

-- The second loop of parseStringSliceFirst.
unfoldable pub first_string : List Text → Text
unfolding trim_space
first_string [] = []
first_string (entry ∷ entries) =
    let parsed = trim_space entry in if not (is_nil parsed) then parsed else first_string entries

-- parseStringSliceFirst
unfoldable pub parse_string_slice_first : Value → Text
unfolding first_item first_string
parse_string_slice_first (list entries) = first_item entries
parse_string_slice_first (strings entries) = first_string entries
parse_string_slice_first value = []

abbrev routing_keys_or_empty : Option Value → Text
routing_keys_or_empty none = []
routing_keys_or_empty (some raw) = parse_string_slice_first raw

abbrev routing_keys_header : Table → Text
routing_keys_header none = []
routing_keys_header (some fs) = routing_keys_or_empty (get_field (codes "routing_keys") fs)

-- parseRoutingKey
unfoldable pub parse_routing_key : Table → Text
unfolding header_string parse_string_slice_first get_field
parse_routing_key headers =
    let routing_key = header_string headers (codes "routing_key" ∷ codes "routing-key" ∷ []) in
    if not (is_nil routing_key) then routing_key else routing_keys_header headers
