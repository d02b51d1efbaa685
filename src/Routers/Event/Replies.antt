-- ===== src/Routers/Event/Replies.antt =====
-- The replies of Redis that app/routers/event.py takes apart.
use redgw_lite.Prelude.{
  String, Bool, true, false, List, [], ◌∷◌, ◌++◌, ◌==◌, length, pos, if◌then◌else◌,
}
use redgw_lite.Python.Value.{
  Value, Fields, nil, cons, end, field, null, int, list, dict, items_of, values_of, fields_of,
  truthy,
}
use redgw_lite.Python.Exec.{
  Exec, Result, returned, raised, value_error, other_error, pure, lift, ◌>>=◌,
}

-- `[{"id": eid, "data": data} for eid, data in entries]`
unfoldable pub events_of : List Value → Result (List Value)
events_of [] = returned []
events_of (list (cons eid (cons fields nil)) ∷ entries) = elim (events_of entries) [
  | returned rest ↦ returned (dict (fields_of (("id", eid) ∷ ("data", fields) ∷ [])) ∷ rest)
  | raised e ↦ raised e
]
events_of (_ ∷ entries) = raised (value_error "unpack")

-- Iterating over a reply of entries; of the replies that are iterated over, only lists occur.
unfoldable pub events_in : Value → Result (List Value)
unfolding events_of
events_in (list entries) = events_of (values_of entries)
events_in _ = raised (value_error "unpack")

-- The loops of `read_group` over the streams and over their entries.
unfoldable pub events_of_streams : List Value → Result (List Value)
unfolding events_in
events_of_streams [] = returned []
events_of_streams (list (cons stream (cons entries nil)) ∷ streams) = elim (events_in entries) [
  | returned events ↦ elim (events_of_streams streams) [
    | returned rest ↦ returned (events ++ rest)
    | raised e ↦ raised e
  ]
  | raised e ↦ raised e
]
events_of_streams (_ ∷ streams) = raised (value_error "unpack")

-- `if results: for …`
unfoldable pub group_events : Value → Result (List Value)
unfolding events_of_streams
group_events (list streams) = events_of_streams (values_of streams)
group_events reply = if truthy reply then raised (value_error "unpack") else returned []

-- `d.get(name)` and `d[name]`
abbrev pub get_field : String → Fields → Value
get_field name end = null
get_field name (field k v rest) = if k == name then v else get_field name rest

abbrev has_field : String → Fields → Bool
has_field name end = false
has_field name (field k v rest) = if k == name then true else has_field name rest

unfoldable pub item : String → Value → Result Value
item name (dict d) =
    if has_field name d then returned (get_field name d) else raised (other_error "KeyError")
item name _ = raised (other_error "TypeError")

unfoldable pub get : String → Value → Result Value
get name (dict d) = returned (get_field name d)
get name _ = raised (other_error "AttributeError")

-- What `events` and their number make of a response.
abbrev pub events_content : List Value → List (String × Value)
events_content events =
    ("events", list (items_of events)) ∷ ("count", int (pos (length events))) ∷ []

module _ {W : Type 0} where
  -- `[{"name": g["name"], "consumers": g["consumers"], "pending": g["pending"]} for g in groups_info]`
  unfoldable pub group_info : Value → Exec W Value
  group_info g = do
    name ← lift (item "name" g)
    consumers ← lift (item "consumers" g)
    pending ← lift (item "pending" g)
    pure (dict (fields_of (("name", name) ∷ ("consumers", consumers) ∷ ("pending", pending) ∷ [])))
