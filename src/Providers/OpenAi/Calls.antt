-- ===== src/Providers/OpenAi/Calls.antt =====
-- The calls of a turn that is sent are those that the same turn is read as.
use pg_ask.Prelude.{List, [], ◌∷◌, map, ◌≡◌}
use pg_ask.Checked.{pass}
use pg_ask.Json.{Items, nil, cons, Serde}
use pg_ask.Providers.{ToolCall}
use pg_ask.Providers.OpenAi.{WireToolCall, wire_value, to_wire}

-- The calls of a message as the request has them.
abbrev pub wire_items : List WireToolCall → Items
wire_items [] = nil
wire_items (c ∷ calls) = cons (wire_value c) (wire_items calls)

module _ (serde : Serde) where
  -- The arguments are read as they were printed.
  abbrev pub IsPrinted : ToolCall → Type 0
  IsPrinted c = serde.from_str (serde.to_string c.arguments) ≡ pass c.arguments

  abbrev pub sent : List ToolCall → List WireToolCall
  sent calls = map (to_wire serde) calls
