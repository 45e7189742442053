-- ===== src/Base/Values.antt =====
-- Reading of JSON-like data: `d.get(k)` on an object.
use Prim.Native.String.{String}
use mathlib.Core.Option.{Option, none, some}
use mathlib.Core.List.{List, [], ◌∷◌}
use agenyx.Base.Tests.{if◌then◌else◌}
use agenyx.Base.Keys.{◌==◌, string_eq}
use agenyx.Base.Json.{Value, Items, Fields}

-- `d.get(k)`
unfoldable pub field? : String → Fields → Option Value
field? k Fields.end = none
field? k (Fields.field j v d) = if j == k then some v else field? k d

-- the items of a list
abbrev pub items : Items → List Value
items Items.nil = []
items (Items.cons v vs) = v ∷ items vs
