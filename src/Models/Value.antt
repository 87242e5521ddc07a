-- ===== src/Models/Value.antt =====
-- Values of Python that come from YAML or go into JSON. A finite float is given in millionths.
use evidence_tool.Base.{zero, String, Bool, true, false, List, [], ◌∷◌, Option, none, nonempty}
use evidence_tool.Base.Dict.{Dict, lookup}
use evidence_tool.Base.Int.{ℤ, pos}

pub data Float : Type 0 where
  finite : ℤ → Float
  infinite minus_infinite nan : Float

mutual
  pub data Value : Type 0 where
    null : Value
    bool : Bool → Value
    int : ℤ → Value
    float : Float → Value
    text : String → Value
    list : Items → Value
    mapping : Fields → Value

  pub data Items : Type 0 where
    nil : Items
    cons : Value → Items → Items

  pub data Fields : Type 0 where
    end : Fields
    field : String → Value → Fields → Fields

abbrev pub items : Items → List Value
items nil = []
items (cons v vs) = v ∷ items vs

abbrev pub fields : Fields → Dict Value
fields end = []
fields (field k v fs) = (k, v) ∷ fields fs

abbrev pub to_items : List Value → Items
to_items [] = nil
to_items (v ∷ vs) = cons v (to_items vs)

abbrev pub to_fields : Dict Value → Fields
to_fields [] = end
to_fields ((k, v) ∷ d) = field k v (to_fields d)

abbrev pub object : Dict Value → Value
object d = mapping (to_fields d)

abbrev text_items : List String → Items
text_items [] = nil
text_items (x ∷ rest) = cons (text x) (text_items rest)

abbrev pub texts : List String → Value
texts xs = list (text_items xs)

-- `v.get(k) if isinstance(v, dict) else None`
abbrev pub get_key : String → Value → Option Value
get_key k (mapping fs) = lookup k (fields fs)
get_key k _ = none

-- `bool(v)`
unfoldable pub truthy : Value → Bool
truthy null = false
truthy (bool b) = b
truthy (int (pos zero)) = false
truthy (int _) = true
truthy (float (finite (pos zero))) = false
truthy (float _) = true
truthy (text s) = nonempty s
truthy (list nil) = false
truthy (list (cons _ _)) = true
truthy (mapping end) = false
truthy (mapping (field _ _ _)) = true
