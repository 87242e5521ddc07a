-- ===== src/Models/Redaction/Secrets.antt =====
-- What is printed does not tell a secret that stands under a sensitive key.
use evidence_tool.Base.{ℕ, String, ◌≡◌, refl, ap, true}
use evidence_tool.Models.Value.{Value, list, mapping, Items, nil, cons, Fields, end, field}
use evidence_tool.Models.Observation.{Observation}
use evidence_tool.Models.Redaction.{
  is_sensitive, redact, redact_items, redact_fields, observation_dict,
}

-- The values are the same but for what stands under sensitive keys, at any depth.
mutual
  pub data Agree : Value → Value → Type 0 where
    same : (v : Value) → Agree v v
    lists : {vs ws : Items} → AgreeItems vs ws → Agree (list vs) (list ws)
    mappings : {fs gs : Fields} → AgreeFields fs gs → Agree (mapping fs) (mapping gs)

  pub data AgreeItems : Items → Items → Type 0 where
    no_items : AgreeItems nil nil
    more_items :
        {v w : Value} {vs ws : Items}
        → Agree v w
        → AgreeItems vs ws
        → AgreeItems (cons v vs) (cons w ws)

  pub data AgreeFields : Fields → Fields → Type 0 where
    no_fields : AgreeFields end end
    plain :
        {v w : Value} {fs gs : Fields} (k : String)
        → Agree v w
        → AgreeFields fs gs
        → AgreeFields (field k v fs) (field k w gs)
    hidden :
        {fs gs : Fields} (k : String) (v w : Value)
        → is_sensitive k ≡ true
        → AgreeFields fs gs
        → AgreeFields (field k v fs) (field k w gs)

mutual
  unfolding redact

  agree_lem : {v w : Value} → Agree v w → redact v ≡ redact w
  agree_lem (same v) = refl
  agree_lem (lists h) = ap list (items_lem h)
  agree_lem (mappings h) = ap mapping (fields_lem h)

  items_lem : {vs ws : Items} → AgreeItems vs ws → redact_items vs ≡ redact_items ws
  items_lem no_items = refl
  items_lem (more_items h t) = rw (agree_lem h, items_lem t) refl

  fields_lem : {fs gs : Fields} → AgreeFields fs gs → redact_fields fs ≡ redact_fields gs
  fields_lem no_fields = refl
  fields_lem (plain k h t) = rw (agree_lem h, fields_lem t) refl
  fields_lem (hidden k v w sensitive t) = rw (sensitive, fields_lem t) refl

module _ (isoformat : ℕ → String) where
  -- Two observations whose values differ only in what stands under sensitive keys, at any depth, are
  -- printed alike.
  pub observation_dict-hides :
      (o : Observation) (v w : Value)
      → Agree v w
      → observation_dict isoformat (record o { value = v })
        ≡ observation_dict isoformat (record o { value = w })
  unfolding observation_dict
  observation_dict-hides o v w h = rw (agree_lem h) refl
