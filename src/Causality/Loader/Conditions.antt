-- ===== src/Causality/Loader/Conditions.antt =====
-- The two ways to write the conditions of a causal rule.
use evidence_tool.Base.{String, ◌<>◌, ◌≡◌, refl, ap, ◌∙◌, List, [], ◌∷◌, All}
use evidence_tool.Base.Dict.{Dict, insert}
use evidence_tool.Base.Decimal.{strip}
use evidence_tool.Base.Cut.{Lacks, cut_lem}
use evidence_tool.Models.Value.{Value, text, list, fields, items, to_items, to_fields, object}
use evidence_tool.Loaders.{Printing}
use evidence_tool.Causality.Loader.{add_condition, conditions_from, conditions_in, parse_conditions}

-- The name has no equals sign and no white space around it, and the value no white space around it.
abbrev pub IsCondition : String × String → Type 0
IsCondition (k, v) = Lacks 61 k × (strip k ≡ k) × (strip v ≡ v)

-- Each condition as one text, `k=v`.
abbrev pub written : Dict String → List Value
written [] = []
written ((k, v) ∷ d) = text (k <> ("=" <> v)) ∷ written d

-- the conditions as a mapping from texts to texts
abbrev pub as_texts : Dict String → Dict Value
as_texts [] = []
as_texts ((k, v) ∷ d) = (k, text v) ∷ as_texts d

module _ (printing : Printing) where
  conditions-written :
      (cs conditions : Dict String)
      → All IsCondition cs
      → conditions_in printing (items (to_items (written cs))) conditions
        ≡ conditions_from printing (fields (to_fields (as_texts cs))) conditions
  unfolding conditions_in conditions_from
  conditions-written [] conditions h = refl
  conditions-written ((k, v) ∷ cs) conditions ((lacks, bare_k, bare_v), h) =
      ap
        (λ o.
          conditions_in printing (items (to_items (written cs)))
            (add_condition printing o conditions))
        (cut_lem k v lacks)
      ∙ rw (bare_k, bare_v) (conditions-written cs (insert k v conditions) h)

  -- Conditions written as a list of texts `k=v` are parsed to the same as those written as a mapping,
  -- where no name has an equals sign and neither names nor values have white space around them.
  pub parse_conditions-written :
      (cs : Dict String)
      → All IsCondition cs
      → parse_conditions printing (list (to_items (written cs)))
        ≡ parse_conditions printing (object (as_texts cs))
  unfolding parse_conditions
  parse_conditions-written cs h = conditions-written cs [] h
