-- ===== src/Loaders/Catalog.antt =====
-- diagnostic/loader.py: from the value of a YAML file to a catalog of situations. Keys of mappings
-- are texts, so an id is one. A description that is not a text is kept in its printed form.
use evidence_tool.Base.{
  String, ◌<>◌, ◌≡◌, ◌≢◌, Option, none, some, List, [], ◌∷◌, arith, All, Result, ok, err,
  value_error, type_error, ◌>>=◌, Yields, Yields->>=, Yields_of_ok,
}
use evidence_tool.Base.Dict.{Dict, insert}
use evidence_tool.Models.Value.{Value, text, mapping, fields, get_key}
use evidence_tool.Models.Evidence.{EvidenceStatus, pass, fail, unknown, parse_status}
use evidence_tool.Models.Correlation.{Situation}
use evidence_tool.Loaders.{Printing}

module _ (printing : Printing) where
  unfoldable pub check_status :
      String → String → Value → Option EvidenceStatus → Result EvidenceStatus
  check_status sit_id ev_id raw none = err (
      value_error (
        "Invalid status '"
        <> (printing.value raw
            <> ("' for evidence '"
                <> (ev_id <> ("' in situation '" <> (sit_id <> "'. Must be PASS or FAIL.")))))))
  check_status sit_id ev_id raw (some unknown) = err (
      value_error (
        "UNKNOWN cannot be used in a situation signature (situation: "
        <> (sit_id <> (", evidence: " <> (ev_id <> ").")))))
  check_status sit_id ev_id raw (some pass) = ok pass
  check_status sit_id ev_id raw (some fail) = ok fail

  -- the loop over `signature_raw.items()`
  unfoldable pub load_signature :
      String → Dict Value → Dict EvidenceStatus → Result (Dict EvidenceStatus)
  unfolding check_status
  load_signature sit_id [] signature = ok signature
  load_signature sit_id ((ev_id, raw) ∷ rest) signature = do
    status ← check_status sit_id ev_id raw (parse_status raw)
    load_signature sit_id rest (insert ev_id status signature)

  unfoldable pub description_of : Option Value → String
  description_of none = ""
  description_of (some (text s)) = s
  description_of (some v) = printing.value v

  -- `sit_data.get("signature", {}).items()`; on what is not a mapping this is an AttributeError, for
  -- which `type_error` stands
  unfoldable pub signature_items : Option Value → Result (Dict Value)
  signature_items none = ok []
  signature_items (some (mapping fs)) = ok (fields fs)
  signature_items (some _) = err (type_error "object has no attribute 'items'")

  unfoldable pub load_situation : String → Value → Result Situation
  unfolding load_signature description_of signature_items
  load_situation sit_id (mapping fs) =
      let sit_data = mapping fs in
      do
        raw ← signature_items (get_key "signature" sit_data)
        signature ← load_signature sit_id raw []
        ok (record {
          id = sit_id;
          description = description_of (get_key "description" sit_data);
          signature = signature;
        })
  load_situation sit_id _ = err (value_error ("Invalid situation data for " <> sit_id))

  unfoldable pub load_situations : Dict Value → Result (List Situation)
  unfolding load_situation
  load_situations [] = ok []
  load_situations ((sit_id, sit_data) ∷ rest) = do
    situation ← load_situation sit_id sit_data
    situations ← load_situations rest
    ok (situation ∷ situations)

  unfoldable pub situations_of : String → Option Value → Result (List Situation)
  unfolding load_situations
  situations_of path none =
      err (value_error ("Invalid catalog format in " <> (path <> ": missing 'situations' key.")))
  situations_of path (some (mapping fs)) = load_situations (fields fs)
  situations_of path (some _) = err (
      value_error
        ("Invalid catalog format in " <> (path <> ": 'situations' must be a dictionary.")))

  unfoldable pub load_catalog : String → Value → Result (List Situation)
  unfolding situations_of
  load_catalog path content = situations_of path (get_key "situations" content)

  -- No entry of the signature is UNKNOWN.
  abbrev pub IsDefinite : Dict EvidenceStatus → Type 0
  IsDefinite = All λ (entry : String × EvidenceStatus). entry.1 ≢ unknown

  abbrev IsLoaded : Situation → Type 0
  IsLoaded sit = IsDefinite sit.signature

  IsDefinite-insert :
      (k : String) (s : EvidenceStatus) (d : Dict EvidenceStatus)
      → s ≢ unknown
      → IsDefinite d
      → IsDefinite (insert k s d)
  unfolding insert
  IsDefinite-insert k s [] h g = (h, tt)
  IsDefinite-insert k s (_ ∷ d) h g = ground (arith, IsDefinite-insert k s d h g.1)

  check_status-Yields :
      (sit_id ev_id : String) (raw : Value) (o : Option EvidenceStatus)
      → Yields (λ (s : EvidenceStatus). s ≢ unknown) (check_status sit_id ev_id raw o)
  unfolding check_status
  check_status-Yields sit_id ev_id raw none = tt
  check_status-Yields sit_id ev_id raw (some unknown) = tt
  check_status-Yields sit_id ev_id raw (some pass) = cc
  check_status-Yields sit_id ev_id raw (some fail) = cc

  load_signature-Yields :
      (sit_id : String) (raw : Dict Value) (signature : Dict EvidenceStatus)
      → IsDefinite signature
      → Yields IsDefinite (load_signature sit_id raw signature)
  unfolding load_signature
  load_signature-Yields sit_id [] signature h = h
  load_signature-Yields sit_id ((ev_id, v) ∷ rest) signature h =
      Yields->>= (λ (s : EvidenceStatus). s ≢ unknown) IsDefinite _ _
        (check_status-Yields sit_id ev_id v (parse_status v))
        λ s definite.
          load_signature-Yields sit_id rest (insert ev_id s signature)
            (IsDefinite-insert ev_id s signature definite h)

  signature_items-Yields :
      (o : Option Value) → Yields (λ (d : Dict Value). Unit {0}) (signature_items o)
  unfolding signature_items
  signature_items-Yields none = tt
  signature_items-Yields (some (mapping fs)) = tt
  signature_items-Yields (some _) = tt

  load_situation-Yields : (sit_id : String) (v : Value) → Yields IsLoaded (load_situation sit_id v)
  unfolding load_situation
  load_situation-Yields sit_id (mapping fs) =
      Yields->>= (λ (d : Dict Value). Unit {0}) IsLoaded _ _
        (signature_items-Yields (get_key "signature" (mapping fs)))
        λ raw _.
          Yields->>= IsDefinite IsLoaded _ _ (load_signature-Yields sit_id raw [] tt)
            λ signature definite. definite
  load_situation-Yields sit_id _ = tt

  load_situations-Yields : (d : Dict Value) → Yields (All IsLoaded) (load_situations d)
  unfolding load_situations
  load_situations-Yields [] = tt
  load_situations-Yields ((sit_id, v) ∷ rest) =
      Yields->>= IsLoaded (All IsLoaded) _ _ (load_situation-Yields sit_id v) λ sit loaded.
        Yields->>= (All IsLoaded) (All IsLoaded) _ _ (load_situations-Yields rest)
          λ sits all. (loaded, all)

  situations_of-Yields :
      (path : String) (o : Option Value) → Yields (All IsLoaded) (situations_of path o)
  unfolding situations_of
  situations_of-Yields path none = tt
  situations_of-Yields path (some (mapping fs)) = load_situations-Yields (fields fs)
  situations_of-Yields path (some _) = tt

  -- No situation of a loaded catalog asks for the status UNKNOWN.
  pub load_catalog-IsDefinite :
      (path : String) (content : Value) (catalog : List Situation)
      → load_catalog path content ≡ ok catalog
      → All (λ (sit : Situation). IsDefinite sit.signature) catalog
  unfolding load_catalog
  load_catalog-IsDefinite path content catalog h =
      Yields_of_ok (All IsLoaded) (load_catalog path content)
        (situations_of-Yields path (get_key "situations" content)) h
