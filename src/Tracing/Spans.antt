-- ===== src/Tracing/Spans.antt =====
-- Every span of a diagnosis belongs to its trace.
use evidence_tool.Base.{
  ℕ, String, ◌==◌, ◌≡◌, refl, ◌∙◌, Option, none, some, List, [], ◌∷◌, ◌++◌, All, Bool-cases, inl,
  inr,
}
use evidence_tool.Base.Dict.{Dict, lookup, insert, values}
use evidence_tool.Models.Value.{Value}
use evidence_tool.Tracing.{
  SpanRecord, Tracer, set_attributes, set_attribute, end_at, remove, start_span, end_span, finished,
  on_root,
}

-- The span was made for this trace.
abbrev pub Of : String → SpanRecord → Type 0
Of id span = span.trace_id ≡ id

abbrev pub OfEach : String → List SpanRecord → Type 0
OfEach id = All (Of id)

abbrev pub OfSome : String → Option SpanRecord → Type 0
OfSome id none = Unit
OfSome id (some span) = Of id span

-- The root, the spans that have ended and those that have not carry the trace id.
pub record IsWhole (id : String) (t : Tracer) : Type 0 where
  pub own : t.trace_id ≡ id
  pub root : OfSome id t.root_span
  pub ended : OfEach id t.spans
  pub active : OfEach id (values t.active_spans)

module _ (id : String) where
  set_attributes_trace :
      (d : Dict Value) (span : SpanRecord) → (set_attributes d span).trace_id ≡ span.trace_id
  unfolding set_attributes
  set_attributes_trace [] span = refl
  set_attributes_trace ((k, v) ∷ rest) span = set_attributes_trace rest (set_attribute k v span)

  insert-OfEach :
      (k : String) (span : SpanRecord) (d : Dict SpanRecord)
      → Of id span
      → OfEach id (values d)
      → OfEach id (values (insert k span d))
  unfolding insert
  insert-OfEach k span [] h g = (h, tt)
  insert-OfEach k span ((j, w) ∷ d) h g = elim (Bool-cases (k == j)) [
    | inl same ↦ rw same (h, g.1)
    | inr other ↦ rw other (g.0, insert-OfEach k span d h g.1)
  ]

  remove-OfEach :
      (k : String) (d : Dict SpanRecord) → OfEach id (values d) → OfEach id (values (remove k d))
  unfolding remove
  remove-OfEach k [] g = tt
  remove-OfEach k ((j, w) ∷ d) g = elim (Bool-cases (k == j)) [
    | inl same ↦ rw same (remove-OfEach k d g.1)
    | inr other ↦ rw other (g.0, remove-OfEach k d g.1)
  ]

  lookup-OfSome : (k : String) (d : Dict SpanRecord) → OfEach id (values d) → OfSome id (lookup k d)
  unfolding lookup
  lookup-OfSome k [] g = tt
  lookup-OfSome k ((j, w) ∷ d) g = elim (Bool-cases (k == j)) [
    | inl same ↦ rw same g.0
    | inr other ↦ rw other (lookup-OfSome k d g.1)
  ]

  ended-Of :
      (now : ℕ) (status : String) (description : Option String) (d : Dict Value) (span : SpanRecord)
      → Of id span
      → Of id (end_at now status description (set_attributes d span))
  unfolding end_at
  ended-Of now status description d span h = set_attributes_trace d span ∙ h

  append-OfEach :
      (xs : List SpanRecord) (span : SpanRecord)
      → OfEach id xs
      → Of id span
      → OfEach id (xs ++ span ∷ [])
  append-OfEach [] span g h = (h, tt)
  append-OfEach (x ∷ xs) span g h = (g.0, append-OfEach xs span g.1 h)

  on_root-OfSome :
      (d : Dict Value) (o : Option SpanRecord)
      → OfSome id o
      → OfSome id (on_root (set_attributes d) o)
  on_root-OfSome d none h = tt
  on_root-OfSome d (some span) h = rw (set_attributes_trace d span) h

  pub start_span-IsWhole :
      (name : String) (parent : Option SpanRecord) (otel : Option String) (now : ℕ) (fresh : String)
      (t : Tracer)
      → IsWhole id t
      → IsWhole id (start_span name parent otel now fresh t).1
  unfolding start_span
  start_span-IsWhole name parent otel now fresh t h = record {
    own = h.own;
    root = h.root;
    ended = h.ended;
    active = insert-OfEach name _ t.active_spans h.own h.active;
  }

  finished-IsWhole :
      (status : String) (description : Option String) (attributes : Dict Value) (now : ℕ)
      (t : Tracer) (name : String) (o : Option SpanRecord)
      → OfSome id o
      → IsWhole id t
      → IsWhole id (finished status description attributes now t name o).1
  finished-IsWhole status description attributes now t name none g h = record {
    own = h.own;
    root = h.root;
    ended = h.ended;
    active = remove-OfEach name t.active_spans h.active;
  }
  finished-IsWhole status description attributes now t name (some span) g h = record {
    own = h.own;
    root = h.root;
    ended = append-OfEach t.spans _ h.ended (ended-Of now status description attributes span g);
    active = remove-OfEach name t.active_spans h.active;
  }

  pub end_span-IsWhole :
      (name status : String) (description : Option String) (attributes : Dict Value) (now : ℕ)
      (t : Tracer)
      → IsWhole id t
      → IsWhole id (end_span name status description attributes now t).1
  unfolding end_span
  end_span-IsWhole name status description attributes now t h =
      finished-IsWhole status description attributes now t name (lookup name t.active_spans)
        (lookup-OfSome name t.active_spans h.active) h

  pub enrich-IsWhole :
      (d : Dict Value) (t : Tracer)
      → IsWhole id t
      → IsWhole id (record t { root_span = on_root (set_attributes d) t.root_span })
  enrich-IsWhole d t h = record {
    own = h.own;
    root = on_root-OfSome d t.root_span h.root;
    ended = h.ended;
    active = h.active;
  }
