-- ===== src/Causality/Search.antt =====
-- causality/engine.py: the search of `_build_causal_chain`.
use evidence_tool.Base.{
  ℕ, zero, suc, String, not, ◌&&◌, Option, none, some, List, [], ◌∷◌, ◌++◌, ◌==◌, if◌then◌else◌,
  length, contains, add,
}
use evidence_tool.Base.Dict.{Dict, lookup}
use evidence_tool.Causality.Rules.{successors_of}

-- `graph.get(curr, [])`
abbrev pub successors : Dict (List String) → String → List String
successors graph curr = successors_of (lookup curr graph)

-- `_build_causal_chain`: the variables of its loop
pub record Walk : Type 0 where
  pub chain : List String
  pub visited : List String
  pub queue : List String

abbrev pub visit : String → Walk → Walk
visit nxt w = if contains w.visited nxt then w else record {
  chain = w.chain ++ nxt ∷ [];
  visited = add w.visited nxt;
  queue = w.queue ++ nxt ∷ [];
}

-- `for nxt in graph.get(curr, [])`
unfoldable pub visit_all : List String → Walk → Walk
visit_all [] w = w
visit_all (nxt ∷ rest) w = visit_all rest (visit nxt w)

-- `while queue`, with fuel; `none` means that the fuel ran out
unfoldable pub breadth_first :
    ℕ → Dict (List String) → List String → List String → List String → Option Walk
unfolding visit_all
breadth_first fuel graph chain visited [] =
    some (record { chain = chain; visited = visited; queue = [] })
breadth_first zero graph chain visited (curr ∷ rest) = none
breadth_first (suc fuel) graph chain visited (curr ∷ rest) =
    let w =
      visit_all (successors graph curr)
        (record { chain = chain; visited = visited; queue = rest }) in
    breadth_first fuel graph w.chain w.visited w.queue

-- all targets of the graph; the loop makes at most one turn for each, and one for the root
abbrev pub all_targets : Dict (List String) → List String
all_targets [] = []
all_targets ((_, ts) ∷ g) = ts ++ all_targets g

abbrev pub search_from : String → Dict (List String) → Option Walk
search_from root graph =
    breadth_first (suc (length (all_targets graph))) graph (root ∷ []) (root ∷ []) (root ∷ [])

-- `for s in symptoms`
unfoldable pub append_symptoms : String → List String → List String → List String → List String
append_symptoms root [] chain visited = chain
append_symptoms root (s ∷ rest) chain visited =
    let new = not (contains visited s) && not (s == root) in
    append_symptoms root rest (if new then chain ++ s ∷ [] else chain)
      (if new then add visited s else visited)

abbrev pub finish_chain : String → List String → Option Walk → List String
finish_chain root symptoms none = []
finish_chain root symptoms (some w) = append_symptoms root symptoms w.chain w.visited

unfoldable pub build_causal_chain : String → Dict (List String) → List String → List String
build_causal_chain root graph symptoms = finish_chain root symptoms (search_from root graph)
