-- ===== src/Causality/Chain.antt =====
-- The search of the causal chain and its fuel.
use evidence_tool.Base.{
  ℕ, zero, suc, ◌+◌, ◌≤◌, String, ◌≡◌, inl, inr, refl, ap, Bool, true, false, not, some, List, [],
  ◌∷◌, ◌++◌, arith, ◌==◌, if◌then◌else◌, length, contains, add, All, contains-append, contains-add,
  Bool-cases,
}
use evidence_tool.Base.Dict.{Dict, lookup}
use evidence_tool.Causality.Search.{
  successors, Walk, visit, visit_all, breadth_first, all_targets, search_from,
}

abbrev unvisited : List String → String → Bool
unvisited visited t = not (contains visited t)

-- how many of the targets have not been visited
fresh : List String → List String → ℕ
fresh [] visited = 0
fresh (t ∷ ts) visited = if contains visited t then fresh ts visited else suc (fresh ts visited)

fresh-add-le : (ts visited : List String) (x : String) → fresh ts (add visited x) ≤ fresh ts visited
unfolding fresh
fresh-add-le [] visited x = omega arith
fresh-add-le (t ∷ ts) visited x =
    ground (arith, fresh-add-le ts visited x, contains-add visited x t)

fresh-add :
    (ts visited : List String) (x : String)
    → contains ts x ≡ true
    → contains visited x ≡ false
    → suc (fresh ts (add visited x)) ≤ fresh ts visited
unfolding fresh
fresh-add [] visited x m n = cc
fresh-add (t ∷ ts) visited x m n = ground (
  arith,
  fresh-add ts visited x,
  fresh-add-le ts visited x,
  contains-add visited x t,
  contains-add visited x x,
)

length-snoc : (xs : List String) (x : String) → length (xs ++ x ∷ []) ≡ suc (length xs)
length-snoc [] x = refl
length-snoc (y ∷ xs) x = ap suc (length-snoc xs x)

fresh-le-length : (ts visited : List String) → fresh ts visited ≤ length ts
unfolding fresh
fresh-le-length [] visited = omega arith
fresh-le-length (t ∷ ts) visited = ground (arith, fresh-le-length ts visited)

-- what is left to do: the queue, and the targets that can still come into it
module _ (ts : List String) where
  abbrev work : Walk → ℕ
  work w = length w.queue + fresh ts w.visited

  work-visit : (x : String) (w : Walk) → contains ts x ≡ true → work (visit x w) ≤ work w
  work-visit x w m = ground (arith, fresh-add ts w.visited x m, length-snoc w.queue x)

  work-visit_all :
      (xs : List String) (w : Walk)
      → All (λ x. contains ts x ≡ true) xs
      → work (visit_all xs w) ≤ work w
  unfolding visit_all
  work-visit_all [] w h = omega arith
  work-visit_all (x ∷ xs) w h = omega (arith, work-visit x w h.0, work-visit_all xs (visit x w) h.1)

All-contains-append_left :
    (xs ys zs : List String)
    → All (λ x. contains ys x ≡ true) xs
    → All (λ x. contains (ys ++ zs) x ≡ true) xs
All-contains-append_left [] ys zs h = tt
All-contains-append_left (x ∷ xs) ys zs h =
    (ground (arith, contains-append ys zs x, h.0), All-contains-append_left xs ys zs h.1)

All-contains-append_right :
    (xs ys zs : List String)
    → All (λ x. contains zs x ≡ true) xs
    → All (λ x. contains (ys ++ zs) x ≡ true) xs
All-contains-append_right [] ys zs h = tt
All-contains-append_right (x ∷ xs) ys zs h =
    (ground (arith, contains-append ys zs x, h.0), All-contains-append_right xs ys zs h.1)

All-contains-cons :
    (xs ys : List String) (y : String)
    → All (λ x. contains ys x ≡ true) xs
    → All (λ x. contains (y ∷ ys) x ≡ true) xs
All-contains-cons [] ys y h = tt
All-contains-cons (x ∷ xs) ys y h = (ground (arith, h.0), All-contains-cons xs ys y h.1)

All-contains_self : (xs : List String) → All (λ x. contains xs x ≡ true) xs
All-contains_self [] = tt
All-contains_self (x ∷ xs) = (ground arith, All-contains-cons xs xs x (All-contains_self xs))

All-successors :
    (graph : Dict (List String)) (curr : String)
    → All (λ x. contains (all_targets graph) x ≡ true) (successors graph curr)
unfolding lookup
All-successors [] curr = tt
All-successors ((j, ts) ∷ graph) curr = elim (Bool-cases (curr == j)) [
  | inl hit ↦ rw hit (All-contains-append_left ts ts (all_targets graph) (All-contains_self ts))
  | inr miss ↦ rw miss (
      All-contains-append_right (successors graph curr) ts (all_targets graph)
        (All-successors graph curr))
]

-- With fuel for the work that is left, the loop ends by its test.
breadth_first_total :
    (fuel : ℕ) (graph : Dict (List String)) (chain visited queue : List String)
    → length queue + fresh (all_targets graph) visited ≤ fuel
    → (w : Walk) × (breadth_first fuel graph chain visited queue ≡ some w)
unfolding breadth_first
breadth_first_total zero graph chain visited [] h = (_, refl)
breadth_first_total (suc fuel) graph chain visited [] h = (_, refl)
breadth_first_total zero graph chain visited (curr ∷ rest) h = absurd (omega arith)
breadth_first_total (suc fuel) graph chain visited (curr ∷ rest) h =
    let before : Walk = record { chain = chain; visited = visited; queue = rest } in
    let w = visit_all (successors graph curr) before in
    breadth_first_total fuel graph w.chain w.visited w.queue (
      omega (
        arith,
        work-visit_all (all_targets graph) (successors graph curr) before
            (All-successors graph curr),
      ))

-- The search that `build_causal_chain` makes always ends.
pub search_from_total :
    (root : String) (graph : Dict (List String)) → (w : Walk) × (search_from root graph ≡ some w)
search_from_total root graph =
    breadth_first_total _ graph (root ∷ []) (root ∷ []) (root ∷ [])
      (omega (arith, fresh-le-length (all_targets graph) (root ∷ [])))
