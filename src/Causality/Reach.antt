-- ===== src/Causality/Reach.antt =====
-- What is in a causal chain.
pub mod Content
use evidence_tool.Base.{
  ℕ, zero, suc, ◌+◌, ◌≤◌, String, ◌≡◌, ◌≢◌, ◌↔◌, ◌⊎◌, inl, inr, refl, sym, ◌∙◌, ap, Bool, true,
  false, not, ◌&&◌, ◌||◌, Option, none, some, List, [], ◌∷◌, ◌++◌, arith, ◌==◌, if◌then◌else◌,
  contains, add, All, Nodup, contains-append, contains-add, Bool-cases, subst, string_dec,
  Nodup-snoc,
}
use evidence_tool.Base.Dict.{Dict, lookup}
use evidence_tool.Causality.Rules.{successors_of}
use evidence_tool.Causality.Search.{
  successors, Walk, visit, visit_all, breadth_first, all_targets, search_from, append_symptoms,
  build_causal_chain,
}
use evidence_tool.Causality.Chain.{search_from_total}

-- `x` can be reached from the root along the edges of the graph.
pub data Reach (graph : Dict (List String)) (root : String) : String → Type 0 where
  here : Reach graph root root
  along :
      {x : String} (y : String)
      → Reach graph root x
      → contains (successors graph x) y ≡ true
      → Reach graph root y

contains-snoc :
    (xs : List String) (x y : String)
    → contains (xs ++ x ∷ []) y ≡ true
    → (contains xs y ≡ true) ⊎ (y ≡ x)
contains-snoc xs x y m = ground (arith, contains-append xs (x ∷ []) y)

All-of_contains {ℓ} :
    (P : String → Type ℓ) (xs : List String)
    → ((x : String) → contains xs x ≡ true → P x)
    → All P xs
All-of_contains P [] h = tt
All-of_contains P (x ∷ xs) h =
    (h x (ground arith), All-of_contains P xs (λ y m. h y (ground arith)))

All-at {ℓ} :
    (P : String → Type ℓ) (xs : List String) (x : String) → All P xs → contains xs x ≡ true → P x
All-at P [] x h m = absurd (ground arith)
All-at P (y ∷ xs) x h m = elim (string_dec x y) [
  | yes e ↦ subst P (sym e) h.0
  | no ne ↦ All-at P xs x h.1 (ground arith)
]

module _ (graph : Dict (List String)) (root : String) where
  -- what the search knows: the queue and the chain are of visited nodes, which are reachable
  record IsSearch (w : Walk) : Type 0 where
    same : w.chain ≡ w.visited
    nodup : Nodup w.visited
    has_root : contains w.visited root ≡ true
    sound : (x : String) → contains w.visited x ≡ true → Reach graph root x
    queued : (x : String) → contains w.queue x ≡ true → contains w.visited x ≡ true

  visit-IsSearch : (x : String) (w : Walk) → Reach graph root x → IsSearch w → IsSearch (visit x w)
  visit-IsSearch x w r h = elim (Bool-cases (contains w.visited x)) [
    | inl old ↦ rw old h
    | inr new ↦ rw new (record {
      same = ap (λ (c : List String). c ++ x ∷ []) h.same;
      nodup = Nodup-snoc w.visited x h.nodup new;
      has_root = ground (arith, contains-append w.visited (x ∷ []) root, h.has_root);
      sound = λ y m. elim (contains-snoc w.visited x y m) [
        | inl seen ↦ h.sound y seen
        | inr e ↦ subst (Reach graph root) (sym e) r
      ];
      queued = λ y m.
          ground
            (arith, contains-append w.visited (x ∷ []) y, contains-snoc w.queue x y m, h.queued y);
    })
  ]

  visit_all-IsSearch :
      (xs : List String) (w : Walk)
      → All (Reach graph root) xs
      → IsSearch w
      → IsSearch (visit_all xs w)
  unfolding visit_all
  visit_all-IsSearch [] w r h = h
  visit_all-IsSearch (x ∷ xs) w r h =
      visit_all-IsSearch xs (visit x w) r.1 (visit-IsSearch x w r.0 h)

  visit-grows :
      (x y : String) (w : Walk)
      → contains w.visited y ≡ true
      → contains (visit x w).visited y ≡ true
  visit-grows x y w m = ground (arith, contains-add w.visited x y)

  visit_all-grows :
      (xs : List String) (y : String) (w : Walk)
      → contains w.visited y ≡ true
      → contains (visit_all xs w).visited y ≡ true
  unfolding visit_all
  visit_all-grows [] y w m = m
  visit_all-grows (x ∷ xs) y w m = visit_all-grows xs y (visit x w) (visit-grows x y w m)

  visit_all-visits :
      (xs : List String) (w : Walk) → All (λ y. contains (visit_all xs w).visited y ≡ true) xs
  unfolding visit_all
  visit_all-visits [] w = tt
  visit_all-visits (x ∷ xs) w = (
    visit_all-grows xs x (visit x w) (ground (arith, contains-add w.visited x x)),
    visit_all-visits xs (visit x w),
  )

  -- a node that is visited waits in the queue, or its successors are visited
  abbrev Settled : Walk → String → Type 0
  Settled w x =
      (contains w.queue x ≡ true) ⊎ All (λ y. contains w.visited y ≡ true) (successors graph x)

  -- as `Settled`, but for the node whose successors are being visited
  abbrev IsClosed : String → Walk → Type 0
  IsClosed curr w = (x : String) → contains w.visited x ≡ true → Settled w x ⊎ (x ≡ curr)

  All-grows :
      (x : String) (w : Walk) (ys : List String)
      → All (λ y. contains w.visited y ≡ true) ys
      → All (λ y. contains (visit x w).visited y ≡ true) ys
  All-grows x w [] h = tt
  All-grows x w (y ∷ ys) h = (visit-grows x y w h.0, All-grows x w ys h.1)

  visit-Settled : (x y : String) (w : Walk) → Settled w y → Settled (visit x w) y
  visit-Settled x y w (inl q) = inl (ground (arith, contains-append w.queue (x ∷ []) y))
  visit-Settled x y w (inr a) = inr (All-grows x w (successors graph y) a)

  visit-IsClosed : (curr x : String) (w : Walk) → IsClosed curr w → IsClosed curr (visit x w)
  visit-IsClosed curr x w c y m = elim (Bool-cases (contains w.visited y)) [
    | inl old ↦ elim (c y old) [ inl settled ↦ inl (visit-Settled x y w settled) | inr e ↦ inr e ]
    | inr new ↦
        inl (inl (ground (arith, contains-add w.visited x y, contains-append w.queue (x ∷ []) y)))
  ]

  visit_all-IsClosed :
      (curr : String) (xs : List String) (w : Walk)
      → IsClosed curr w
      → IsClosed curr (visit_all xs w)
  unfolding visit_all
  visit_all-IsClosed curr [] w c = c
  visit_all-IsClosed curr (x ∷ xs) w c =
      visit_all-IsClosed curr xs (visit x w) (visit-IsClosed curr x w c)
