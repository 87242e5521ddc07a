-- ===== src/Causality/Reach/Content.antt =====
-- The nodes of a causal chain.
use mathlib.Core.Option.{some-injective}
use evidence_tool.Base.{
  ℕ, zero, suc, String, ◌≡◌, ◌↔◌, ◌⊎◌, inl, inr, refl, sym, ◌∙◌, ap, Bool, true, false, not, ◌&&◌,
  ◌||◌, some, List, [], ◌∷◌, ◌++◌, arith, ◌==◌, contains, add, All, Nodup, contains-append,
  Bool-cases, subst, string_dec, Nodup-snoc,
}
use evidence_tool.Base.Dict.{Dict}
use evidence_tool.Causality.Search.{
  successors, Walk, visit_all, breadth_first, search_from, append_symptoms, finish_chain,
  build_causal_chain,
}
use evidence_tool.Causality.Chain.{search_from_total}
use evidence_tool.Causality.Reach.{
  Reach, here, along, All-of_contains, All-at, IsSearch, IsClosed, Settled, visit_all-IsSearch,
  visit_all-visits, visit_all-IsClosed,
}

module _ (graph : Dict (List String)) (root : String) where
  -- all that is visited is settled
  abbrev AllSettled : Walk → Type 0
  AllSettled w = (x : String) → contains w.visited x ≡ true → Settled graph root w x

  abbrev IsDone : Walk → Type 0
  IsDone w =
      (x : String)
      → contains w.visited x ≡ true
      → All (λ y. contains w.visited y ≡ true) (successors graph x)

  module _ (chain visited : List String) (curr : String) (rest : List String) where
    abbrev popped : Walk
    popped = record { chain = chain; visited = visited; queue = rest }

    abbrev waiting : Walk
    waiting = record { chain = chain; visited = visited; queue = curr ∷ rest }

    popped-IsSearch : IsSearch graph root waiting → IsSearch graph root popped
    popped-IsSearch h = record {
      same = h.same;
      nodup = h.nodup;
      has_root = h.has_root;
      sound = h.sound;
      queued = λ x m. h.queued x (ground arith);
    }

    popped-IsClosed : AllSettled waiting → IsClosed graph root curr popped
    popped-IsClosed s x m = elim (s x m) [
      | inl q ↦ elim (string_dec x curr) [ yes e ↦ inr e | no ne ↦ inl (inl (ground arith)) ]
      | inr a ↦ inl (inr a)
    ]

    Reach-successors : IsSearch graph root waiting → All (Reach graph root) (successors graph curr)
    Reach-successors h =
        All-of_contains (Reach graph root) (successors graph curr)
          λ y m. along y (h.sound curr (h.queued curr (ground arith))) m

    turn-IsSearch :
        IsSearch graph root waiting → IsSearch graph root (visit_all (successors graph curr) popped)
    turn-IsSearch h =
        visit_all-IsSearch graph root (successors graph curr) popped (Reach-successors h)
          (popped-IsSearch h)

    turn-AllSettled : AllSettled waiting → AllSettled (visit_all (successors graph curr) popped)
    turn-AllSettled s x m =
        elim (visit_all-IsClosed graph root curr (successors graph curr) popped (popped-IsClosed s)
          x m) [
            | inl settled ↦ settled
            | inr e ↦ inr (
                subst
                  (λ (z : String).
                    All (λ y. contains (visit_all (successors graph curr) popped).visited y ≡ true)
                      (successors graph z))
                  (sym e) (visit_all-visits graph root (successors graph curr) popped))
          ]

  finished :
      (v w : Walk)
      → v.queue ≡ []
      → IsSearch graph root v
      → AllSettled v
      → some v ≡ some w
      → IsSearch graph root w × IsDone w
  finished v w empty h s e =
      subst (λ u. IsSearch graph root u × IsDone u) (some-injective v w e)
        (h, λ x m. elim (s x m) [ inl q ↦ absurd (ground arith) | inr a ↦ a ])

  breadth_first_keeps :
      (fuel : ℕ) (chain visited queue : List String) (w : Walk)
      → IsSearch graph root (record { chain = chain; visited = visited; queue = queue })
      → AllSettled (record { chain = chain; visited = visited; queue = queue })
      → breadth_first fuel graph chain visited queue ≡ some w
      → IsSearch graph root w × IsDone w
  unfolding breadth_first
  breadth_first_keeps zero chain visited [] w h s e = finished _ w refl h s e
  breadth_first_keeps (suc fuel) chain visited [] w h s e = finished _ w refl h s e
  breadth_first_keeps zero chain visited (curr ∷ rest) w h s e = absurd (ground arith)
  breadth_first_keeps (suc fuel) chain visited (curr ∷ rest) w h s e =
      breadth_first_keeps fuel _ _ _ w (turn-IsSearch chain visited curr rest h)
        (turn-AllSettled chain visited curr rest s) e

  start-IsSearch :
      IsSearch graph root (record { chain = root ∷ []; visited = root ∷ []; queue = root ∷ [] })
  start-IsSearch = record {
    same = refl;
    nodup = (refl, tt);
    has_root = ground arith;
    sound = λ x m. elim (string_dec x root) [
      | yes e ↦ subst (Reach graph root) (sym e) here
      | no ne ↦ absurd (ground arith)
    ];
    queued = λ x m. m;
  }

  search_from_keeps :
      (w : Walk) → search_from root graph ≡ some w → IsSearch graph root w × IsDone w
  search_from_keeps w e =
      breadth_first_keeps _ (root ∷ []) (root ∷ []) (root ∷ []) w start-IsSearch (λ x m. inl m) e

  visited_of_Reach :
      (w : Walk)
      → IsSearch graph root w
      → IsDone w
      → {x : String} → Reach graph root x
      → contains w.visited x ≡ true
  visited_of_Reach w h d here = h.has_root
  visited_of_Reach w h d (along {x} y r m) =
      All-at _ (successors graph x) y (d x (visited_of_Reach w h d r)) m

  abbrev is_new : List String → String → Bool
  is_new visited s = not (contains visited s) && not (s == root)

  same-add :
      (chain visited : List String) (s : String)
      → chain ≡ visited
      → is_new visited s ≡ true
      → chain ++ s ∷ [] ≡ add visited s
  same-add chain visited s same new = rw same (ground arith)

  contains_old :
      (chain visited : List String) (s : String)
      → chain ≡ visited
      → contains chain root ≡ true
      → is_new visited s ≡ false
      → contains chain s ≡ true
  contains_old chain visited s same r old = ground (arith, ap (λ xs. contains xs s) same)

  contains-append_symptoms :
      (symptoms chain visited : List String) (x : String)
      → chain ≡ visited
      → contains chain root ≡ true
      → contains (append_symptoms root symptoms chain visited) x
        ≡ (contains chain x || contains symptoms x)
  unfolding append_symptoms
  contains-append_symptoms [] chain visited x same r = ground arith
  contains-append_symptoms (s ∷ rest) chain visited x same r =
      elim (Bool-cases (is_new visited s)) [
        | inl new ↦ rw new (
            contains-append_symptoms rest (chain ++ s ∷ []) (add visited s) x
              (same-add chain visited s same new)
              (ground (arith, contains-append chain (s ∷ []) root))
            ∙ ground (arith, contains-append chain (s ∷ []) x))
        | inr old ↦ rw old (
            contains-append_symptoms rest chain visited x same r
            ∙ ground (arith, contains_old chain visited s same r old))
      ]

  append_symptoms-Nodup :
      (symptoms chain visited : List String)
      → chain ≡ visited
      → Nodup chain
      → Nodup (append_symptoms root symptoms chain visited)
  unfolding append_symptoms
  append_symptoms-Nodup [] chain visited same u = u
  append_symptoms-Nodup (s ∷ rest) chain visited same u = elim (Bool-cases (is_new visited s)) [
    | inl new ↦ rw new (
        append_symptoms-Nodup rest (chain ++ s ∷ []) (add visited s)
          (same-add chain visited s same new) (Nodup-snoc chain s u (rw same (ground arith))))
    | inr old ↦ rw old (append_symptoms-Nodup rest chain visited same u)
  ]

  module _ (symptoms : List String) where
    build_causal_chain-eq :
        (w : Walk)
        → search_from root graph ≡ some w
        → build_causal_chain root graph symptoms ≡ append_symptoms root symptoms w.chain w.visited
    unfolding build_causal_chain
    build_causal_chain-eq w e = ap (finish_chain root symptoms) e

    -- No node is listed twice in a causal chain.
    pub build_causal_chain-Nodup : Nodup (build_causal_chain root graph symptoms)
    build_causal_chain-Nodup =
        let (w, e) = search_from_total root graph in
        let (h, done) = search_from_keeps w e in
        rw (build_causal_chain-eq w e)
          (append_symptoms-Nodup symptoms w.chain w.visited h.same (rw h.same h.nodup))

    -- A node is in the chain exactly when it can be reached from the root, or is a symptom.
    pub contains-build_causal_chain_iff :
        (x : String)
        → (contains (build_causal_chain root graph symptoms) x ≡ true)
          ↔ (Reach graph root x ⊎ (contains symptoms x ≡ true))
    contains-build_causal_chain_iff x =
        let (w, e) = search_from_total root graph in
        let (h, done) = search_from_keeps w e in
        let content : contains (build_causal_chain root graph symptoms) x
            ≡ (contains w.visited x || contains symptoms x) =
          rw (build_causal_chain-eq w e) (
            contains-append_symptoms symptoms w.chain w.visited x h.same (rw h.same h.has_root)
            ∙ ap (λ (xs : List String). contains xs x || contains symptoms x) h.same) in
        (
          λ m. elim (Bool-cases (contains w.visited x)) [
            | inl seen ↦ inl (h.sound x seen)
            | inr new ↦ inr (ground arith)
          ],
          elim [
            | inl r ↦ content ∙ rw (visited_of_Reach w h done r)
            | inr m ↦ content ∙ ground arith
          ],
        )
