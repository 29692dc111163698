-- ===== src/Agents/Planning/Rank.antt =====
-- mas/agents/planning_sub/proposal_ranker.py: the order of the proposals.
use mathlib.Core.List.{Perm}
use mathlib.Core.List.Perm
use manufacturing_mas.Prelude.{
  ◌≡◌, refl, ◌⊎◌, inl, inr, String, Bool, true, false, not, ◌&&◌, ◌||◌, Option, none, some, List,
  [], ◌∷◌, arith, if◌then◌else◌, Bool-cases, Option-cases, All, All-map,
}
use manufacturing_mas.Prelude.Int.{ℤ}
use manufacturing_mas.Float.{Float, IsOrdered}
use manufacturing_mas.Protocol.Session.{CnpConstraints}
use manufacturing_mas.Agents.Planning.Evaluate.{Evaluated, evaluate_proposal}

module _ {F : Type 0} ⦃f : Float F⦄ where
  -- a >= b, or, if they are equal, what the next component says.
  abbrev at_least : F → F → Bool → Bool
  at_least a b next = f.le b a && (not (f.le a b) || next)

  -- The triple of scores of `a` is not below that of `b`, component by component.
  unfoldable pub outranks : Evaluated F → Evaluated F → Bool
  outranks a b = at_least a.total_score b.total_score (
      at_least a.comparison_score b.comparison_score
        (at_least a.business_score b.business_score true))

  -- A stable sort, the best first: `a` stood before all of the list.
  unfoldable pub insert_ranked : Evaluated F → List (Evaluated F) → List (Evaluated F)
  unfolding outranks
  insert_ranked a [] = a ∷ []
  insert_ranked a (b ∷ rest) =
      let later = insert_ranked a rest in if outranks a b then a ∷ b ∷ rest else b ∷ later

  unfoldable pub sort_ranked : List (Evaluated F) → List (Evaluated F)
  unfolding insert_ranked
  sort_ranked [] = []
  sort_ranked (a ∷ rest) = insert_ranked a (sort_ranked rest)

module _ {F : Type 0} ⦃f : Float F⦄ (parse : String → Option F)
    (parse_int : String → Option ℤ) where
  unfoldable pub evaluate_all : CnpConstraints F → List (Evaluated F) → Option (List (Evaluated F))
  unfolding evaluate_proposal
  evaluate_all c [] = some []
  evaluate_all c (p ∷ rest) =
      let others = evaluate_all c rest in
      elim (evaluate_proposal parse parse_int c p.body) [
        | none ↦ none
        | some e ↦ elim others [ none ↦ none | some es ↦ some (e ∷ es) ]
      ]

  -- Every proposal is evaluated once more before the sort.
  unfoldable pub rank_proposals_by_comparison :
      CnpConstraints F → List (Evaluated F) → Option (List (Evaluated F))
  unfolding evaluate_all sort_ranked
  rank_proposals_by_comparison c ps = elim (evaluate_all c ps) [
    | none ↦ none
    | some es ↦ some (sort_ranked es)
  ]

-- Each proposal outranks all that follow.
abbrev pub IsRanked : {F : Type 0} ⦃f : Float F⦄ → List (Evaluated F) → Type 0
IsRanked [] = Unit
IsRanked (a ∷ rest) = All (λ b. outranks a b ≡ true) rest × IsRanked rest

module _ {F : Type 0} ⦃f : Float F⦄ (laws : IsOrdered F) where
  at_least_trans :
      (x y z : F) (r s t : Bool)
      → (r ≡ true → s ≡ true → t ≡ true)
      → at_least x y r ≡ true
      → at_least y z s ≡ true
      → at_least x z t ≡ true
  at_least_trans x y z r s t next h k =
      ground (arith, h, k, next, laws.le_trans z y x, laws.le_trans x z y, laws.le_trans y x z)

  outranks_trans :
      (a b c : Evaluated F) → outranks a b ≡ true → outranks b c ≡ true → outranks a c ≡ true
  unfolding outranks
  outranks_trans a b c = at_least_trans a.total_score b.total_score c.total_score _ _ _ (
      at_least_trans a.comparison_score b.comparison_score c.comparison_score _ _ _ (
        at_least_trans a.business_score b.business_score c.business_score true true true
          (λ _ _. refl)))

  outranks_total : (a b : Evaluated F) → outranks a b ≡ false → outranks b a ≡ true
  unfolding outranks
  outranks_total a b h = ground (
    arith,
    h,
    laws.le_total a.total_score b.total_score,
    laws.le_total a.comparison_score b.comparison_score,
    laws.le_total a.business_score b.business_score,
  )

  insert_ranked-All :
      (P : Evaluated F → Type 0) (a : Evaluated F) (es : List (Evaluated F))
      → P a
      → All P es
      → All P (insert_ranked a es)
  unfolding insert_ranked
  insert_ranked-All P a [] p h = (p, tt)
  insert_ranked-All P a (b ∷ rest) p (q, h) = elim (Bool-cases (outranks a b)) [
    | inl before ↦ rw before (p, (q, h))
    | inr after ↦ rw after (q, insert_ranked-All P a rest p h)
  ]

  insert_ranked-IsRanked :
      (a : Evaluated F) (es : List (Evaluated F)) → IsRanked es → IsRanked (insert_ranked a es)
  unfolding insert_ranked
  insert_ranked-IsRanked a [] h = (tt, tt)
  insert_ranked-IsRanked a (b ∷ rest) (first, h) = elim (Bool-cases (outranks a b)) [
    | inl before ↦ rw before (
      (
        before,
        All-map (λ c. outranks b c ≡ true) (λ c. outranks a c ≡ true) rest
            (λ c k. outranks_trans a b c before k) first,
      ),
      (first, h),
    )
    | inr after ↦ rw after (
      insert_ranked-All (λ c. outranks b c ≡ true) a rest (outranks_total a b after) first,
      insert_ranked-IsRanked a rest h,
    )
  ]

  sort_ranked-IsRanked : (es : List (Evaluated F)) → IsRanked (sort_ranked es)
  unfolding sort_ranked
  sort_ranked-IsRanked [] = tt
  sort_ranked-IsRanked (a ∷ rest) =
      insert_ranked-IsRanked a (sort_ranked rest) (sort_ranked-IsRanked rest)

module _ {F : Type 0} ⦃f : Float F⦄ where
  insert_ranked-Perm :
      (a : Evaluated F) (es : List (Evaluated F)) → Perm (insert_ranked a es) (a ∷ es)
  unfolding insert_ranked
  insert_ranked-Perm a [] = Perm.refl (a ∷ [])
  insert_ranked-Perm a (b ∷ rest) = elim (Bool-cases (outranks a b)) [
    | inl before ↦ rw before (Perm.refl (a ∷ b ∷ rest))
    | inr after ↦
        rw after (Perm.trans (Perm.cons b (insert_ranked-Perm a rest)) (Perm.swap a b rest))
  ]

  sort_ranked-Perm : (es : List (Evaluated F)) → Perm (sort_ranked es) es
  unfolding sort_ranked
  sort_ranked-Perm [] = Perm.refl []
  sort_ranked-Perm (a ∷ rest) =
      Perm.trans (insert_ranked-Perm a (sort_ranked rest)) (Perm.cons a (sort_ranked-Perm rest))

  -- Either a proposal cannot be evaluated, and then the ranking raises, or the ranking is a
  -- rearrangement of their evaluations in which each proposal outranks all that follow: its total score
  -- is at least theirs, a tie is decided by the comparison score and then by the business score.
  pub rank_lem :
      (laws : IsOrdered F) (parse : String → Option F) (parse_int : String → Option ℤ)
      (c : CnpConstraints F) (ps : List (Evaluated F))
      → ((evaluate_all parse parse_int c ps ≡ none)
          × (rank_proposals_by_comparison parse parse_int c ps ≡ none))
        ⊎ ((es : List (Evaluated F)) × (ranked : List (Evaluated F)) × (evaluate_all parse parse_int
                c ps
              ≡ some es)
            × (rank_proposals_by_comparison parse parse_int c ps ≡ some ranked)
            × Perm ranked es
            × IsRanked ranked)
  unfolding rank_proposals_by_comparison
  rank_lem laws parse parse_int c ps = elim (Option-cases (evaluate_all parse parse_int c ps)) [
    | inl raised ↦ inl (raised, rw (raised, rank_proposals_by_comparison) refl)
    | inr (es, e) ↦ inr (
      es,
      sort_ranked es,
      e,
      rw (e, rank_proposals_by_comparison) refl,
      sort_ranked-Perm es,
      sort_ranked-IsRanked laws es,
    )
  ]
