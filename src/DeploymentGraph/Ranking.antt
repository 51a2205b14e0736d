-- ===== src/DeploymentGraph/Ranking.antt =====
-- core/ecosystem/deployment_graph.go: the scores and the order of the rollback candidates.
use hisnos_secure_workstatio.Common.{
  ℕ, ◌+◌, ◌≤◌, ◌≡◌, refl, ◌∙◌, inl, inr, Bool, true, false, List, [], ◌∷◌, All, count_if, length,
  ltb, Bool-cases, arith,
}
use hisnos_secure_workstatio.DeploymentGraph.{
  DeploymentRecord, RollbackCandidate, is_active, is_candidate, score_deployment, collect, sink,
  sort_loop, flip, suggest_rollback, graph_status,
}

-- Later scores are not higher.
abbrev pub Descending : List RollbackCandidate → Type 0
Descending [] = Unit
Descending (c ∷ cs) = All (λ d. d.score ≤ c.score) cs × Descending cs

abbrev Ascending : List RollbackCandidate → Type 0
Ascending [] = Unit
Ascending (c ∷ cs) = All (λ d. c.score ≤ d.score) cs × Ascending cs

All-sink {ℓ} :
    (P : RollbackCandidate → Type ℓ) (key : RollbackCandidate) (cs : List RollbackCandidate)
    → P key
    → All P cs
    → All P (sink key cs)
unfolding sink
All-sink P key [] k a = (k, tt)
All-sink P key (c ∷ cs) k a = elim (Bool-cases (ltb c.score key.score)) [
  | inl e ↦ rw e (a.0, All-sink P key cs k a.1)
  | inr e ↦ rw e (k, a)
]

All-above :
    (cs : List RollbackCandidate) (k l : ℕ)
    → k ≤ l
    → All (λ d. l ≤ d.score) cs
    → All (λ d. k ≤ d.score) cs
All-above [] k l h a = tt
All-above (c ∷ cs) k l h a = (omega arith, All-above cs k l h a.1)

sink-Ascending :
    (key : RollbackCandidate) (cs : List RollbackCandidate) → Ascending cs → Ascending (sink key cs)
unfolding sink
sink-Ascending key [] a = (tt, tt)
sink-Ascending key (c ∷ cs) a = elim (Bool-cases (ltb c.score key.score)) [
  | inl e ↦
      let less : c.score ≤ key.score = ground arith in
      rw e (All-sink _ key cs less a.0, sink-Ascending key cs a.1)
  | inr e ↦
      let less : key.score ≤ c.score = ground arith in
      rw e ((less, All-above cs key.score c.score less a.0), a)
]

sort_loop-Ascending :
    (cs done : List RollbackCandidate) → Ascending done → Ascending (sort_loop cs done)
unfolding sort_loop
sort_loop-Ascending [] done a = a
sort_loop-Ascending (c ∷ cs) done a = sort_loop-Ascending cs (sink c done) (sink-Ascending c done a)

-- No score of the second list is above one of the first.
abbrev Above : List RollbackCandidate → List RollbackCandidate → Type 0
Above [] out = Unit
Above (c ∷ cs) out = All (λ o. o.score ≤ c.score) out × Above cs out

Above-snoc :
    (cs out : List RollbackCandidate) (c : RollbackCandidate)
    → All (λ d. c.score ≤ d.score) cs
    → Above cs out
    → Above cs (c ∷ out)
Above-snoc [] out c a b = tt
Above-snoc (d ∷ cs) out c a b = ((a.0, b.0), Above-snoc cs out c a.1 b.1)

Above-nil : (cs : List RollbackCandidate) → Above cs []
Above-nil [] = tt
Above-nil (c ∷ cs) = (tt, Above-nil cs)

flip-Descending :
    (cs out : List RollbackCandidate)
    → Ascending cs
    → Descending out
    → Above cs out
    → Descending (flip cs out)
flip-Descending [] out a d b = d
flip-Descending (c ∷ cs) out a d b =
    flip-Descending cs (c ∷ out) a.1 (b.0, d) (Above-snoc cs out c a.0 b.1)

All-flip {ℓ} :
    (P : RollbackCandidate → Type ℓ) (cs out : List RollbackCandidate)
    → All P cs
    → All P out
    → All P (flip cs out)
All-flip P [] out a b = b
All-flip P (c ∷ cs) out a b = All-flip P cs (c ∷ out) a.1 (a.0, b)

All-sort_loop {ℓ} :
    (P : RollbackCandidate → Type ℓ) (cs done : List RollbackCandidate)
    → All P cs
    → All P done
    → All P (sort_loop cs done)
unfolding sort_loop
All-sort_loop P [] done a b = b
All-sort_loop P (c ∷ cs) done a b = All-sort_loop P cs (sink c done) a.1 (All-sink P c done a.0 b)

count_if-sink :
    (p : RollbackCandidate → Bool) (key : RollbackCandidate) (cs : List RollbackCandidate)
    → count_if p (sink key cs) ≡ count_if p (key ∷ cs)
unfolding sink
count_if-sink p key [] = refl
count_if-sink p key (c ∷ cs) = ground (arith, count_if-sink p key cs)

count_if-sort_loop :
    (p : RollbackCandidate → Bool) (cs done : List RollbackCandidate)
    → count_if p (sort_loop cs done) ≡ count_if p cs + count_if p done
unfolding sort_loop
count_if-sort_loop p [] done = omega arith
count_if-sort_loop p (c ∷ cs) done =
    omega (arith, count_if-sort_loop p cs (sink c done), count_if-sink p c done)

count_if-flip :
    (p : RollbackCandidate → Bool) (cs out : List RollbackCandidate)
    → count_if p (flip cs out) ≡ count_if p cs + count_if p out
count_if-flip p [] out = omega arith
count_if-flip p (c ∷ cs) out = omega (arith, count_if-flip p cs (c ∷ out))

-- The suggestions are sorted, the best score first, and are the nodes that were collected: any test
-- holds of as many suggestions as of collected nodes.
pub suggest_rollback-Descending :
    (now : ℕ) (ns : List DeploymentRecord)
    → Descending (suggest_rollback now ns)
      × ((p : RollbackCandidate → Bool)
          → count_if p (suggest_rollback now ns) ≡ count_if p (collect now ns))
unfolding suggest_rollback
suggest_rollback-Descending now ns =
    let sorted = sort_loop (collect now ns) [] in
    (
      flip-Descending sorted [] (sort_loop-Ascending (collect now ns) [] tt) tt (Above-nil sorted),
      λ p. omega (arith, count_if-flip p sorted [], count_if-sort_loop p (collect now ns) []),
    )

-- What a suggestion is at a given time.
abbrev pub IsSuggestion : ℕ → RollbackCandidate → Type 0
IsSuggestion now c =
    (is_active c.deployment ≡ false)
    × (50 ≤ c.score)
    × (c.score ≤ 100)
    × (c.score ≡ (score_deployment now c.deployment).0)

score_bound : (now : ℕ) (n : DeploymentRecord) → (score_deployment now n).0 ≤ 100
unfolding score_deployment
score_bound now n = ground arith

collect-All : (now : ℕ) (ns : List DeploymentRecord) → All (IsSuggestion now) (collect now ns)
unfolding collect
collect-All now [] = tt
collect-All now (n ∷ ns) = ground (arith, collect-All now ns, score_bound now n)

-- A suggestion is never the active deployment, and its score is between 50 and 100.
pub suggest_rollback-IsSuggestion :
    (now : ℕ) (ns : List DeploymentRecord) → All (IsSuggestion now) (suggest_rollback now ns)
unfolding suggest_rollback
suggest_rollback-IsSuggestion now ns =
    All-flip (IsSuggestion now) _ []
      (All-sort_loop (IsSuggestion now) (collect now ns) [] (collect-All now ns) tt) tt

length-count_if : (cs : List RollbackCandidate) → length cs ≡ count_if (λ c. true) cs
length-count_if [] = refl
length-count_if (c ∷ cs) = omega (arith, length-count_if cs)

length-collect :
    (now : ℕ) (ns : List DeploymentRecord)
    → length (collect now ns) ≡ count_if (is_candidate now) ns
unfolding collect
length-collect now [] = refl
length-collect now (n ∷ ns) = ground (arith, length-collect now ns)

-- The number of candidates that the status shows is the number of suggestions.
pub length-suggest_rollback :
    (now : ℕ) (ns : List DeploymentRecord)
    → length (suggest_rollback now ns) ≡ (graph_status now ns).rollback_candidates
unfolding graph_status
length-suggest_rollback now ns =
    length-count_if (suggest_rollback now ns)
    ∙ ((suggest_rollback-Descending now ns).1 (λ c. true)
        ∙ omega (arith, length-count_if (collect now ns), length-collect now ns))
