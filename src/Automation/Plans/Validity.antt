-- ===== src/Automation/Plans/Validity.antt =====
-- The order that the validation of a plan establishes.
use memovi.Prelude.{
  ℕ, String, ◌≡◌, ◌∙◌, sym, refl, inl, inr, true, false, ◌+◌, ◌≤◌, Option, none, some, List, [],
  ◌∷◌, All, leb, str_eq, eq_refl, arith, Bool-cases,
}
use memovi.Automation.Values.{Outcome, returned, raised}
use memovi.Automation.Store.{Capability}
use memovi.Automation.Plans.{
  ExecutionStep, ExecutionPlan, contains, position, then_check, check_known, check_dependencies,
  validate_step_ids, validate_dependency_graph, validate_steps, validate_plan,
}

-- Each step depends only on steps before it, those of `earlier` included.
abbrev pub IsOrdered : List String → List ExecutionStep → Type 0
IsOrdered earlier [] = Unit
IsOrdered earlier (step ∷ steps) =
    All (λ d. contains d earlier ≡ true) step.dependencies
    × IsOrdered (step.step_id ∷ earlier) steps

position_ge :
    (n : ℕ) (id : String) (steps : List ExecutionStep) {k : ℕ}
    → position n id steps ≡ some k
    → n ≤ k
unfolding position
position_ge n id [] h = cc
position_ge n id (step ∷ steps) {k} h = elim (Bool-cases (str_eq step.step_id id)) [
  | inl e ↦ ground (arith, rw e at h)
  | inr e ↦ ground (arith, position_ge (n + 1) id steps (rw e at h))
]

then_check-returned :
    (a b : Outcome (Unit {0}))
    → then_check a b ≡ returned tt
    → (a ≡ returned tt) × (b ≡ returned tt)
then_check-returned (returned done) b h = (refl, h)
then_check-returned (raised e) b h = cc

module _ (plan : List ExecutionStep) where
  -- What is known at the step of position `n`, with the identifiers before it: where an identifier that
  -- is not among them stands, and that a position before `n` is one of theirs.
  abbrev Facts : ℕ → List String → List ExecutionStep → Type 0
  Facts n earlier steps =
      ((id : String) → contains id earlier ≡ false → position 0 id plan ≡ position n id steps)
      × ((id : String) (k : ℕ)
          → position 0 id plan ≡ some k
          → leb n k ≡ false
          → contains id earlier ≡ true)

  Facts-next :
      (n : ℕ) (earlier : List String) (step : ExecutionStep) (steps : List ExecutionStep)
      → Facts n earlier (step ∷ steps)
      → Facts (n + 1) (step.step_id ∷ earlier) steps
  unfolding position
  Facts-next n earlier step steps (stands, is_earlier) = (
    λ id fresh. elim (Bool-cases (str_eq step.step_id id)) [
      | inl e ↦ absurd (ground (arith, e, fresh))
      | inr e ↦ stands id (rw e at fresh) ∙ rw e refl
    ],
    λ id k at_k before. elim (Bool-cases (str_eq step.step_id id)) [
      | inl e ↦ rw e refl
      | inr e ↦ rw e (elim (Bool-cases (contains id earlier)) [
        | inl c ↦ c
        | inr fresh ↦
            let there : position 0 id plan ≡ position (n + 1) id steps =
              stands id fresh ∙ rw e refl in
            absurd (ground (arith, before, position_ge (n + 1) id steps (sym there ∙ at_k)))
      ])
    ],
  )

  dependency_earlier :
      (n : ℕ) (step d : String) (stands : Option ℕ)
      → position 0 step plan ≡ some n
      → check_known plan step d stands ≡ returned tt
      → (k : ℕ) × (stands ≡ some k) × (leb n k ≡ false)
  dependency_earlier n step d none at_n h = cc
  dependency_earlier n step d (some k) at_n h = elim (Bool-cases (str_eq d step)) [
    | inl e ↦ cc (rw e at h)
    | inr e ↦ elim (Bool-cases (leb n k)) [
      | inl b ↦ cc (rw (e, at_n, b) at h)
      | inr b ↦ (k, refl, b)
    ]
  ]

  dependencies_earlier :
      (n : ℕ) (earlier : List String) (step : String) (dependencies : List String)
      → position 0 step plan ≡ some n
      → ((id : String) (k : ℕ)
          → position 0 id plan ≡ some k
          → leb n k ≡ false
          → contains id earlier ≡ true)
      → check_dependencies plan step dependencies ≡ returned tt
      → All (λ d. contains d earlier ≡ true) dependencies
  unfolding check_dependencies
  dependencies_earlier n earlier step [] at_n is_earlier h = tt
  dependencies_earlier n earlier step (d ∷ dependencies) at_n is_earlier h =
      let (known, rest) =
        then_check-returned (check_known plan step d (position 0 d plan))
          (check_dependencies plan step dependencies) h in
      let (k, stands, before) = dependency_earlier n step d (position 0 d plan) at_n known in
      (
        is_earlier d k stands before,
        dependencies_earlier n earlier step dependencies at_n is_earlier rest,
      )

  graph-IsOrdered :
      (n : ℕ) (earlier : List String) (steps : List ExecutionStep)
      → Facts n earlier steps
      → validate_step_ids earlier steps ≡ returned tt
      → validate_dependency_graph plan steps ≡ returned tt
      → IsOrdered earlier steps
  unfolding validate_step_ids validate_dependency_graph position
  graph-IsOrdered n earlier [] facts ids graph = tt
  graph-IsOrdered n earlier (step ∷ steps) facts ids graph =
      elim (Bool-cases (contains step.step_id earlier)) [
        | inl twice ↦ cc (rw twice at ids)
        | inr fresh ↦
            let (dependencies, rest) =
              then_check-returned (check_dependencies plan step.step_id step.dependencies)
                (validate_dependency_graph plan steps) graph in
            let at_n = facts.0 step.step_id fresh ∙ rw (eq_refl step.step_id) refl in
            (
              dependencies_earlier n earlier step.step_id step.dependencies at_n facts.1
                  dependencies,
              graph-IsOrdered (n + 1) (step.step_id ∷ earlier) steps
                  (Facts-next n earlier step steps facts) (rw fresh at ids) rest,
            )
      ]

-- In a plan that the validation accepts, every step depends only on steps that stand before it.
pub validate_plan-IsOrdered :
    (registry : List (String × Capability)) (plan : ExecutionPlan)
    → validate_plan registry plan ≡ returned tt
    → IsOrdered [] plan.steps
unfolding validate_plan
validate_plan-IsOrdered registry plan h =
    let (ids, rest) =
      then_check-returned (validate_step_ids [] plan.steps)
        (then_check (validate_dependency_graph plan.steps plan.steps)
          (validate_steps registry plan.steps))
        h in
    let (graph, steps) =
      then_check-returned (validate_dependency_graph plan.steps plan.steps)
        (validate_steps registry plan.steps) rest in
    graph-IsOrdered plan.steps 0 [] plan.steps
      ((λ id fresh. refl), (λ id k at_k before. absurd (ground (arith, before)))) ids graph
