-- ===== src/Automation/Durable/Reads.antt =====
-- What each of the two stores reads after a call.
use memovi.Prelude.{
  ℕ, String, ◌≡◌, refl, ◌∙◌, ◌≢◌, inl, inr, false, Option, none, some, [], ◌∷◌, str_eq, eq_refl,
  if◌then◌else◌, text-cases, Bool-cases, map,
}
use memovi.Prelude.Maps.{lookup-insert, lookup-erase, Option_map, lookup-map_values}
use memovi.Prelude.Table.{get, modify, get-modify_ne, get-modify_self}
use memovi.Prelude.Rows.{get-append_ne, get-append_self}
use memovi.Automation.Values.{
  executing, pending_approval, same_status, CapabilityExecutionRequest,
  AuthenticatedExecutionContext, CapabilityExecutionResult,
}
use memovi.Automation.Store
use memovi.Automation.Store.{State, interrupted_to_failed}
use memovi.Automation.Durable
use memovi.Automation.Durable.{
  Table, CapabilityExecutionRecord, execution_key, new_record, overwrite, put_result, attach,
  detach, put_pending, interrupted_row,
}
use memovi.Automation.Durable.Runs.{kept_table}

pub ne_false : (s t : String) → s ≢ t → str_eq s t ≡ false
ne_false s t h = elim (text-cases s t) [ inl (b, e) ↦ absurd (h e) | inr (b, _) ↦ b ]

-- The store in memory.
module _ (r : CapabilityExecutionResult) (s : State) where
  pub saved_result : Store.get_result r.execution_id (Store.save_result r s) ≡ some r
  unfolding Store.get_result Store.save_result
  saved_result =
      lookup-insert r.execution_id r.execution_id r s.results ∙ (rw (eq_refl r.execution_id) refl)

  pub saved_pending :
      Store.get_pending r.execution_id (Store.save_result r s)
      ≡ (if same_status r.status pending_approval then Store.get_pending r.execution_id s else none)
  unfolding Store.get_pending Store.save_result
  saved_pending = elim (Bool-cases (same_status r.status pending_approval)) [
    | inl e ↦ rw e refl
    | inr e ↦
        rw e (
          lookup-erase r.execution_id r.execution_id s.pending ∙ (rw (eq_refl r.execution_id) refl))
  ]

  pub saved_elsewhere :
      (id : String)
      → r.execution_id ≢ id
      → (Store.get_result id (Store.save_result r s) ≡ Store.get_result id s)
        × (Store.get_pending id (Store.save_result r s) ≡ Store.get_pending id s)
  unfolding Store.get_result Store.get_pending Store.save_result
  saved_elsewhere id h =
      let apart = ne_false r.execution_id id h in
      (
        lookup-insert id r.execution_id r s.results ∙ (rw apart refl),
        elim (Bool-cases (same_status r.status pending_approval)) [
          | inl e ↦ rw e refl
          | inr e ↦ rw e (lookup-erase id r.execution_id s.pending ∙ (rw apart refl))
        ],
      )

pub suspended_pending :
    (id : String) (request : CapabilityExecutionRequest) (auth : AuthenticatedExecutionContext)
    (s : State)
    → Store.get_pending id (Store.save_pending request auth s)
      ≡ (if str_eq request.id id then some (request, auth) else Store.get_pending id s)
unfolding Store.get_pending Store.save_pending
suspended_pending id request auth s = lookup-insert id request.id (request, auth) s.pending

pub suspended_result :
    (id : String) (request : CapabilityExecutionRequest) (auth : AuthenticatedExecutionContext)
    (s : State)
    → Store.get_result id (Store.save_pending request auth s) ≡ Store.get_result id s
unfolding Store.get_result Store.save_pending
suspended_result id request auth s = refl

pub cleared_pending :
    (id other : String) (s : State)
    → (Store.get_pending id (Store.clear_pending other s)
        ≡ (if str_eq other id then none else Store.get_pending id s))
      × (Store.get_result id (Store.clear_pending other s) ≡ Store.get_result id s)
unfolding Store.get_pending Store.clear_pending Store.get_result
cleared_pending id other s = (lookup-erase id other s.pending, refl)

pub recovered_result :
    (id : String) (now : ℕ) (reason : String) (s : State)
    → (Store.get_result id (Store.fail_interrupted_executions now reason s).1
        ≡ Option_map (interrupted_to_failed now reason) (Store.get_result id s))
      × (Store.get_pending id (Store.fail_interrupted_executions now reason s).1
          ≡ Store.get_pending id s)
unfolding Store.get_result Store.get_pending Store.fail_interrupted_executions
recovered_result id now reason s =
    (lookup-map_values (interrupted_to_failed now reason) id s.results, refl)

-- The rows of the table.
pub put_elsewhere :
    (id : String) (r : CapabilityExecutionResult) (rows : Table)
    → r.execution_id ≢ id
    → get execution_key id (Durable.save_result r rows) ≡ get execution_key id rows
unfolding Durable.save_result
put_elsewhere id r rows h = put (get execution_key r.execution_id rows)
  where
    put :
        (found : Option CapabilityExecutionRecord)
        → get execution_key id (put_result r rows found) ≡ get execution_key id rows
    put none = get-append_ne execution_key id rows (new_record r) h
    put (some row) = get-modify_ne execution_key (overwrite r) (λ x. refl) r.execution_id id rows h

pub put_new :
    (r : CapabilityExecutionResult) (rows : Table)
    → get execution_key r.execution_id rows ≡ none
    → get execution_key r.execution_id (Durable.save_result r rows) ≡ some (new_record r)
unfolding Durable.save_result
put_new r rows h = rw h (get-append_self execution_key rows (new_record r) h)

pub put_over :
    (r : CapabilityExecutionResult) (rows : Table) {row : CapabilityExecutionRecord}
    → get execution_key r.execution_id rows ≡ some row
    → get execution_key r.execution_id (Durable.save_result r rows) ≡ some (overwrite r row)
unfolding Durable.save_result
put_over r rows h =
    rw h (get-modify_self execution_key (overwrite r) (λ x. refl) r.execution_id rows h)

pub attached :
    (now : ℕ) (request : CapabilityExecutionRequest) (auth : AuthenticatedExecutionContext)
    (rows : Table) {row : CapabilityExecutionRecord}
    → get execution_key request.id rows ≡ some row
    → get execution_key request.id (kept_table rows (Durable.save_pending now request auth rows))
      ≡ some (attach now request auth row)
unfolding Durable.save_pending
attached now request auth rows h =
    rw h (get-modify_self execution_key (attach now request auth) (λ x. refl) request.id rows h)

pub attached_elsewhere :
    (id : String) (now : ℕ) (request : CapabilityExecutionRequest)
    (auth : AuthenticatedExecutionContext) (rows : Table)
    → request.id ≢ id
    → get execution_key id (kept_table rows (Durable.save_pending now request auth rows))
      ≡ get execution_key id rows
unfolding Durable.save_pending
attached_elsewhere id now request auth rows h = put (get execution_key request.id rows)
  where
    put :
        (found : Option CapabilityExecutionRecord)
        → get execution_key id (kept_table rows (put_pending now request auth rows found))
          ≡ get execution_key id rows
    put none = refl
    put (some row) =
        get-modify_ne execution_key (attach now request auth) (λ x. refl) request.id id rows h

interrupted_key :
    (now : ℕ) (reason : String) (row : CapabilityExecutionRecord)
    → execution_key (interrupted_row now reason row) ≡ execution_key row
interrupted_key now reason row = elim (Bool-cases (same_status row.status executing)) [
  | inl e ↦ rw e refl
  | inr e ↦ rw e refl
]

pub interrupted_rows :
    (id : String) (now : ℕ) (reason : String) (rows : Table)
    → get execution_key id (map (interrupted_row now reason) rows)
      ≡ Option_map (interrupted_row now reason) (get execution_key id rows)
unfolding get
interrupted_rows id now reason [] = refl
interrupted_rows id now reason (row ∷ rows) =
    rw (interrupted_key now reason row) (elim (Bool-cases (str_eq (execution_key row) id)) [
      | inl e ↦ rw e refl
      | inr e ↦ rw e (interrupted_rows id now reason rows)
    ])

pub cleared_rows :
    (now : ℕ) (id : String) (rows : Table)
    → get execution_key id (Durable.clear_pending now id rows)
      ≡ Option_map (detach now) (get execution_key id rows)
unfolding Durable.clear_pending get modify
cleared_rows now id [] = refl
cleared_rows now id (row ∷ rows) = elim (Bool-cases (str_eq row.execution_id id)) [
  | inl e ↦ rw (e, e) refl
  | inr e ↦ rw (e, e) (cleared_rows now id rows)
]

pub cleared_elsewhere :
    (id : String) (now : ℕ) (other : String) (rows : Table)
    → other ≢ id
    → get execution_key id (Durable.clear_pending now other rows) ≡ get execution_key id rows
unfolding Durable.clear_pending
cleared_elsewhere id now other rows h =
    get-modify_ne execution_key (detach now) (λ x. refl) other id rows h
