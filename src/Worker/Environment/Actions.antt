-- ===== src/Worker/Environment/Actions.antt =====
-- Actions: sequencing, exceptions, and the calls of the environment and of the tables.
use icloud_code_gateway.Base.{
  if◌then◌else◌, ℕ, ◌/◌, String, Option, [], ◌∷◌, ◌++◌, returned, raised,
}
use icloud_code_gateway.Errors.{Exception, Result}
use icloud_code_gateway.Batch.Rows.{JobStatus, JobError, JobView}
use icloud_code_gateway.Batch.Tables.{
  Jobs, ItemChange, get_batch_job, set_batch_job_status, update_batch_item,
}
use icloud_code_gateway.Aliases.Table.{Aliases}
use icloud_code_gateway.Worker.Environment.{Method, State, Environment, AuditOutcome}

module _ {S A : Type 0} where
  abbrev pub pure : A → Method S A
  pure a s = (returned a, s)

  abbrev pub raise : Exception → Method S A
  raise e s = (raised e, s)

module _ {S A B : Type 0} where
  abbrev pub continue : Result A → (A → Method S B) → Method S B
  continue (returned a) f s = f a s
  continue (raised e) f s = (raised e, s)

  infixl 5 ◌>>=◌ ◌>>◌
  unfoldable pub ◌>>=◌ : Method S A → (A → Method S B) → Method S B
  ◌>>=◌ m f s = continue (m s).0 f (m s).1

  abbrev pub ◌>>◌ : Method S A → Method S B → Method S B
  m >> k = m >>= λ _. k

module _ {S A : Type 0} where
  -- `try: … except …`: the handler goes on from the state that the exception left.
  abbrev pub handle_result : Result A → (Exception → Method S A) → Method S A
  handle_result (returned a) h s = (returned a, s)
  handle_result (raised e) h s = h e s

  unfoldable pub try_except : Method S A → (Exception → Method S A) → Method S A
  try_except m h s = handle_result (m s).0 h (m s).1

  unfoldable pub attempt : Method S A → Method S (Result A)
  attempt m s = (returned (m s).0, (m s).1)

abbrev pub Worker : Type 0 → Type 0 → Type 0
Worker W A = Method (State W) A

module _ {W : Type 0} where
  -- A call of the environment.
  unfoldable pub call : {A : Type 0} → (W → Result A × W) → Worker W A
  call f s = ((f s.world).0, record s { world = (f s.world).1 })

  unfoldable pub ask : {A : Type 0} → (W → A × W) → Worker W A
  ask f s = (returned (f s.world).0, record s { world = (f s.world).1 })

  unfoldable pub tell : (W → W) → Worker W (Unit {0})
  tell f s = (returned tt, record s { world = f s.world })

  abbrev pub put_jobs : State W → Result Jobs → Result (Unit {0}) × State W
  put_jobs s (returned jobs) = (returned tt, record s { jobs = jobs })
  put_jobs s (raised e) = (raised e, s)

  -- A transaction on the batch tables at the time of the call, in milliseconds.
  unfoldable pub on_jobs : Environment W → (ℕ → Jobs → Result Jobs) → Worker W (Unit {0})
  on_jobs env f s =
      let (now, w) = env.now s.world in put_jobs (record s { world = w }) (f (now / 1000) s.jobs)

  abbrev pub put_aliases : {A : Type 0} → State W → Result (A × Aliases) → Result A × State W
  put_aliases s (returned (a, aliases)) = (returned a, record s { aliases = aliases })
  put_aliases s (raised e) = (raised e, s)

  unfoldable pub on_aliases :
      {A : Type 0} → Environment W → (ℕ → Aliases → Result (A × Aliases)) → Worker W A
  on_aliases env f s =
      let (now, w) = env.now s.world in
      put_aliases (record s { world = w }) (f (now / 1000) s.aliases)

  unfoldable pub update_item : Environment W → String → ℕ → ItemChange → Worker W (Unit {0})
  update_item env job_id index c = on_jobs env (update_batch_item job_id index c)

  unfoldable pub set_status :
      Environment W → String → JobStatus → Option JobError → Worker W (Unit {0})
  set_status env job_id status error = on_jobs env (set_batch_job_status job_id status error)

  unfoldable pub read_job : String → Worker W JobView
  read_job job_id s = (get_batch_job job_id s.jobs, s)

  -- `record_audit_event("alias_create", …)`; its texts are literals that pass `_clean_text`.
  unfoldable pub record_audit : AuditOutcome → Option String → Worker W (Unit {0})
  record_audit outcome alias_id s = (
    returned tt,
    record s { audit = s.audit ++ record { outcome = outcome; alias_id = alias_id } ∷ [] },
  )

  -- `_raise_if_stopping`
  unfoldable pub raise_if_stopping : Environment W → Worker W (Unit {0})
  raise_if_stopping env =
      ask env.stopping >>= λ stop. if stop then raise Exception.gateway_stopping else pure tt
