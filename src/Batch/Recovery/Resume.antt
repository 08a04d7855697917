-- ===== src/Batch/Recovery/Resume.antt =====
-- What `resume_reconcilable_create_job` promises: all of a stopped job's unknown items, or none.
use icloud_code_gateway.Base.{
  ℕ, String, ◌≡◌, refl, Bool, false, not, ◌&&◌, ◌||◌, none, some, List, [], ◌∷◌, map, any, all,
  returned, raised, arith, if◌then◌else◌,
}
use icloud_code_gateway.Errors.{Result}
use icloud_code_gateway.Errors
use icloud_code_gateway.Batch.Rows.{sealed, damaged, Stage, ItemStatus, JobStatus, Item, Job}
use icloud_code_gateway.Batch.Tables.{is_unknown, refresh_counts}
use icloud_code_gateway.Batch.Recovery.{
  must_reconcile, has_candidate, resume_item, resume_items, is_stopped_create, resume_job,
}

module _ (casefold : String → String) where
  -- The item may be resumed: it is not unknown, or it has a readable candidate.
  abbrev pub is_resumable : Item → Bool
  is_resumable it = not (is_unknown it) || elim it.result [
    | none ↦ false
    | some damaged ↦ false
    | some (sealed p) ↦ has_candidate casefold p
  ]

  -- The item back in the queue, to be looked up before its candidate is reserved again.
  abbrev pub reconciling : ℕ → Item → Item
  reconciling now it = elim it.result [
    | none ↦ it
    | some damaged ↦ it
    | some (sealed p) ↦ record it {
      status = ItemStatus.queued;
      stage = Stage.reconciling;
      result = some (sealed (must_reconcile p));
      error = none;
      updated_at = now;
    }
  ]

  abbrev pub resumed : ℕ → Item → Item
  resumed now it = if is_unknown it then reconciling now it else it

  resume_item-eq :
      (now : ℕ) (it : Item)
      → resume_item casefold now it
        ≡ (if is_resumable it then returned (resumed now it) else raised Errors.conflict)
  unfolding resume_item
  resume_item-eq now it = ground arith

  resume_items-eq :
      (now : ℕ) (its : List Item)
      → resume_items casefold now its ≡ (
          if all is_resumable its then returned (map (resumed now) its) else raised Errors.conflict)
  unfolding resume_items
  resume_items-eq now [] = refl
  resume_items-eq now (it ∷ its) = ground (arith, resume_item-eq now it, resume_items-eq now its)

  -- A stopped job is resumed exactly if it creates aliases, waits for reconciliation, has an unknown
  -- item, and every unknown item has a readable candidate. Then all its unknown items, and no others,
  -- go back to the queue, marked so that their candidates are looked up before another reserve, and the
  -- job is queued without an error. In every other case the call raises a conflict.
  pub resume_job-eq :
      (now : ℕ) (j : Job)
      → resume_job casefold now j ≡ (
          if is_stopped_create j && any is_unknown j.items && all is_resumable j.items
          then returned (
              refresh_counts now (record j {
                items = map (resumed now) j.items;
                status = JobStatus.queued;
                error = none;
              }))
          else raised Errors.conflict)
  unfolding resume_job
  resume_job-eq now j = ground (arith, resume_items-eq now j.items)
