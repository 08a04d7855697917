-- ===== src/Worker/Create/Outcome.antt =====
-- How the steps of `_create_alias` leave the item, for each outcome with which they may return.
use icloud_code_gateway.Base.{ℕ, String, ◌≡◌, refl, ◌∙◌, Bool, returned, raised}
use mathlib.Core.Path.{subst}
use icloud_code_gateway.Errors.{Exception, Result}
use icloud_code_gateway.Batch.Rows.{ItemView, RetryKind}
use icloud_code_gateway.Worker.Payloads.{Settings, candidate_item}
use icloud_code_gateway.Worker.Environment.{Environment, State}
use icloud_code_gateway.Worker.Environment.Actions.{Worker}
use icloud_code_gateway.Worker.Frame.{RunOutcome, Flow, Frame, Run}
use icloud_code_gateway.Worker.Create.Steps.{pause_or, on_result, use_suggestion, generate}
use icloud_code_gateway.Worker.Create.Reserve.{pause_retry}
use icloud_code_gateway.Worker.Create.Left.{
  Leaves, pause_for_transient_retry-Leaves, pause_for_capacity-Leaves, pause_for_rate_limit-Leaves,
}
use icloud_code_gateway.Worker.Create.Rules.{
  Kept, Flows, lift-Triple, lift-any, read-any, assign-any, with_frame-Triple, attempt-any,
  update-any,
}
use icloud_code_gateway.Worker.Triples.{
  Triple, Anything, Triple-last, Triple-first, Triple-if, Triple-pure, Triple-raise,
}

module _ {W : Type 0} (env : Environment W) (settings : Settings) (job_id : String)
    (index : ℕ) where
  abbrev pub At : RunOutcome → State W → Type 0
  At o = Leaves env settings job_id index o

  pub change_index :
      {A : Type 0} (o : RunOutcome) {m : Worker W A} (n : ℕ)
      → n ≡ index
      → Triple Anything Anything m (λ _. Leaves env settings job_id n o)
      → Triple Anything Anything m (λ _. At o)
  change_index o {m} n i h =
      subst (λ k. Triple Anything Anything m (λ _. Leaves env settings job_id k o)) i h

  pub pause_retry-Left :
      (candidate : String) (kind : RetryKind) (mark : Bool)
      → Triple
          (Kept index)
          Anything
          (pause_retry env settings job_id candidate kind mark)
          (λ _ f. At RunOutcome.retry f.state)
  unfolding pause_retry candidate_item
  pause_retry-Left candidate kind mark = with_frame-Triple index λ t i. lift-Triple index (
      change_index RunOutcome.retry t.item.index i
        (pause_for_transient_retry-Leaves env settings job_id _ kind mark))

  module _ {A : Type 0} (G : A → Frame W → Type 0) where
    pub pause_or-Flows :
        (parked : ItemView → ItemView) (otherwise : Exception → Run W (Flow A))
        → ((it : ItemView) → (parked it).index ≡ it.index)
        → ((e : Exception)
            → Triple (Kept index) Anything (otherwise e) (Flows env settings job_id index G))
        → (e : Exception)
        → Triple
            (Kept index)
            Anything
            (pause_or env settings job_id parked otherwise e)
            (Flows env settings job_id index G)
    unfolding pause_or
    pause_or-Flows parked otherwise keep h (Exception.hme_capacity code) =
        with_frame-Triple index λ t i.
          Triple-first (Kept index) (λ f. At RunOutcome.capacity f.state)
            (lift-Triple index (
              change_index RunOutcome.capacity t.item.index i
                (pause_for_capacity-Leaves env settings job_id t.item code)))
            λ _. Triple-pure (Kept index) (λ s p. p)
    pause_or-Flows parked otherwise keep h (Exception.hme_rate_limited code seconds) =
        with_frame-Triple index λ t i.
          Triple-first (Kept index) (λ f. At RunOutcome.rate_limited f.state)
            (lift-Triple index (
              change_index RunOutcome.rate_limited (parked t.item).index (keep t.item ∙ i)
                (pause_for_rate_limit-Leaves env settings job_id (parked t.item) code seconds)))
            λ _. Triple-pure (Kept index) (λ s p. p)
    pause_or-Flows parked otherwise keep h e = h e

    pub on_result-Flows :
        {B : Type 0} (next : B → Run W (Flow A)) (handler : Exception → Run W (Flow A))
        → ((b : B) → Triple (Kept index) Anything (next b) (Flows env settings job_id index G))
        → ((e : Exception)
            → Triple (Kept index) Anything (handler e) (Flows env settings job_id index G))
        → (r : Result B)
        → Triple
            (Kept index)
            Anything
            (on_result next handler r)
            (Flows env settings job_id index G)
    on_result-Flows next handler hn hh (returned b) = hn b
    on_result-Flows next handler hn hh (raised e) = hh e

  use_suggestion-Flows :
      (suggestion : String)
      → Triple
          (Kept index)
          Anything
          (use_suggestion env settings job_id suggestion)
          (Flows env settings job_id index (λ _ _. Unit {0}))
  unfolding use_suggestion
  use_suggestion-Flows suggestion = Triple-last (Kept index) (assign-any index _ (λ f i. i)) λ _.
      Triple-last (Kept index)
        (Triple-if (Kept index) _ (Triple-pure (Kept index) (λ s p. tt))
          (Triple-raise (Kept index)))
        λ _. Triple-last (Kept index) (update-any env settings job_id index _) λ _.
          Triple-last (Kept index) (assign-any index _ (λ f i. i))
            λ _. Triple-pure (Kept index) (λ s p. tt)

  pub generate-Flows :
      Triple
        (Kept index)
        Anything
        (generate env settings job_id)
        (Flows env settings job_id index (λ _ _. Unit {0}))
  unfolding generate
  generate-Flows = Triple-last (Kept index) (read-any index _) λ saved.
      Triple-last (Kept index) (assign-any index _ (λ f i. i)) λ _.
        Triple-if (Kept index) _
          (Triple-last (Kept index) (update-any env settings job_id index _) λ _.
            Triple-last (Kept index) (attempt-any index (lift-any index _)) λ suggestion.
              on_result-Flows (λ _ _. Unit {0}) _ _ use_suggestion-Flows
                (pause_or-Flows (λ _ _. Unit {0}) _ _ (λ it. refl) (λ e. Triple-raise (Kept index)))
                suggestion)
          (Triple-pure (Kept index) (λ s p. tt))
