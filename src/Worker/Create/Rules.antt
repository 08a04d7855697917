-- ===== src/Worker/Create/Rules.antt =====
-- The rules for the parts of `_create_alias`: the item of the run keeps its index.
use icloud_code_gateway.Base.{ℕ, String, ◌≡◌, returned, raised}
use icloud_code_gateway.Errors.{Result}
use icloud_code_gateway.Batch.Tables.{Jobs, ItemChange}
use icloud_code_gateway.Worker.Create.Calls.{tell-Triple}
use icloud_code_gateway.Worker.Payloads.{Settings}
use icloud_code_gateway.Worker.Environment.{Environment, State}
use icloud_code_gateway.Worker.Environment.Actions.{Worker, attempt}
use icloud_code_gateway.Worker.Frame.{
  RunOutcome, Flow, leave, go, Frame, Run, lift, read, assign, with_frame, and_then, continue_flow,
}
use icloud_code_gateway.Worker.Create.Steps.{update, close_client, open_session}
use icloud_code_gateway.Worker.Create.Left.{Leaves}
use icloud_code_gateway.Worker.Triples.{
  Triple-first, Upon, Triple, Anything, AnyResult, Triple->>=, Triple-if, Triple-pure, Triple-raise,
  Triple-any,
}

abbrev pub Kept : {W : Type 0} → ℕ → Frame W → Type 0
Kept index f = f.item.index ≡ index

module _ {W : Type 0} (index : ℕ) where
  pub lift-Triple :
      {A : Type 0} {P : State W → Type 0} {Q : A → State W → Type 0} {m : Worker W A}
      → Triple Anything P m Q
      → Triple (Kept index) (λ f. P f.state) (lift m) (λ a f. Q a f.state)
  unfolding lift
  lift-Triple {A = A} {Q = Q} {m = m} h = record {
    run = λ f i p.
        (i, by_result (record f { state = (m f.state).1 }) (m f.state).0 (h.run f.state tt p).1);
  }
    where
      by_result : (f : Frame W) (r : Result A) → Upon Q r f.state → Upon (λ a f. Q a f.state) r f
      by_result f (returned a) q = q
      by_result f (raised e) q = tt

  pub lift-any :
      {A : Type 0} {P : Frame W → Type 0} (m : Worker W A)
      → Triple (Kept index) P (lift m) AnyResult
  unfolding lift
  lift-any m = Triple-any (Kept index) (λ f i. i)

  pub read-any :
      {A : Type 0} {P : Frame W → Type 0} (g : Frame W → A)
      → Triple (Kept index) P (read g) AnyResult
  unfolding read
  read-any g = Triple-any (Kept index) (λ f i. i)

  pub assign-any :
      {P : Frame W → Type 0} (g : Frame W → Frame W)
      → ((f : Frame W) → Kept index f → Kept index (g f))
      → Triple (Kept index) P (assign g) AnyResult
  unfolding assign
  assign-any g h = Triple-any (Kept index) h

  pub read-Triple :
      {A : Type 0} {P : Frame W → Type 0} (g : Frame W → A)
      → Triple (Kept index) P (read g) (λ _. P)
  unfolding read
  read-Triple g = record { run = λ f i p. (i, p) }

  pub with_frame-Triple :
      {A : Type 0} {P : Frame W → Type 0} {Q : A → Frame W → Type 0} {g : Frame W → Run W A}
      → ((t : Frame W) → Kept index t → Triple (Kept index) P (g t) Q)
      → Triple (Kept index) P (with_frame g) Q
  unfolding with_frame
  with_frame-Triple h = record { run = λ f i p. (h f i).run f i p }

  pub attempt-any :
      {A : Type 0} {P : Frame W → Type 0} {m : Run W A}
      → Triple (Kept index) P m AnyResult
      → Triple (Kept index) P (attempt m) AnyResult
  unfolding attempt
  attempt-any h = record { run = λ f i p. ((h.run f i p).0, tt) }

module _ {W : Type 0} (env : Environment W) (settings : Settings) (job_id : String)
    (index : ℕ) where
  -- The item is left the way that the outcome says; nothing is said of a failed one.
  abbrev pub Left : RunOutcome → Frame W → Type 0
  Left RunOutcome.failed f = Unit
  Left RunOutcome.ok f = Leaves env settings job_id index RunOutcome.ok f.state
  Left RunOutcome.capacity f = Leaves env settings job_id index RunOutcome.capacity f.state
  Left RunOutcome.rate_limited f = Leaves env settings job_id index RunOutcome.rate_limited f.state
  Left RunOutcome.retry f = Leaves env settings job_id index RunOutcome.retry f.state
  Left RunOutcome.stopped f = Leaves env settings job_id index RunOutcome.stopped f.state
  Left RunOutcome.unknown f = Leaves env settings job_id index RunOutcome.unknown f.state

  -- The method has returned and the item is left so, or it goes on with what `G` says.
  abbrev pub Flows : {A : Type 0} → (A → Frame W → Type 0) → Flow A → Frame W → Type 0
  Flows G (leave o) f = Left o f
  Flows G (go a) f = G a f

  pub and_then-Triple :
      {A B : Type 0} {P : Frame W → Type 0} (G : A → Frame W → Type 0) {H : B → Frame W → Type 0}
      {m : Run W (Flow A)} {k : A → Run W (Flow B)}
      → Triple (Kept index) P m (Flows G)
      → ((a : A) → Triple (Kept index) (G a) (k a) (Flows H))
      → Triple (Kept index) P (and_then m k) (Flows H)
  unfolding and_then
  and_then-Triple {A = A} G {H} {k = k} hm hk = Triple->>= (Kept index) (Flows G) hm by_flow
    where
      by_flow : (x : Flow A) → Triple (Kept index) (Flows G x) (continue_flow k x) (Flows H)
      by_flow (leave o) = Triple-pure (Kept index) (λ s p. p)
      by_flow (go a) = hk a

  pub update-any :
      {P : Frame W → Type 0} (c : ItemChange)
      → Triple (Kept index) P (update env settings job_id c) AnyResult
  update-any c = with_frame-Triple index (λ t i. lift-any index _)

  pub close_client-any :
      {P : Frame W → Type 0} → Triple (Kept index) P (close_client env settings job_id) AnyResult
  unfolding close_client
  close_client-any =
      Triple->>= (Kept index) AnyResult (lift-any index _) λ _. assign-any index _ (λ f i. i)

  -- Closing a client leaves the tables as they are.
  pub close_client-keeps :
      (Q : Jobs → Type 0)
      → Triple
          (Kept index)
          (λ f. Q f.state.jobs)
          (close_client env settings job_id)
          (λ _ f. Q f.state.jobs)
  unfolding close_client assign
  close_client-keeps Q =
      Triple-first (Kept index) (λ f. Q f.state.jobs) (lift-Triple index (tell-Triple Q _))
        λ _. record { run = λ f i p. (i, p) }

  pub open_session-any :
      {P : Frame W → Type 0} → Triple (Kept index) P (open_session env settings job_id) AnyResult
  unfolding open_session
  open_session-any = Triple->>= (Kept index) AnyResult (lift-any index _) λ configured.
      Triple->>= (Kept index) AnyResult
        (Triple-if (Kept index) configured (Triple-pure (Kept index) (λ s p. tt))
          (Triple-raise (Kept index)))
        λ _. Triple->>= (Kept index) AnyResult (lift-any index _) λ _. assign-any index _ (λ f i. i)
