-- ===== src/Service/Gate/Overlaps.antt =====
-- A list of Apple's and a remote write, in every interleaving of their steps.
use icloud_code_gateway.Base.{ℕ, ◌≤◌, ◌≡◌, refl, true, false, returned, arith}
use icloud_code_gateway.Service.Gate.{
  Gate, acquire_write, activate_write, deactivate_write, release_write, bump, begin_alias_snapshot,
  may_commit,
}

-- A step of any thread; a list that is committed changes the gate as `bump` does.
pub data Step (g : Gate) : Gate → Type 0 where
  stopped : Step g (record g { stop = true })
  acquired : Step g (acquire_write g).1
  activated : Step g (activate_write g).1
  deactivated : Step g (deactivate_write g)
  released : Step g (release_write g)
  bumped : Step g (bump g)

pub data Run (g : Gate) : Gate → Type 0 where
  here : Run g g
  next : {h k : Gate} → Run g h → Step h k → Run g k

-- No remote write is active at any point of the run.
abbrev pub IsQuiet : {g h : Gate} → Run g h → Type 0
IsQuiet {g} here = g.remote_write_active ≡ false
IsQuiet (next {h} {k} r s) = IsQuiet r × (k.remote_write_active ≡ false)

Step-generation : {g h : Gate} → Step g h → g.alias_generation ≤ h.alias_generation
unfolding acquire_write activate_write deactivate_write release_write bump
Step-generation stopped = omega arith
Step-generation acquired = ground arith
Step-generation activated = ground arith
Step-generation deactivated = omega arith
Step-generation released = omega arith
Step-generation bumped = omega arith

Step-inactive :
    {g h : Gate}
    → Step g h
    → h.alias_generation ≡ g.alias_generation
    → g.remote_write_active ≡ false
    → h.remote_write_active ≡ false
unfolding acquire_write activate_write deactivate_write release_write bump
Step-inactive stopped e q = q
Step-inactive acquired e q = ground arith
Step-inactive activated e q = ground arith
Step-inactive deactivated e q = refl
Step-inactive released e q = q
Step-inactive bumped e q = q

Run-generation : {g h : Gate} → Run g h → g.alias_generation ≤ h.alias_generation
Run-generation here = omega arith
Run-generation (next r s) = omega (arith, Run-generation r, Step-generation s)

Run-IsQuiet :
    {g h : Gate} (r : Run g h)
    → h.alias_generation ≡ g.alias_generation
    → g.remote_write_active ≡ false
    → IsQuiet r × (h.remote_write_active ≡ false)
Run-IsQuiet here e q = (q, q)
Run-IsQuiet {g} (next {h} {k} r s) e q =
    let before = Run-generation r in
    let after = Step-generation s in
    let quiet = Run-IsQuiet r (omega arith) q in
    let now = Step-inactive s (omega arith) quiet.1 in ((quiet.0, now), now)

-- If a list that was begun while no remote write was active may still be committed, whatever the other
-- threads have done in between, then no remote write has been active at any point between the two: a
-- list that may show a half-done write never reaches the table.
pub may_commit-IsQuiet :
    {g h : Gate} (r : Run g h) (generation : ℕ)
    → begin_alias_snapshot false g ≡ returned generation
    → may_commit false generation h ≡ true
    → IsQuiet r
unfolding begin_alias_snapshot may_commit
may_commit-IsQuiet {g} {h} r generation begun may =
    let inactive : g.remote_write_active ≡ false = ground arith in
    let same : h.alias_generation ≡ g.alias_generation = ground arith in
    (Run-IsQuiet r same inactive).0
