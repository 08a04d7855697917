-- ===== src/Service/Gate/Examples.antt =====
-- A list that is begun, and a write that only takes its lock before the list is committed.
use icloud_code_gateway.Base.{◌≡◌, refl, false}
use icloud_code_gateway.Service.Gate.{
  Gate, acquire_write, activate_write, begin_remote_write, finish_remote_write,
  begin_alias_snapshot, may_commit,
}
use icloud_code_gateway.Service.Gate.Overlaps.{
  Run, here, next, acquired, IsQuiet, may_commit-IsQuiet,
}

abbrev idle : Gate
idle = record {
  stop = false;
  write_lock = false;
  remote_write_active = false;
  alias_generation = 4;
}

abbrev run : Run idle (acquire_write idle).1
run = next here acquired

may_commit-IsQuiet_example : IsQuiet run
unfolding begin_alias_snapshot may_commit acquire_write
may_commit-IsQuiet_example = may_commit-IsQuiet run 4 refl refl

-- A write between the two steps of the list makes it stale.
stale : may_commit false 4 (finish_remote_write (begin_remote_write idle).1) ≡ false
unfolding may_commit finish_remote_write begin_remote_write activate_write acquire_write
stale = refl
