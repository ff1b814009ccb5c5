-- ===== src/Common/Instrumentation.antt =====
-- The test instrumentation of src/lmc_common.c, which crashes the process or lets an allocation fail
-- now and then. `r` is what `rand` returns; what is printed is left out.
use localmemcache.Base.{ℕ, Bool, if◌then◌else◌, bit_and, ◌==◌, not}
use localmemcache.Cmd.{Cmd, pure, stop, null_pointer}
use localmemcache.Valloc.{lmc_valloc}

unfoldable lmc_test_crash : (lmc_test_crash_enabled : Bool) (r : ℕ) → Cmd (Unit {0})
lmc_test_crash lmc_test_crash_enabled r =
    if not lmc_test_crash_enabled
    then pure tt
    else if bit_and r 63 == 0
    then stop null_pointer
    else pure tt

unfoldable lmc_test_valloc_fail : (r s : ℕ) → Cmd ℕ
lmc_test_valloc_fail r s = if bit_and r 255 == 0 then pure 0 else lmc_valloc s
