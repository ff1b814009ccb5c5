-- ===== src/Tests/Bitmap.antt =====
-- Marks in a bitmap in which nothing is marked.
use localmemcache.Base.{◌==◌, ◌≡◌, arith, refl, if◌then◌else◌, true}
use localmemcache.Cmd.Ends.{Ends}
use localmemcache.Memory.{Mem, set_word, load}
use localmemcache.Valloc.Usage.{lmc_um_getbit, lmc_um_setbit, lmc_um_mark, lmc_um_check_unmarked}
use localmemcache.Valloc.Usage.Bits.{lmc_um_getbit-setbit}
use localmemcache.Valloc.Usage.Mark.{Marks, lmc_um_mark-Marks}

abbrev empty : Mem
empty _ = 0

abbrev memory : Mem
memory = set_word empty 16 4008

lmc_um_getbit-setbit_example :
    lmc_um_getbit (lmc_um_setbit empty 13 true) 13
    ≡ (if 13 == 13 then true else lmc_um_getbit empty 13)
lmc_um_getbit-setbit_example = lmc_um_getbit-setbit empty 13 13 true (λ a. omega arith)

lmc_um_mark-Marks_example : Ends (Marks memory empty 88 200) (lmc_um_mark empty 88 200 memory)
lmc_um_mark-Marks_example =
    lmc_um_mark-Marks memory empty 88 200 (λ a. omega arith) refl (omega arith) (omega arith)

-- A range that does not start at a byte of the bitmap: bit 64 is overlooked.
overlooked : lmc_um_check_unmarked (lmc_um_setbit empty 64 true) 1 99 ≡ true
unfolding lmc_um_check_unmarked lmc_um_setbit load
overlooked = refl
