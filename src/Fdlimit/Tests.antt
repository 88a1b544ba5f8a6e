-- ===== src/Fdlimit/Tests.antt =====
-- A kernel that allows up to 4096 descriptors.
use ghostunnel.Prelude.{◌≡◌, refl, leb, if◌then◌else◌, Text, codes, Result, ok, err}
use ghostunnel.Flags.Validate.{negsuc}
use ghostunnel.Fdlimit.{Rlimit, to_int, raise_unix, current_unix}

abbrev set : Rlimit → Result Text Rlimit
set l = if leb l.max 4096 then ok l else err (codes "operation not permitted")

raised : raise_unix set 1024 ≡ ok (record { cur = 1024; max = 1024 })
unfolding raise_unix
raised = refl

refused : raise_unix set 8192 ≡ err (codes "operation not permitted")
unfolding raise_unix
refused = refl

-- No limit at all is the largest number of 64 bits, which is -1 as an `int`.
unlimited :
    current_unix (ok (record { cur = 0xffffffffffffffff; max = 0xffffffffffffffff }))
    ≡ ok (negsuc 0)
unfolding current_unix to_int
unlimited = refl
