-- ===== src/ComName/Apart.antt =====
-- The two boards do not claim the same port.
use systemes3recomp.Prelude.{ℕ, ◌≡◌, ◌≢◌, true, false, Bytes, arith}
use systemes3recomp.ComName.{Wanted, unset, port, negative, is_wanted, claims}

-- The number of the port that a board waits for.
abbrev pub number : ℕ → Wanted → ℕ
number default unset = default
number default (port m) = m
number default (negative m) = default

-- As long as the variables, where they are set, leave the two boards at different numbers, no name of
-- a port is claimed by both: what the I/O board opens, the card reader does not.
pub claims_apart :
    (v w : Wanted) (name : Bytes)
    → number 1 v ≢ number 4 w
    → claims 1 v name ≡ true
    → claims 4 w name ≡ false
unfolding claims is_wanted
claims_apart unset unset name ne h = ground arith
claims_apart unset (port b) name ne h = ground arith
claims_apart (port a) unset name ne h = ground arith
claims_apart (port a) (port b) name ne h = ground arith
claims_apart v (negative b) name ne h = ground arith
claims_apart (negative a) w name ne h = ground arith
