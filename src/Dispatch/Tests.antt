-- ===== src/Dispatch/Tests.antt =====
-- A small table of functions and two bindings.
use systemes3recomp.Prelude.{
  ℕ, suc, zero, ◌+◌, ◌<◌, ◌≡◌, ◌≢◌, refl, true, false, none, some, List, [], ◌∷◌, length, arith,
}
use systemes3recomp.Dispatch.{
  Entry, Bound, no_bindings, bind_guest, guest_hle_run, find, build_index, owner, owner_from,
  dispatch_inner, Outside,
}
use systemes3recomp.Dispatch.Lookup.{va_at}
use systemes3recomp.Dispatch.Fast.{find-build_index}
use systemes3recomp.Dispatch.Binding.{bind_all}

-- The state counts what has run.
abbrev at_address : ℕ → ℕ → Entry ℕ
at_address va fn = record { va = va; fn = fn; body = λ n. n + va }

abbrev functions : List (Entry ℕ)
functions = at_address 100 9000 ∷ at_address 104 7000 ∷ at_address 110 8000 ∷ []

absent_105 : (i : ℕ) → i < length functions → va_at functions i ≢ 105
absent_105 zero l e = omega arith
absent_105 (suc zero) l e = omega arith
absent_105 (suc (suc zero)) l e = omega arith
absent_105 (suc (suc (suc i))) l e = omega arith

find-build_index_example : find (build_index true functions) functions 105 ≡ find none functions 105
find-build_index_example =
    find-build_index true functions 105
      ((omega arith, (omega arith, tt)), ((omega arith, tt), (tt, tt)))

-- The function that the host address 8500 lies in starts at 110.
owner_8500 : owner functions 8500 ≡ 110
unfolding owner owner_from
owner_8500 = refl

abbrev two_bound : List (Bound ℕ)
two_bound =
    record { va = 104; handler = λ n. (true, 0) }
    ∷ record { va = 120; handler = λ n. (false, n) }
    ∷ []

-- A thunk to a bound address is answered by its handler.
abbrev outside : Outside ℕ
outside = record {
  is_hle = λ va. false;
  hle_call = λ va n. n;
  thunk_target = λ va. some 104;
  is_host_code = λ va. false;
  call_address = λ va n. n;
}

thunk_bound :
    dispatch_inner outside
      (build_index true functions)
      functions
      (bind_all two_bound no_bindings)
      7
      5
    ≡ some 0
unfolding dispatch_inner bind_guest guest_hle_run
thunk_bound = refl
