-- ===== src/Allnet/Link.antt =====
-- Which network interface the game is given: es3_hle_wsaioctl of src/runtime/allnet.c, behind the
-- real WSAIoctl.
use systemes3recomp.Prelude.{
  ℕ, zero, suc, ◌+◌, ◌*◌, ◌/◌, ◌%◌, ◌≡◌, refl, Bool, not, ◌&&◌, ◌||◌, Option, none, some, List, [],
  ◌∷◌, ◌==◌, if◌then◌else◌, arith,
}
use systemes3recomp.Memory.{Memory, copy_in, copy_out, rd32}
use systemes3recomp.Guest.Imports.{Words}

-- What the loop reads of an INTERFACE_INFO.
pub record Interface : Type 0 where
  pub flags : ℕ
  pub addr : ℕ

abbrev pub ifinfo : ℕ
ifinfo = 76

unfoldable pub interfaces : Memory → ℕ → ℕ → List Interface
unfolding rd32
interfaces m p zero = []
interfaces m p (suc n) =
    record { flags = rd32 m p; addr = rd32 m (p + 8) } ∷ interfaces m (p + ifinfo) n

-- IFF_UP, and not IFF_LOOPBACK.
abbrev pub is_usable : Interface → Bool
is_usable i = i.flags % 2 == 1 && i.flags / 4 % 2 == 0

-- The loop from index `k`; `pick` is the first usable one, none for (uint32_t)-1.
unfoldable pub pick_from : List Interface → ℕ → ℕ → Option ℕ → Option ℕ
pick_from [] want k pick = pick
pick_from (i ∷ is) want k pick =
    let first : Option ℕ = elim pick [ none ↦ some k | some j ↦ some j ] in
    let next : Option ℕ = pick_from is want (k + 1) (if is_usable i then first else pick) in
    if is_usable i && not (want == 0) && i.addr == want then some k else next

unfoldable pub picked : List Interface → ℕ → ℕ
unfolding pick_from
picked is want = elim (pick_from is want 0 none) [ none ↦ 0 | some k ↦ k ]

-- es3_hle_wsaioctl behind the call: `wanted` says that the call asked for the list, succeeded, has
-- both pointers, and that ES3_NO_LINK_FIX is unset; `routed` is preferred_addr.
unfoldable pub wsaioctl : Words → Bool → ℕ → ℕ → ℕ → Memory → Memory
unfolding interfaces picked copy_in copy_out
wsaioctl w wanted routed out pret m =
    let n = w.load m pret / ifinfo in
    let k = picked (interfaces m out n) routed in
    if not wanted || n == 0
    then m
    else w.store (if k == 0 then m else copy_in m out (copy_out m (out + k * ifinfo) ifinfo)) pret
        24

-- The first index at which a test holds.
unfoldable pub first_index : (Interface → Bool) → List Interface → ℕ → Option ℕ
first_index test [] k = none
first_index test (i ∷ is) k =
    let next : Option ℕ = first_index test is (k + 1) in if test i then some k else next

abbrev pub or_else : Option ℕ → Option ℕ → Option ℕ
or_else none o = o
or_else (some k) o = some k

-- The interface that the machine routes through, if it is usable.
abbrev pub is_routed : ℕ → Interface → Bool
is_routed want i = is_usable i && not (want == 0) && i.addr == want

pick_from_lem :
    (is : List Interface) (want k : ℕ) (pick : Option ℕ)
    → pick_from is want k pick
      ≡ or_else (first_index (is_routed want) is k) (or_else pick (first_index is_usable is k))
unfolding pick_from first_index
pick_from_lem [] want k none = refl
pick_from_lem [] want k (some j) = refl
pick_from_lem (i ∷ is) want k none =
    ground (arith, pick_from_lem is want (k + 1) none, pick_from_lem is want (k + 1) (some k))
pick_from_lem (i ∷ is) want k (some j) = ground (arith, pick_from_lem is want (k + 1) (some j))

-- The interface that is picked is the first usable one with the address that the machine routes
-- through; if there is none, the first that is usable; and if none is usable, the first.
pub picked_lem :
    (is : List Interface) (want : ℕ)
    → or_else (or_else (first_index (is_routed want) is 0) (first_index is_usable is 0)) (some 0)
      ≡ some (picked is want)
unfolding picked
picked_lem is want = ground (arith, pick_from_lem is want 0 none)
