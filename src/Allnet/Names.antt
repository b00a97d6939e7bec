-- ===== src/Allnet/Names.antt =====
-- The network calls that lead the game to the ALL.Net server: guest_str, the two resolvers, connect
-- and sendto, and the two WinHTTP calls of src/runtime/allnet.c. Each is what it does to the guest's
-- memory before the real function is called.
use systemes3recomp.Prelude.{
  ℕ, zero, suc, ◌+◌, ◌-◌, ◌*◌, ◌/◌, ◌%◌, ◌^◌, ◌<◌, ◌≡◌, refl, Bool, true, false, not, ◌&&◌, ◌||◌,
  Option, none, some, [], ◌∷◌, get_or, Bytes, leb, ltb, ◌==◌, if◌then◌else◌, arith,
}
use systemes3recomp.Jvs.{codes}
use systemes3recomp.Hle.{lower}
use systemes3recomp.Memory.{Memory, copy_in, rd32}
use systemes3recomp.Guest.Imports.{Words}

-- The characters of a guest string, at most as many as the buffer has room for; none where one
-- cannot be printed.
unfoldable pub guest_chars : ℕ → Memory → ℕ → Option Bytes
guest_chars zero m p = some []
guest_chars (suc n) m p =
    if m p == 0
    then some []
    else if ltb (m p) 0x20 || ltb 0x7e (m p)
    then none
    else elim (guest_chars n m (p + 1)) [ none ↦ none | some s ↦ some (m p ∷ s) ]

-- guest_str with a buffer of 256 bytes.
unfoldable pub guest_str : Memory → ℕ → Option Bytes
unfolding guest_chars
guest_str m va =
    if ltb va 0x10000
    then none
    else elim (guest_chars 255 m va) [ none ↦ none | some [] ↦ none | some (c ∷ s) ↦ some (c ∷ s) ]

-- WINHTTP_SECURE.
abbrev pub secure : ℕ
secure = 2 ^ 23

-- _stricmp finds no difference.
unfoldable pub same_name : Bytes → Bytes → Bool
same_name [] [] = true
same_name [] (b ∷ bs) = false
same_name (a ∷ rest) [] = false
same_name (a ∷ rest) (b ∷ bs) = lower a == lower b && same_name rest bs

-- The name is this machine's, or localhost.
abbrev pub is_self : Bytes → Bytes → Bool
is_self self want = same_name want self || same_name want (codes "localhost")

module _ (w : Words) where
  -- A32: an argument of a call with the stack pointer `esp`.
  abbrev pub arg : Memory → ℕ → ℕ → ℕ
  arg m esp n = w.load m (esp + 4 + 4 * n)

  -- es3_hle_gethostbyname; `addr` is where allnet_addr_str's text is.
  unfoldable pub gethostbyname : Bytes → ℕ → Memory → ℕ → Memory
  unfolding guest_str same_name
  gethostbyname self addr m esp = elim (guest_str m (arg m esp 0)) [
    | none ↦ w.store m (esp + 4) addr
    | some want ↦ if is_self self want then m else w.store m (esp + 4) addr
  ]

  -- es3_hle_getaddrinfo; `addr` is where g_loopback is.
  unfoldable pub getaddrinfo : Bytes → ℕ → Memory → ℕ → Memory
  unfolding guest_str same_name
  getaddrinfo self addr m esp = elim (guest_str m (arg m esp 0)) [
    | none ↦ m
    | some want ↦ if is_self self want then m else w.store m (esp + 4) addr
  ]

  -- es3_hle_winhttp_connect; `local` is where k_local is.
  unfoldable pub winhttp_connect : ℕ → ℕ → Memory → ℕ → Memory
  winhttp_connect local port m esp =
      w.store (w.store m (esp + 4 + 4 * 1) local) (esp + 4 + 4 * 2) port

  -- es3_hle_winhttp_open_request: WINHTTP_SECURE is taken off.
  unfoldable pub winhttp_open_request : Memory → ℕ → Memory
  winhttp_open_request m esp =
      let flags = arg m esp 6 in
      if flags / secure % 2 == 1 then w.store m (esp + 4 + 4 * 6) (flags - secure) else m

-- 127.0.0.1 as inet_addr has it.
abbrev pub loopback : Bytes
loopback = 127 ∷ 0 ∷ 0 ∷ 1 ∷ []

-- to_loopback: the socket address at `sa`; AF_INET is 2.
unfoldable pub to_loopback : ℕ → ℕ → Memory → Memory
unfolding rd32 copy_in
to_loopback allnet sa m =
    if sa == 0 || not (m sa == 2) || not (rd32 m (sa + 4) == allnet)
    then m
    else copy_in m (sa + 4) loopback

loopback_byte : (i : ℕ) → get_or loopback i 0 ≡ (if i == 0 then 127 else if i == 3 then 1 else 0)
loopback_byte zero = refl
loopback_byte (suc zero) = refl
loopback_byte (suc (suc zero)) = refl
loopback_byte (suc (suc (suc zero))) = refl
loopback_byte (suc (suc (suc (suc i)))) = ground arith

-- A call of connect or sendto to the server's address goes to this machine, its port and all else in
-- memory left alone; any other address, and any other kind of address, is left as it is.
pub to_loopback_lem :
    (allnet sa : ℕ) (m : Memory) (x : ℕ)
    → to_loopback allnet sa m x ≡ (
        if not (sa == 0)
          && m sa == 2
          && rd32 m (sa + 4) == allnet
          && leb (sa + 4) x
          && ltb x (sa + 8)
        then (if x == sa + 4 then 127 else if x == sa + 7 then 1 else 0)
        else m x)
unfolding to_loopback
to_loopback_lem allnet sa m x = ground (arith, loopback_byte (x - (sa + 4)))

-- WinHttpOpenRequest is never asked for a secure connection, and the other flags are kept.
pub winhttp_open_request_lem :
    (w : Words) (m : Memory) (esp : ℕ)
    → arg w m esp 6 < 2 ^ 32
    → (arg w (winhttp_open_request w m esp) esp 6 / secure % 2 ≡ 0)
      × (arg w (winhttp_open_request w m esp) esp 6 % secure ≡ arg w m esp 6 % secure)
      × (arg w (winhttp_open_request w m esp) esp 6 / (2 * secure) ≡ arg w m esp 6 / (2 * secure))
unfolding winhttp_open_request
winhttp_open_request_lem w m esp h =
    ground (arith, w.load-store m (esp + 4 + 4 * 6) (arg w m esp 6 - secure))
