-- ===== src/Native.antt =====
-- The host's own code under the game's calls: src/runtime/hle_native.c. What Windows says of an address,
-- the call across the boundary and the host's x87 stack, which pcrecomp keeps, are parameters.
pub mod Regions
pub mod Calls
pub mod Windowed
pub mod Names
mod Tests
use systemes3recomp.Prelude.{
  ℕ, zero, suc, ◌+◌, ◌-◌, ◌*◌, ◌/◌, ◌%◌, ◌^◌, Bool, true, false, not, ◌&&◌, ◌||◌, ltb, leb, ◌==◌,
  if◌then◌else◌, Option, none, some, List, [], ◌∷◌, ◌++◌, length, take, drop, Bytes,
}
use systemes3recomp.Memory.{Memory, rd32, wr32}
use systemes3recomp.Hle.{same_text, dll_eq}
use systemes3recomp.Jvs.{codes}
use systemes3recomp.Text.{starts_with, atoi}

-- What VirtualQuery tells of an address, none where it fails.
pub record Query : Type 0 where
  pub committed : Bool
  pub executable : Bool
  pub base : ℕ
  pub size : ℕ

-- An entry of g_host_code.
pub record Region : Type 0 where
  pub lo : ℕ
  pub hi : ℕ

abbrev pub host_regions : ℕ
host_regions = 64

unfoldable pub is_cached : List Region → ℕ → Bool
is_cached [] va = false
is_cached (r ∷ rs) va = leb r.lo va && ltb va r.hi || is_cached rs va

-- The tests before the cache: an address in the guest's image, or near 0.
abbrev pub is_foreign : ℕ → ℕ → ℕ → Bool
is_foreign base size va = not (leb base va && ltb va ((base + size) % 2 ^ 32)) && leb 0x10000 va

-- es3_is_host_code
unfoldable pub is_host_code : ℕ → ℕ → (ℕ → Option Query) → ℕ → List Region → Bool × List Region
unfolding is_cached
is_host_code base size query va cache =
    if not (is_foreign base size va)
    then (false, cache)
    else if is_cached cache va
    then (true, cache)
    else elim (query va) [
      | none ↦ (false, cache)
      | some q ↦ if not q.committed || not q.executable then (false, cache) else (
        true,
        if ltb (length cache) host_regions
            then cache ++ (record { lo = q.base; hi = (q.base + q.size) % 2 ^ 32 } ∷ [])
            else cache,
      )
    ]

-- A32: an argument on the guest's stack.
abbrev pub a32 : Memory → ℕ → ℕ → ℕ
a32 m esp k = rd32 m (esp + 4 + 4 * k)

-- g_d3d_create_device and g_d3d_create_device_ex.
pub record Factory : Type 0 where
  pub create_device : ℕ
  pub create_device_ex : ℕ

-- es3_d3d_note_factory
unfoldable pub note_factory : Memory → ℕ → Factory → Factory
note_factory m iface f =
    let vt = rd32 m iface in
    if iface == 0 || not (f.create_device_ex == 0) || vt == 0
    then f
    else record { create_device = rd32 m (vt + 4 * 16); create_device_ex = rd32 m (vt + 4 * 20) }

-- force_windowed; `off` is ES3_FULLSCREEN.
unfoldable pub force_windowed : Bool → Factory → ℕ → ℕ → Memory → Memory
force_windowed off f target esp m =
    let pp = a32 m esp 5 in
    let is_create = target == f.create_device || target == f.create_device_ex in
    let windowed = wr32 (wr32 m (pp + 0x20) 1) (pp + 0x30) 0 in
    if off || f.create_device_ex == 0 || not is_create || pp == 0 || not (rd32 m (pp + 0x20) == 0)
    then m
    else if target == f.create_device_ex
    then wr32 windowed (esp + 4 + 4 * 6) 0
    else windowed

-- force_windowed_dxgi; `in_dxgi` is whether the target lies in that library, `readable` what VirtualQuery
-- says of the 60 bytes of the description, `is_window` what IsWindow says of a handle.
unfoldable pub force_windowed_dxgi :
    Bool → (ℕ → Bool) → (ℕ → Bool) → (ℕ → Bool) → ℕ → ℕ → Memory → Memory
force_windowed_dxgi off in_dxgi readable is_window target esp m =
    let desc = a32 m esp 2 in
    if off || not (in_dxgi target) || ltb desc 0x10000 || not (readable desc)
    then m
    else if not (is_window (rd32 m (desc + 44))) || not (rd32 m (desc + 48) == 0)
    then m
    else wr32 m (desc + 48) 1

-- takes_hinstance
unfoldable pub takes_hinstance : Bytes → Bool
takes_hinstance dll =
    dll_eq (take 6 dll) (codes "USER32")
    || dll_eq (take 6 dll) (codes "DINPUT")
    || dll_eq (take 5 dll) (codes "GDI32")
    || dll_eq (take 3 dll) (codes "d3d")

-- The loop over the arguments from `k`, for `n` of them.
unfoldable pub replace_from : ℕ → ℕ → ℕ → ℕ → ℕ → Memory → Memory
replace_from zero k base own esp m = m
replace_from (suc n) k base own esp m =
    let m' = if a32 m esp k == base then wr32 m (esp + 4 + 4 * k) own else m in
    replace_from n (k + 1) base own esp m'

-- How many arguments are looked at: `off` is ES3_NO_HINSTANCE_FIX.
unfoldable pub looked_at : Bool → Option ℕ → Bytes → ℕ
looked_at off none dll = 0
looked_at off (some purge) dll =
    let na = purge / 4 in
    if off || not (takes_hinstance dll) then 0 else if ltb na 16 then na else 16

unfoldable pub replace_hinstance : Bool → Option ℕ → Bytes → ℕ → ℕ → ℕ → Memory → Memory
unfolding replace_from looked_at
replace_hinstance off purge dll base own esp m =
    replace_from (looked_at off purge dll) 0 base own esp m

-- CI_HELPERS
abbrev pub ci_helpers : List (Bytes × ℕ)
ci_helpers =
    (codes "_CIacos", 1)
    ∷ (codes "_CIasin", 1)
    ∷ (codes "_CIatan", 1)
    ∷ (codes "_CIatan2", 2)
    ∷ (codes "_CIcos", 1)
    ∷ (codes "_CIcosh", 1)
    ∷ (codes "_CIexp", 1)
    ∷ (codes "_CIfmod", 2)
    ∷ (codes "_CIlog", 1)
    ∷ (codes "_CIlog10", 1)
    ∷ (codes "_CIpow", 2)
    ∷ (codes "_CIsin", 1)
    ∷ (codes "_CIsinh", 1)
    ∷ (codes "_CIsqrt", 1)
    ∷ (codes "_CItan", 1)
    ∷ (codes "_CItanh", 1)
    ∷ []

unfoldable pub fpu_args : List (Bytes × ℕ) → Bytes → ℕ
fpu_args [] name = 0
fpu_args (h ∷ hs) name = if same_text name h.0 then h.1 else fpu_args hs name
