-- ===== src/Native/Windowed.antt =====
-- The parameters that a Direct3D 9 device is made with, and those of a swap chain
-- (src/runtime/hle_native.c).
use systemes3recomp.Prelude.{
  Bool, not, leb, ℕ, ◌+◌, ◌*◌, ◌≤◌, ◌≡◌, ◌≢◌, ◌⊎◌, inr, false, ◌&&◌, ◌==◌, if◌then◌else◌, arith,
}
use systemes3recomp.Memory.{Memory, rd32, wr32, rd32-wr32, rd32-wr32_apart}
use systemes3recomp.Native.{force_windowed_dxgi, Factory, a32, force_windowed}

-- The words do not overlap.
abbrev pub Apart : ℕ → ℕ → Type 0
Apart a b = (a + 4 ≤ b) ⊎ (b + 4 ≤ a)

module _ (f : Factory) (target esp : ℕ) (m : Memory) where
  abbrev pub parameters : ℕ
  parameters = a32 m esp 5

  -- CreateDevice and CreateDeviceEx are called with parameters that ask for a window: those that already
  -- do are passed on as they are, and in those that do not the refresh rate is 0 and for CreateDeviceEx the
  -- display mode is none. No other word of the memory is changed.
  pub force_windowed_lem :
      f.create_device_ex ≢ 0
      → (target ≡ f.create_device) ⊎ (target ≡ f.create_device_ex)
      → parameters ≢ 0
      → (parameters + 0x34 ≤ esp) ⊎ (esp + 32 ≤ parameters)
      → let m' = force_windowed false f target esp m in
        let full = rd32 m (parameters + 0x20) == 0 in
        (rd32 m' (parameters + 0x20) ≡ (if full then 1 else rd32 m (parameters + 0x20)))
        × (rd32 m' (parameters + 0x30) ≡ (if full then 0 else rd32 m (parameters + 0x30)))
        × (a32 m' esp 6 ≡ (if full && target == f.create_device_ex then 0 else a32 m esp 6))
        × ((x : ℕ)
            → Apart x (parameters + 0x20)
            → Apart x (parameters + 0x30)
            → Apart x (esp + 28)
            → rd32 m' x ≡ rd32 m x)
  unfolding force_windowed
  force_windowed_lem there called given apart =
      let pp : ℕ = parameters in
      let m1 : Memory = wr32 m (pp + 0x20) 1 in
      let m2 : Memory = wr32 m1 (pp + 0x30) 0 in
      let at : ℕ = esp + 4 + 4 * 6 in
      let first : rd32 m1 (pp + 0x20) ≡ 1 = rd32-wr32 m (pp + 0x20) 1 (omega arith) in
      let kept : rd32 m2 (pp + 0x20) ≡ rd32 m1 (pp + 0x20) =
        rd32-wr32_apart m1 (pp + 0x30) (pp + 0x20) 0 (inr (omega arith)) in
      let second : rd32 m2 (pp + 0x30) ≡ 0 = rd32-wr32 m1 (pp + 0x30) 0 (omega arith) in
      let third : rd32 (wr32 m2 at 0) at ≡ 0 = rd32-wr32 m2 at 0 (omega arith) in
      (
        ground (arith, rd32-wr32_apart m2 at (pp + 0x20) 0),
        ground (arith, rd32-wr32_apart m2 at (pp + 0x30) 0),
        ground (arith, rd32-wr32_apart m1 (pp + 0x30) at 0, rd32-wr32_apart m (pp + 0x20) at 1),
        λ x a b c. ground (
          arith,
          rd32-wr32_apart m2 at x 0,
          rd32-wr32_apart m1 (pp + 0x30) x 0,
          rd32-wr32_apart m (pp + 0x20) x 1,
        ),
      )

-- What is asked before a swap chain is touched: the target lies in the library, and the third argument is
-- a readable description of an output window that is one, for the full screen.
abbrev pub is_full_screen : Bool → (ℕ → Bool) → (ℕ → Bool) → (ℕ → Bool) → ℕ → ℕ → Memory → Bool
is_full_screen off in_dxgi readable is_window target desc m =
    not off
    && in_dxgi target
    && leb 0x10000 desc
    && readable desc
    && is_window (rd32 m (desc + 44))
    && (rd32 m (desc + 48) == 0)

-- Just such a description is changed: its Windowed becomes 1. Any other call, and every other word of the
-- memory, is left as it is.
pub force_windowed_dxgi_lem :
    (off : Bool) (in_dxgi readable is_window : ℕ → Bool) (target esp : ℕ) (m : Memory) (x : ℕ)
    → let desc = a32 m esp 2 in
      let m' = force_windowed_dxgi off in_dxgi readable is_window target esp m in
      (rd32 m' (desc + 48) ≡ (
        if is_full_screen off in_dxgi readable is_window target desc m
        then 1
        else rd32 m (desc + 48)))
      × (Apart x (desc + 48) → rd32 m' x ≡ rd32 m x)
unfolding force_windowed_dxgi
force_windowed_dxgi_lem off in_dxgi readable is_window target esp m x =
    let desc : ℕ = a32 m esp 2 in
    (
      ground (arith, rd32-wr32 m (desc + 48) 1),
      λ a. ground (arith, rd32-wr32_apart m (desc + 48) x 1),
    )
