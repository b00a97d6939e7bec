-- ===== src/Callbacks/Windows/Fits.antt =====
-- The window that is created in place of a cabinet's (src/runtime/hle_callback.c).
use systemes3recomp.Prelude.{
  ℕ, ◌+◌, ◌*◌, ◌%◌, ◌^◌, ◌≤◌, ◌<◌, ◌≡◌, Bool, true, ◌&&◌, ◌||◌, leb, ◌==◌, if◌then◌else◌, Option,
  none, some, arith,
}
use systemes3recomp.Callbacks.{Guest, arg, set_arg}
use systemes3recomp.Callbacks.Laws.{arg-set_arg, arg-set_arg_if}
use systemes3recomp.Callbacks.Windows.{
  Rect, width, height, Screen, window_cap, framed_style, window_size, window_frame,
}

-- What the real call is given.
abbrev pub desktop_frame : Screen → (ℕ → Bool → ℕ → ℕ → ℕ → Option Rect) → Guest → ℕ → ℕ
desktop_frame s adjust c k =
    if k == 4 || k == 5
    then 64
    else if k == 6
    then (window_size s adjust c).0 % 2 ^ 32
    else if k == 7
    then (window_size s adjust c).1 % 2 ^ 32
    else if k == 3 && leb (2 ^ 31) (arg c 3)
    then framed_style (arg c 3) % 2 ^ 32
    else arg c k

-- A window of the game is asked for at 64, 64 with that style and that size, and with everything else
-- as the game has it.
pub window_frame_lem :
    (s : Screen) (adjust : ℕ → Bool → ℕ → ℕ → ℕ → Option Rect) (c : Guest) (k : ℕ)
    → arg (window_frame true s adjust c) k ≡ desktop_frame s adjust c k
unfolding window_frame
window_frame_lem s adjust c k =
    let size : ℕ × ℕ = window_size s adjust c in
    let a : Guest = if leb (2 ^ 31) (arg c 3) then set_arg 3 (framed_style (arg c 3)) c else c in
    let b : Guest = set_arg 6 size.0 a in
    let d : Guest = set_arg 7 size.1 b in
    let styled : arg a k
        ≡ (if k == 3 && leb (2 ^ 31) (arg c 3) then framed_style (arg c 3) % 2 ^ 32 else arg c k) =
      arg-set_arg_if (leb (2 ^ 31) (arg c 3)) c 3 (framed_style (arg c 3)) k in
    ground (
      arith,
      arg-set_arg (set_arg 4 64 d) 5 64 k,
      arg-set_arg d 4 64 k,
      arg-set_arg b 7 size.1 k,
      arg-set_arg a 6 size.0 k,
      styled,
    )

-- The desktop has room for the least size and a frame.
abbrev pub HasRoom : Screen → Rect → Type 0
HasRoom s r =
    (s.work ≡ some r)
    × (s.max_w ≡ none)
    × (s.max_h ≡ none)
    × (320 + s.frame_w * 2 ≤ width r)
    × (240 + s.frame_h * 2 + s.caption ≤ height r)
    × (width r < 2 ^ 31)
    × (height r < 2 ^ 31)

-- On a desktop with room for 320 by 240 and a frame, and with no bound set in the environment, the cap is
-- at least that, and leaves room for the frame that GetSystemMetrics tells in the work area's width and
-- height.
pub cap_lem :
    (s : Screen) (r : Rect)
    → HasRoom s r
    → (320 ≤ (window_cap s).0)
      × (240 ≤ (window_cap s).1)
      × ((window_cap s).0 + s.frame_w * 2 ≤ width r)
      × ((window_cap s).1 + s.frame_h * 2 + s.caption ≤ height r)
unfolding window_cap
cap_lem s r (a, b, c, d, e, f, g) =
    rw (a, b, c) (ground arith, ground arith, ground arith, ground arith)
