-- ===== src/Callbacks/Windows.antt =====
-- The game's window on a desktop: window_cap, hle_create_window, hle_set_window_pos and what they use in
-- src/runtime/hle_callback.c. An int is a 32-bit word.
pub mod Fits
use systemes3recomp.Prelude.{
  ℕ, ◌+◌, ◌-◌, ◌*◌, ◌/◌, ◌%◌, ◌^◌, bit_or, Bool, true, false, not, ◌&&◌, ◌||◌, leb, ltb, ◌==◌,
  if◌then◌else◌, Option, none, some,
}
use systemes3recomp.Callbacks.{Guest, eax, arg, set_arg, ret}

abbrev pub minus : ℕ → ℕ → ℕ
minus a b = (a + 2 ^ 32 - b) % 2 ^ 32

-- a < b, both signed.
abbrev pub below : ℕ → ℕ → Bool
below a b = ltb ((a + 2 ^ 31) % 2 ^ 32) ((b + 2 ^ 31) % 2 ^ 32)

pub record Rect : Type 0 where
  pub left : ℕ
  pub top : ℕ
  pub right : ℕ
  pub bottom : ℕ

abbrev pub width : Rect → ℕ
width r = minus r.right r.left

abbrev pub height : Rect → ℕ
height r = minus r.bottom r.top

-- What SystemParametersInfoA and GetSystemMetrics tell, and atoi of ES3_MAX_W and of ES3_MAX_H.
pub record Screen : Type 0 where
  pub work : Option Rect
  pub screen_w : ℕ
  pub screen_h : ℕ
  pub frame_w : ℕ
  pub frame_h : ℕ
  pub caption : ℕ
  pub max_w : Option ℕ
  pub max_h : Option ℕ

abbrev pub at_least : ℕ → ℕ → ℕ
at_least lo v = if below v lo then lo else v

abbrev pub at_most : ℕ → ℕ → ℕ
at_most cap v = if below cap v then cap else v

abbrev pub override : Option ℕ → ℕ → ℕ
override none v = v
override (some e) v = e

abbrev pub area : Screen → ℕ × ℕ
area s = elim s.work [ none ↦ (s.screen_w, s.screen_h) | some r ↦ (width r, height r) ]

unfoldable pub window_cap : Screen → ℕ × ℕ
window_cap s =
    let (w, h) = area s in
    let w' = minus w (s.frame_w * 2 % 2 ^ 32) in
    let h' = minus h ((s.frame_h * 2 + s.caption) % 2 ^ 32) in
    (at_least 320 (override s.max_w w'), at_least 240 (override s.max_h h'))

-- The size of a rectangle if AdjustWindowRectEx has given one.
abbrev pub outer : Option Rect → ℕ × ℕ → ℕ × ℕ
outer none size = size
outer (some r) size = (width r, height r)

-- WS_POPUP is traded for WS_OVERLAPPEDWINDOW.
unfoldable pub framed_style : ℕ → ℕ
framed_style style = if leb (2 ^ 31) style then bit_or (style - 2 ^ 31) 0x00CF0000 else style

-- The size that is asked for. `adjust` is AdjustWindowRectEx of a style, a menu, an extended style and a
-- size.
unfoldable pub window_size : Screen → (ℕ → Bool → ℕ → ℕ → ℕ → Option Rect) → Guest → ℕ × ℕ
unfolding window_cap framed_style
window_size s adjust c =
    let (maxw, maxh) = window_cap s in
    let w = at_most maxw (arg c 6) in
    let h = at_most maxh (arg c 7) in
    outer (adjust (framed_style (arg c 3)) (not (arg c 9 == 0)) (arg c 0) w h) (w, h)

-- hle_create_window up to the forwarded call.
unfoldable pub window_frame : Bool → Screen → (ℕ → Bool → ℕ → ℕ → ℕ → Option Rect) → Guest → Guest
unfolding window_size framed_style
window_frame windowed s adjust c =
    let (w, h) = window_size s adjust c in
    let styled = if leb (2 ^ 31) (arg c 3) then set_arg 3 (framed_style (arg c 3)) c else c in
    if windowed then set_arg 5 64 (set_arg 4 64 (set_arg 7 h (set_arg 6 w styled))) else c

-- g_game_wndproc and g_wndproc_unicode.
pub record Menu : Type 0 where
  pub wndproc : ℕ
  pub unicode : Bool

-- es3_no_alt_menu. `is_unicode` is IsWindowUnicode, and `subclass` SetWindowLongPtr of the window's
-- procedure, W or A, with the one that it had.
unfoldable pub no_alt_menu : (ℕ → Bool) → (Bool → ℕ → ℕ) → ℕ → Menu → Menu
no_alt_menu is_unicode subclass h s =
    if not (s.wndproc == 0) || h == 0
    then s
    else record { unicode = is_unicode h; wndproc = subclass (is_unicode h) h }

-- es3_menu_eater. `call` is CallWindowProc, W or A.
unfoldable pub menu_eater : Menu → (Bool → ℕ → ℕ → ℕ → ℕ → ℕ → ℕ) → ℕ → ℕ → ℕ → ℕ → ℕ
menu_eater s call h m w l =
    let command = w % 2 ^ 16 / 16 * 16 in
    if m == 0x112 && (command == 0xF100 || command == 0xF090)
    then 0
    else call s.unicode s.wndproc h m w l

-- hle_create_window, with `native` the forwarded call.
unfoldable pub create_window :
    Bool
    → Screen
    → (ℕ → Bool → ℕ → ℕ → ℕ → Option Rect)
    → (ℕ → Bool)
    → (Bool → ℕ → ℕ)
    → (Guest → Guest)
    → Guest
    → Menu
    → Guest × Menu
unfolding window_frame no_alt_menu
create_window windowed s adjust is_unicode subclass native c menu =
    let c' = native (window_frame windowed s adjust c) in
    (
      c',
      if windowed && not (c'.gpr eax == 0)
          then no_alt_menu is_unicode subclass (c'.gpr eax) menu
          else menu,
    )

-- hle_set_window_pos up to the forwarded call. `adjust` is AdjustWindowRectEx with the styles and the
-- menu that the window has.
unfoldable pub set_window_pos : Bool → Screen → (ℕ → ℕ → ℕ → Option Rect) → Guest → Guest
unfolding window_cap
set_window_pos windowed s adjust c =
    let (maxw, maxh) = window_cap s in
    let w = at_most maxw (arg c 4) in
    let h = at_most maxh (arg c 5) in
    let (w', h') = if arg c 0 == 0 then (w, h) else outer (adjust (arg c 0) w h) (w, h) in
    if windowed && (below maxw (arg c 4) || below maxh (arg c 5))
    then set_arg 5 h' (set_arg 4 w' c)
    else c

-- hle_get_system_metrics: 0x1000 is SM_REMOTESESSION.
unfoldable pub get_system_metrics : (Guest → Guest) → Guest → Guest
get_system_metrics native c =
    let c' = native c in if arg c 0 == 0x1000 && not (c'.gpr eax == 0) then ret 0 c' else c'
