-- ===== src/Jvs/Input/Bounds.antt =====
-- What the wheel and the pedals read.
use systemes3recomp.Prelude.{
  ℕ, ◌≤◌, ◌<◌, ◌≡◌, ◌≢◌, Bool, true, false, if◌then◌else◌, some, inl, inr, Bool-cases, Option-cases,
  get_or, [], ◌∷◌, Bytes, length, set, arith,
}
use systemes3recomp.Controls.{ℤ, pos, negsuc, Keys, Pad, IsPad, IsShort, is_pushed}
use systemes3recomp.Jvs.Input.{
  Asked, Inputs, Levels, at_rest, from_keys, from_pad, levels, wheel, pedal, input_poll,
}

wheel_bounds : (z : ℤ) → IsShort z → (0x4000 ≤ wheel z) × (wheel z ≤ 0xBFFF)
wheel_bounds (pos n) h = omega arith
wheel_bounds (negsuc n) h = omega arith

-- A pedal that is up reads 0, and one that is down at least 0x8000, further the further it is down.
pedal_bounds : (v : ℕ) → v < 256 → (pedal v ≤ 0xFFFF) × (v ≢ 0 → 0x8000 < pedal v) × (pedal 0 ≡ 0)
unfolding pedal
pedal_bounds v h = ground arith

-- The wheel and the pedals while the levels are gathered.
abbrev InRange : Levels → Type 0
InRange l = IsShort l.steer × (l.gas < 256) × (l.brake < 256)

IsShort-if : (b : Bool) (x y : ℤ) → IsShort x → IsShort y → IsShort (if b then x else y)
IsShort-if true x y h k = h
IsShort-if false x y h k = k

keys-InRange : (k : Keys) → InRange (from_keys k at_rest)
unfolding from_keys
keys-InRange k = ground arith

pad-InRange : (p : Pad) (l : Levels) → IsPad p → InRange l → InRange (from_pad p l)
unfolding from_pad
pad-InRange p l v h =
    (IsShort-if (is_pushed p.thumb_x) p.thumb_x l.steer v.x_short h.0, ground arith, ground arith)

front-InRange : (a : Asked) → InRange (if a.front then from_keys a.keys at_rest else at_rest)
front-InRange a = elim (Bool-cases a.front) [
  | inl e ↦ rw e (keys-InRange a.keys)
  | inr e ↦ rw e (omega arith)
]

three_bounds :
    (g : Bytes) (x y z : ℕ)
    → length g ≡ 8
    → (0x4000 ≤ x) × (x ≤ 0xBFFF)
    → y ≤ 0xFFFF
    → z ≤ 0xFFFF
    → let h = set (set (set g 0 x) 1 y) 2 z in
      (length h ≡ 8)
      × (0x4000 ≤ get_or h 0 0)
      × (get_or h 0 0 ≤ 0xBFFF)
      × (get_or h 1 0 ≤ 0xFFFF)
      × (get_or h 2 0 ≤ 0xFFFF)
three_bounds (a ∷ b ∷ c ∷ g) x y z n w h k = (n, w.0, w.1, h, k)
three_bounds [] x y z n w h k = absurd (omega arith)
three_bounds (a ∷ []) x y z n w h k = absurd (omega arith)
three_bounds (a ∷ b ∷ []) x y z n w h k = absurd (omega arith)

levels-InRange : (a : Asked) → ((p : Pad) → a.pad ≡ some p → IsPad p) → InRange (levels a)
unfolding levels
levels-InRange a h = elim (Option-cases a.pad) [
  | inl e ↦ rw e (front-InRange a)
  | inr (p, e) ↦ rw e (pad-InRange p _ (h p e) (front-InRange a))
]

-- Whatever is held, each poll leaves eight channels, and the wheel and the two pedals are 16-bit
-- values: the wheel turns between 0x4000 and 0xBFFF around its centre 0x8000.
pub input_poll_bounds :
    (a : Asked) (i : Inputs)
    → ((p : Pad) → a.pad ≡ some p → IsPad p)
    → length i.switches.analog ≡ 8
    → let g = (input_poll false a i).0.switches.analog in
      (length g ≡ 8)
      × (0x4000 ≤ get_or g 0 0)
      × (get_or g 0 0 ≤ 0xBFFF)
      × (get_or g 1 0 ≤ 0xFFFF)
      × (get_or g 2 0 ≤ 0xFFFF)
unfolding input_poll
input_poll_bounds a i h n =
    let l = levels-InRange a h in
    let w = wheel_bounds (levels a).steer l.0 in
    three_bounds i.switches.analog _ _ _ n w (pedal_bounds (levels a).gas l.1).0
      (pedal_bounds (levels a).brake l.2).0
