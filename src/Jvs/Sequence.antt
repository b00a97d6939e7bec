-- ===== src/Jvs/Sequence.antt =====
-- Switches pressed on a timetable: seq_init and seq_tick (src/runtime/jvs.c). `g_seq[g_seq_done..]` is
-- the list of the entries that are still to come.
pub mod Laws
use systemes3recomp.Prelude.{
  ℕ, zero, suc, ◌+◌, ◌-◌, ◌≤◌, ◌%◌, ◌^◌, Bool, true, false, not, ◌||◌, ◌&&◌, leb, ◌==◌,
  if◌then◌else◌, Option, none, some, Bytes, List, [], ◌∷◌, ◌++◌, length, get_or, drop,
}
use systemes3recomp.Jvs.{Switches, codes}

-- The field of an entry: the system switches, a player's, or a picture to take.
pub data Field : Type 0 where
  sys : Field
  p1 : Field
  p2 : Field
  shot : Field

pub record Entry : Type 0 where
  pub when : ℕ
  pub field : Field
  pub bits : ℕ

abbrev pub seq_max : ℕ
seq_max = 32

abbrev pub lower : ℕ → ℕ
lower c = if leb b'A' c && leb c b'Z' then c + 32 else c

-- `!_strnicmp(s, word, strlen(word))`, where the word is in lower case.
abbrev pub starts : Bytes → Bytes → Bool
starts [] s = true
starts (w ∷ ws) [] = false
starts (w ∷ ws) (c ∷ cs) = (lower c == w) && starts ws cs

-- The field and what stands behind it.
unfoldable pub field_of : Bytes → Option (Field × Bytes)
field_of s =
    if starts (codes "sys") s
    then some (sys, drop 3 s)
    else if starts (codes "p1") s
    then some (p1, drop 2 s)
    else if starts (codes "p2") s
    then some (p2, drop 2 s)
    else if starts (codes "shot") s
    then some (shot, drop 4 s)
    else none

-- The loop of seq_init for at most `room` more entries, on the text of ES3_JVS_SEQ. `strtoul` takes
-- the base and a text, and gives the number and how many bytes of the text it used.
unfoldable pub parse : (ℕ → Bytes → ℕ × ℕ) → ℕ → Bytes → List Entry
parse strtoul zero s = []
parse strtoul (suc room) s =
    let (when, n) = strtoul 10 s in
    let after = drop n s in
    elim (field_of (drop 1 after)) [
      | none ↦ []
      | some (field, behind) ↦
          let (bits, m) = strtoul 16 (drop 1 behind) in
          let tail = drop m (drop 1 behind) in
          let rest = parse strtoul room (if get_or tail 0 0 == b',' then drop 1 tail else tail) in
          if length s == 0
            || n == 0
            || not (get_or after 0 0 == b':')
            || not (get_or behind 0 0 == b'=')
          then []
          else record { when = when % 2 ^ 32; field = field; bits = bits % 2 ^ 32 } ∷ rest
    ]

unfoldable pub seq_init : (ℕ → Bytes → ℕ × ℕ) → Option Bytes → List Entry
seq_init strtoul none = []
seq_init strtoul (some s) = parse strtoul seq_max s

-- What one entry does: the switches, and whether a picture is taken.
unfoldable pub apply : Entry → Switches → Switches × ℕ
apply e s = elim e.field [
  | sys ↦ (record s { sw_sys = e.bits }, 0)
  | p1 ↦ (record s { sw_p1 = e.bits }, 0)
  | p2 ↦ (record s { sw_p2 = e.bits }, 0)
  | shot ↦ (s, 1)
]

-- seq_tick, `elapsed` ms after the start: what is left to do, the switches, and how many pictures.
unfoldable pub seq_tick : ℕ → List Entry → Switches → List Entry × Switches × ℕ
seq_tick elapsed [] s = ([], s, 0)
seq_tick elapsed (e ∷ es) s =
    let now_set = apply e s in
    let rest = seq_tick elapsed es now_set.0 in
    if leb e.when elapsed then (rest.0, rest.1, now_set.1 + rest.2) else (e ∷ es, s, 0)
