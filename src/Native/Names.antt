-- ===== src/Native/Names.antt =====
-- The names that src/runtime/hle_native.c reads: the imports to watch, the texts among a call's
-- arguments, and what an import is looked up by.
use systemes3recomp.Prelude.{
  ℕ, zero, suc, ◌+◌, ◌≤◌, ◌<◌, ◌≡◌, ◌≢◌, inl, inr, refl, ◌∙◌, ap, Bool, true, false, not, ◌&&◌,
  ◌||◌, ltb, leb, ◌==◌, if◌then◌else◌, Option, none, some, List, [], ◌∷◌, ◌++◌, length, drop,
  get_or, All, Bytes, Bool-cases, Option-cases, arith,
}
use systemes3recomp.Memory.{Memory, rd16}
use systemes3recomp.Hle.{Import}
use systemes3recomp.Jvs.{codes}
use systemes3recomp.Text.{starts_with, atoi}
use systemes3recomp.Allnet.Names.{guest_chars}
use systemes3recomp.Native.{ci_helpers, fpu_args}

-- The end of a field of ES3_TRACE_CALLS.
abbrev pub ends_field : Bytes → Bool
ends_field [] = true
ends_field (c ∷ cs) = c == b','

-- watch_init for one import: `first` says that a field starts here.
unfoldable pub watched_from : Bool → Bytes → Bytes → Bool
unfolding starts_with
watched_from first name [] = starts_with name [] && first
watched_from first name (c ∷ cs) =
    let later = watched_from (c == b',') name cs in
    if starts_with name (c ∷ cs) then first && ends_field (drop (length name) (c ∷ cs)) else later

unfoldable pub is_watched : Bytes → Bytes → Bool
unfolding watched_from
is_watched name list = watched_from true name list

-- The loop of es3_arg_string over a UTF-16 text, for at most `n` more characters; `end` is the end of
-- the region. It gives the characters before the NUL.
unfoldable pub wide_chars : ℕ → ℕ → Memory → ℕ → Option (List ℕ)
wide_chars zero end m p = some []
wide_chars (suc n) end m p =
    let w = rd16 m p in
    let rest : Option (List ℕ) = elim (wide_chars n end m (p + 2)) [
      | none ↦ none
      | some s ↦ some (w ∷ s)
    ] in
    if ltb end (p + 2)
    then none
    else if w == 0
    then some []
    else if ltb w 0x20 && not (w == b'\n') && not (w == b'\r') && not (w == b'\t')
    then none
    else rest

-- es3_arg_string; `region` gives the end of a readable region, `narrow` is WideCharToMultiByte.
unfoldable pub wide_string : (List ℕ → Option Bytes) → ℕ → Memory → ℕ → Option Bytes
unfolding wide_chars
wide_string narrow end m va = elim (wide_chars 200 end m va) [
  | none ↦ none
  | some w ↦ if ltb (length w) 2 || leb 200 (length w) then none else narrow w
]

unfoldable pub arg_string : (ℕ → Option ℕ) → (List ℕ → Option Bytes) → Memory → ℕ → Option Bytes
unfolding guest_chars wide_string
arg_string region narrow m va = if ltb va 0x10000 then none else elim (region va) [
  | none ↦ none
  | some end ↦ elim (guest_chars 127 m va) [
    | none ↦ none
    | some s ↦
        if leb 4 (length s) && ltb (length s) 127 then some s else wide_string narrow end m va
  ]
]

-- What GetProcAddress is asked for.
pub data Export : Type 0 where
  by_name : Bytes → Export
  by_ordinal : ℕ → Export

unfoldable pub export_of : Bytes → Export
unfolding starts_with atoi
export_of name =
    if starts_with (codes "ordinal_") name then by_ordinal (atoi (drop 8 name)) else by_name name

-- What hle_bind_native does with an import: not found, a variable at an address, or a function with its
-- x87 arguments.
pub data NativeBinding : Type 0 where
  missing : NativeBinding
  variable : ℕ → NativeBinding
  function : ℕ → ℕ → NativeBinding

unfoldable pub bind_native :
    (Bytes → Option ℕ) → (ℕ → Export → ℕ) → (ℕ → Bool) → Import → NativeBinding
unfolding export_of fpu_args
bind_native load_library get_proc is_code i = elim (load_library i.dll) [
  | none ↦ missing
  | some h ↦
      let p = get_proc h (export_of i.name) in
      if p == 0
      then missing
      else if is_code p
      then function p (fpu_args ci_helpers i.name)
      else variable p
]

starts_with_longer : (name rest : Bytes) → starts_with name (name ++ rest) ≡ true
unfolding starts_with
starts_with_longer [] rest = refl
starts_with_longer (c ∷ cs) rest = ground (arith, starts_with_longer cs rest)

drop_longer : (name rest : Bytes) → drop (length name) (name ++ rest) ≡ rest
drop_longer [] rest = refl
drop_longer (c ∷ cs) rest = drop_longer cs rest

-- An import whose name begins the list is watched just if the first field is its name alone. Where that
-- field is a longer name that begins with it, the import is not watched, though a later field names it.
pub is_watched_first :
    (c : ℕ) (name rest : Bytes) → is_watched (c ∷ name) ((c ∷ name) ++ rest) ≡ ends_field rest
unfolding is_watched watched_from
is_watched_first c name rest = rw (starts_with_longer (c ∷ name) rest, drop_longer name rest) refl

-- A text that begins with a character that is neither printable ASCII nor a NUL byte is declined, whatever
-- follows: a UTF-16 text of such a character is not looked at.
pub arg_string_declines :
    (region : ℕ → Option ℕ) (narrow : List ℕ → Option Bytes) (m : Memory) (va : ℕ)
    → m va ≢ 0
    → (ltb (m va) 0x20 || ltb 0x7e (m va)) ≡ true
    → arg_string region narrow m va ≡ none
unfolding arg_string guest_chars
arg_string_declines region narrow m va h k =
    let first : guest_chars 127 m va ≡ none = ground arith in
    elim (Bool-cases (ltb va 0x10000)) [
      | inl e ↦ rw e refl
      | inr e ↦ elim (Option-cases (region va)) [
        | inl r ↦ rw (e, r) refl
        | inr (end, r) ↦ rw (e, r, first) refl
      ]
    ]

chars_read :
    (n : ℕ) (m : Memory) (p : ℕ) (s : Bytes)
    → length s < n
    → All (λ c. (0x20 ≤ c) × (c ≤ 0x7e)) s
    → ((i : ℕ) → i < length s → m (p + i) ≡ get_or s i 0)
    → m (p + length s) ≡ 0
    → guest_chars n m p ≡ some s
unfolding guest_chars
chars_read zero m p s l a h e = absurd (omega arith)
chars_read (suc n) m p [] l a h e =
    let here : m p ≡ 0 = ap (λ x. m x) (omega arith) ∙ e in ground arith
chars_read (suc n) m p (c ∷ cs) l a h e =
    let here : m p ≡ c = ap (λ x. m x) (omega arith) ∙ h 0 (omega arith) in
    let rest : guest_chars n m (p + 1) ≡ some cs =
      chars_read n m (p + 1) cs (omega arith) a.1
        (λ i k. ap (λ x. m x) (omega arith) ∙ h (suc i) (omega arith))
        (ap (λ x. m x) (omega arith) ∙ e) in
    ground (arith, a.0)

in_window : (va : ℕ) → 0x10000 ≤ va → ltb va 0x10000 ≡ false
in_window va h = ground arith

in_length : (n : ℕ) → 4 ≤ n → n ≤ 126 → (leb 4 n && ltb n 127) ≡ true
in_length n h k = ground arith

-- A text of printable ASCII, of 4 to 126 characters and ended by a NUL, is read as it is.
pub arg_string_reads :
    (region : ℕ → Option ℕ) (narrow : List ℕ → Option Bytes) (m : Memory) (va end : ℕ) (s : Bytes)
    → 0x10000 ≤ va
    → region va ≡ some end
    → 4 ≤ length s
    → length s ≤ 126
    → All (λ c. (0x20 ≤ c) × (c ≤ 0x7e)) s
    → ((i : ℕ) → i < length s → m (va + i) ≡ get_or s i 0)
    → m (va + length s) ≡ 0
    → arg_string region narrow m va ≡ some s
unfolding arg_string
arg_string_reads region narrow m va end s v r k l a h e =
    let chars : guest_chars 127 m va ≡ some s = chars_read 127 m va s (omega arith) a h e in
    rw (r, chars, in_window va v, in_length (length s) k l) refl
