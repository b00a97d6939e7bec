-- ===== src/Dispatch64/Opened.antt =====
-- The files that the game has opened: es3_note_file and fr_dump, and the table of handles, in
-- src/runtime64/dispatch64.c.
use systemes3recomp.Prelude.{
  ℕ, zero, suc, ◌+◌, ◌-◌, ◌%◌, ◌^◌, ◌≤◌, ◌<◌, ◌≡◌, ◌≢◌, refl, ◌∙◌, ap₂, append-nil, append_assoc,
  sym, leb, ◌==◌, Bool, false, ◌||◌, if◌then◌else◌, Option, none, some, List, [], ◌∷◌, ◌++◌, length,
  get_or, take, Bytes, arith,
}
use systemes3recomp.Hle.{dll_eq}
use systemes3recomp.Jvs.{codes}

-- g_fr_head, a 32-bit counter, and g_fr.
pub record Ring : Type 0 where
  pub head : ℕ
  pub slots : ℕ → Bytes

abbrev pub fr_n : ℕ
fr_n = 16

abbrev pub no_files : Ring
no_files = record { head = 0; slots = λ i. [] }

-- es3_note_file of a path that is there.
unfoldable pub note_file : Bytes → Ring → Ring
note_file path r = record {
  head = (r.head + 1) % 2 ^ 32;
  slots = λ i. if i == r.head % fr_n then take 159 path else r.slots i;
}

-- A slot that is empty is not shown.
abbrev pub some_path : Bytes → List Bytes
some_path [] = []
some_path (c ∷ cs) = (c ∷ cs) ∷ []

-- fr_dump: the loop over `k`, from `n` on.
unfoldable pub dump_files : ℕ → Ring → List Bytes
dump_files zero r = []
dump_files (suc k) r =
    let path = r.slots ((r.head + 2 ^ 32 - suc k) % 2 ^ 32 % fr_n) in
    let rest = dump_files k r in some_path path ++ rest

-- The calls for a history of paths, the newest first.
unfoldable pub noted : List Bytes → Ring
unfolding note_file
noted [] = no_files
noted (path ∷ older) = note_file path (noted older)

head-noted : (h : List Bytes) → (noted h).head ≡ length h % 2 ^ 32
unfolding noted
head-noted [] = refl
head-noted (path ∷ older) = omega (arith, head-noted older)

-- What the slot holds that was written `k` + 1 calls ago.
slot-noted :
    (h : List Bytes) (k : ℕ)
    → k < fr_n
    → (noted h).slots (((noted h).head + 2 ^ 32 - suc k) % 2 ^ 32 % fr_n) ≡ take 159 (get_or h k [])
unfolding noted
slot-noted [] k l = refl
slot-noted (path ∷ older) zero l = ground (arith, head-noted older)
slot-noted (path ∷ older) (suc k) l = ground (arith, slot-noted older k)

-- The paths that are shown of a history, the oldest first.
unfoldable pub oldest_first : List Bytes → List Bytes
oldest_first [] = []
oldest_first (path ∷ older) = oldest_first older ++ some_path (take 159 path)

oldest_first-take :
    (h : List Bytes) (k : ℕ)
    → oldest_first (take (suc k) h)
      ≡ some_path (take 159 (get_or h k [])) ++ oldest_first (take k h)
unfolding oldest_first
oldest_first-take [] zero = refl
oldest_first-take [] (suc k) = refl
oldest_first-take (path ∷ older) zero = rw append-nil
oldest_first-take (path ∷ older) (suc k) = simp (oldest_first-take older k, append_assoc)

dump_noted : (h : List Bytes) (n : ℕ) → n ≤ fr_n → dump_files n (noted h) ≡ oldest_first (take n h)
unfolding dump_files oldest_first
dump_noted h zero l = refl
dump_noted h (suc n) l =
    ap₂ (λ p q. some_path p ++ q) (slot-noted h n (omega arith)) (dump_noted h n (omega arith))
    ∙ sym (oldest_first-take h n)

-- The report of the files shows the last 16 that were opened, the oldest first, each cut to 159
-- characters, whatever was opened before.
pub dump_files-noted : (h : List Bytes) → dump_files fr_n (noted h) ≡ oldest_first (take 16 h)
dump_files-noted h = dump_noted h 16 (omega arith)

-- g_ft, the newest first, and g_ftn.
pub record Handles : Type 0 where
  pub count : ℕ
  pub entries : List (ℕ × (Bytes × Bool))

abbrev pub ft_max : ℕ
ft_max = 8192

abbrev pub invalid_handle : ℕ
invalid_handle = 2 ^ 64 - 1

-- wcsrchr of a dot, and what follows.
unfoldable pub extension : Bytes → Option Bytes
extension [] = none
extension (c ∷ cs) = elim (extension cs) [
  | some e ↦ some e
  | none ↦ if c == b'.' then some (c ∷ cs) else none
]

-- A path with an extension, whatever its case.
abbrev pub ends_in : Bytes → Option Bytes → Bool
ends_in e none = false
ends_in e (some x) = dll_eq x e

-- ft_record of a path that is there.
unfoldable pub ft_record : ℕ → Bytes → Handles → Handles
unfolding extension
ft_record h path t =
    let x = extension path in
    let is_text = ends_in (codes ".log") x || ends_in (codes ".txt") x in
    let entry : ℕ × (Bytes × Bool) = (h, (take 259 path, is_text)) in
    if h == invalid_handle then t else record {
      count = t.count + 1;
      entries = if leb ft_max t.count then t.entries else entry ∷ t.entries;
    }

-- ft_find, with what is read of the entry.
unfoldable pub ft_find : ℕ → List (ℕ × (Bytes × Bool)) → Option (Bytes × Bool)
ft_find h [] = none
ft_find h (e ∷ es) = if e.0 == h then some e.1 else ft_find h es

-- ft_is_pkg and ft_is_text
unfoldable pub ft_is_pkg : ℕ → Handles → Bool
unfolding ft_find extension
ft_is_pkg h t = elim (ft_find h t.entries) [
  | none ↦ false
  | some e ↦ ends_in (codes ".upk") (extension e.0)
]

unfoldable pub ft_is_text : ℕ → Handles → Bool
unfolding ft_find
ft_is_text h t = elim (ft_find h t.entries) [ none ↦ false | some e ↦ e.1 ]

-- The table for a history of opened files, the newest first.
unfoldable pub recorded : List (ℕ × Bytes) → Handles
unfolding ft_record
recorded [] = record { count = 0; entries = [] }
recorded ((h, path) ∷ older) = ft_record h path (recorded older)

unfoldable pub newest : ℕ → List (ℕ × Bytes) → Option Bytes
newest h [] = none
newest h ((h', path) ∷ older) = if h' == h then some (take 259 path) else newest h older

abbrev pub found_path : Option (Bytes × Bool) → Option Bytes
found_path none = none
found_path (some e) = some e.0

count-recorded : (l : List (ℕ × Bytes)) → (recorded l).count ≤ length l
unfolding recorded
count-recorded [] = omega arith
count-recorded ((h, path) ∷ older) = ground (arith, count-recorded older)

-- While at most 8192 files have been opened, a handle is taken for the newest file that was opened
-- with it, though Windows gives the same value to one file after another.
pub ft_find-recorded :
    (l : List (ℕ × Bytes)) (h : ℕ)
    → length l ≤ ft_max
    → h ≢ invalid_handle
    → found_path (ft_find h (recorded l).entries) ≡ newest h l
unfolding recorded newest ft_find ft_record
ft_find-recorded [] h s v = refl
ft_find-recorded ((h', path) ∷ older) h s v =
    ground (arith, count-recorded older, ft_find-recorded older h)
