-- ===== src/Callbacks/Answered.antt =====
-- The imports that are answered without a call of the host, or not always with one: hle_message_box,
-- hle_load_library, hle_ip_renew, hle_no_thread_pump and hle_dinput8_create of src/runtime/hle_callback.c.
use systemes3recomp.Prelude.{
  ℕ, ◌+◌, ◌*◌, ◌%◌, ◌^◌, ◌≡◌, refl, Bool, false, not, ◌&&◌, ◌||◌, ◌==◌, if◌then◌else◌, Option, none,
  some, [], ◌∷◌, ◌++◌, length, get_or, Bytes, arith,
}
use systemes3recomp.Memory.{copy_in, copy_out}
use systemes3recomp.Jvs.{codes}
use systemes3recomp.Hle.{lower, same_text, dll_eq}
use systemes3recomp.Callbacks.{Guest, eax, esp, set, ret}

-- The answer of an import that takes `n` arguments off the stack.
unfoldable pub answer : ℕ → ℕ → Guest → Guest
answer n v c = record c { gpr = set esp ((c.gpr esp + 4 + 4 * n) % 2 ^ 32) (set eax v c.gpr) }

-- hle_message_box, where `show` says that ES3_MODAL is set.
unfoldable pub message_box : Bool → (Guest → Guest) → Guest → Guest
unfolding answer
message_box show native c = if show then native c else answer 4 1 c

-- hle_ip_renew, where `allow` says that ES3_ALLOW_DHCP is set.
unfoldable pub ip_renew : Bool → (Guest → Guest) → Guest → Guest
unfolding answer
ip_renew allow native c = if allow then native c else answer 1 0 c

-- hle_no_thread_pump: E_FAIL. The stack is hle_call's.
unfoldable pub no_thread_pump : Guest → Guest
no_thread_pump c = ret 0x80004005 c

-- strrchr(name, sep), and what is behind it.
unfoldable pub behind_last : ℕ → Bytes → Option Bytes
behind_last sep [] = none
behind_last sep (c ∷ cs) = elim (behind_last sep cs) [
  | some rest ↦ some rest
  | none ↦ if c == sep then some cs else none
]

unfoldable pub leaf_of : Bytes → Bytes
leaf_of name = elim (behind_last 0x5c name) [
  | some leaf ↦ leaf
  | none ↦ elim (behind_last b'/' name) [ some leaf ↦ leaf | none ↦ name ]
]

-- _strnicmp(s, prefix, strlen(prefix)) == 0, and what is behind the prefix.
unfoldable pub behind_prefix : Bytes → Bytes → Option Bytes
behind_prefix [] s = some s
behind_prefix (p ∷ ps) [] = none
behind_prefix (p ∷ ps) (c ∷ cs) = if lower p == lower c then behind_prefix ps cs else none

unfoldable pub is_named : Bytes → Bytes → Bool
is_named emulator leaf = elim (behind_prefix emulator leaf) [
  | none ↦ false
  | some rest ↦ length rest == 0 || dll_eq rest (codes ".dll")
]

-- refuse_io_emulator. `given` says that ES3_NO_IO_EMULATOR is set; none is a name that cannot be read.
unfoldable pub refuse_io_emulator : Bool → Option Bytes → Bool
refuse_io_emulator given none = false
refuse_io_emulator given (some name) =
    let leaf = leaf_of name in
    given
    && (is_named (codes "JVSEmuMK") leaf
        || is_named (codes "JVSEmu") leaf
        || is_named (codes "jvsemu") leaf)

-- hle_load_library: the guest, and whether the code is compared with its snapshot afterwards.
unfoldable pub load_library : Bool → Option Bytes → (Guest → Guest) → Guest → Guest × Bool
unfolding refuse_io_emulator answer
load_library given name native c =
    let c' = native c in
    if refuse_io_emulator given name then (answer 1 0 c, false) else (c', not (c'.gpr eax == 0))

-- file_trace_boring. `all` says that ES3_TRACE_FILES_ALL is set.
abbrev pub skip_dots : Bytes → Bytes
skip_dots [] = []
skip_dots (c ∷ cs) = if c == b'.' || c == b'/' || c == 0x5c then skip_dots cs else c ∷ cs

unfoldable pub file_trace_boring : Bool → Bytes → Bool
file_trace_boring all name =
    let n = skip_dots name in
    let at = λ (i : ℕ). get_or n i 0 in
    not all
    && (at 0 == b'D' || at 0 == b'd')
    && at 1 == b'a'
    && at 2 == b't'
    && at 3 == b'a'
    && (at 4 == b'/' || at 4 == 0x5c)

-- hle_dinput8_create. `at` is g_di8_addr, `orig` g_di8_orig, `keep` says that ES3_KEEP_DINPUT_DETOUR is
-- set, and `writable` whether VirtualProtect allows it.
unfoldable pub dinput8_create : ℕ → Bytes → Bool → Bool → (Guest → Guest) → Guest → Guest
dinput8_create at orig keep writable native c =
    let detoured = not (same_text (copy_out c.memory at (length orig)) orig) in
    native (
      if not (at == 0) && not keep && detoured && writable
      then record c { memory = copy_in c.memory at orig }
      else c)

-- A text with no such character.
abbrev pub Without : ℕ → Bytes → Type 0
Without sep s = behind_last sep s ≡ none

behind_last-append :
    (sep : ℕ) (dir leaf : Bytes)
    → Without sep leaf
    → behind_last sep (dir ++ (sep ∷ leaf)) ≡ some leaf
unfolding behind_last
behind_last-append sep [] leaf h = rw h (ground arith)
behind_last-append sep (c ∷ dir) leaf h = rw (behind_last-append sep dir leaf h) refl

leaf_of-folder :
    (dir leaf : Bytes)
    → Without 0x5c leaf
    → Without b'/' leaf
    → leaf_of (dir ++ (0x5c ∷ leaf)) ≡ leaf_of leaf
unfolding leaf_of
leaf_of-folder dir leaf h k = ground (arith, behind_last-append 0x5c dir leaf h, h, k)

-- The emulator is refused or not by the library's own name, in whatever folder it is looked for.
pub refuse_io_emulator-folder :
    (given : Bool) (dir leaf : Bytes)
    → Without 0x5c leaf
    → Without b'/' leaf
    → refuse_io_emulator given (some (dir ++ (0x5c ∷ leaf))) ≡ refuse_io_emulator given (some leaf)
unfolding refuse_io_emulator
refuse_io_emulator-folder given dir leaf h k = rw (leaf_of-folder dir leaf h k) refl
