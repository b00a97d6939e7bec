-- ===== src/Hle.antt =====
-- The imports of the game and what answers them: src/runtime/hle.c and src/runtime/hle_board.c. The
-- table of imports is generated for a game, and a parameter.
pub mod Binding
mod Tests
use systemes3recomp.Prelude.{
  ℕ, suc, ◌+◌, ◌%◌, ◌^◌, Bool, true, false, not, ◌&&◌, ◌||◌, leb, ltb, ◌==◌, if◌then◌else◌, Option,
  none, some, Bytes, List, [], ◌∷◌, length, get_or,
}
use systemes3recomp.Jvs.{codes}

-- An entry of g_names, g_dlls and g_purge; a purge of -1 is `none`.
pub record Import : Type 0 where
  pub name : Bytes
  pub dll : Bytes
  pub purge : Option ℕ

abbrev pub lower : ℕ → ℕ
lower c = if leb b'A' c && leb c b'Z' then c + 32 else c

-- strcmp(a, b) == 0
unfoldable pub same_text : Bytes → Bytes → Bool
same_text [] [] = true
same_text [] (b ∷ bs) = false
same_text (a ∷ as') [] = false
same_text (a ∷ as') (b ∷ bs) = (a == b) && same_text as' bs

-- dll_eq, and eq_nocase of hle_board.c.
unfoldable pub dll_eq : Bytes → Bytes → Bool
dll_eq [] [] = true
dll_eq [] (b ∷ bs) = false
dll_eq (a ∷ as') [] = false
dll_eq (a ∷ as') (b ∷ bs) = (lower a == lower b) && dll_eq as' bs

module _ {ℓ} {H : Type ℓ} where
  -- hle_bind: g_hle_handlers afterwards, and how many entries it bound.
  unfoldable pub bind : List Import → Bytes → H → List (Option H) → List (Option H) × ℕ
  bind [] name fn hs = (hs, 0)
  bind (i ∷ is') name fn [] = ([], 0)
  bind (i ∷ is') name fn (h ∷ hs) =
      let (rest, n) = bind is' name fn hs in
      if same_text i.name name then (some fn ∷ rest, n + 1) else (h ∷ rest, n)

  -- hle_bind_dll: the first entry only.
  unfoldable pub bind_dll :
      List Import → Bytes → Bytes → H → List (Option H) → List (Option H) × Bool
  bind_dll [] dll name fn hs = (hs, false)
  bind_dll (i ∷ is') dll name fn [] = ([], false)
  bind_dll (i ∷ is') dll name fn (h ∷ hs) =
      let (rest, found) = bind_dll is' dll name fn hs in
      if same_text i.name name && dll_eq i.dll dll then (some fn ∷ hs, true) else (h ∷ rest, found)

-- hle_purge
unfoldable pub purge_of : List Import → ℕ → Option ℕ
purge_of imports id =
    if ltb id (length imports)
    then (get_or imports id (record { name = []; dll = []; purge = none })).purge
    else none

-- hle_call, on the guest's esp and the rest of the state: none is abort().
unfoldable pub hle_call {ℓ} :
    {S : Type ℓ} → List Import → List (Option (ℕ × S → ℕ × S)) → ℕ → ℕ × S → Option (ℕ × S)
hle_call imports handlers id (esp, s) =
    if leb (length imports) id then none else elim (get_or handlers id none) [
      | none ↦ none
      | some handler ↦
          let (esp', s') = handler (esp, s) in
          elim (purge_of imports id) [
            | some n ↦ some ((esp + 4 + n) % 2 ^ 32, s')
            | none ↦ if esp' == esp then none else some (esp', s')
          ]
    ]

-- BOARD: the DLLs that are the cabinet.
abbrev pub board : List (Bytes × Bytes)
board =
    (codes "JVSEmuMK.dll", codes "JVS I/O - coins, wheel, pedals, buttons")
    ∷ (codes "JVSEmu.dll", codes "JVS I/O - coins, wheel, pedals, buttons")
    ∷ (codes "bngrw.dll", codes "Bandai Namco card reader/writer")
    ∷ (codes "Nbam_QR_Code.dll", codes "QR code encoder for the player's card")
    ∷ (codes "eOkaoCo.dll", codes "OMRON OKAO Vision - common")
    ∷ (codes "eOkaoDt.dll", codes "OMRON OKAO Vision - face detection")
    ∷ (codes "eOkaoPt.dll", codes "OMRON OKAO Vision - facial parts")
    ∷ (codes "eOkaoAg.dll", codes "OMRON OKAO Vision - age estimation")
    ∷ (codes "eOkaoGn.dll", codes "OMRON OKAO Vision - gender estimation")
    ∷ (codes "eOkaoSm.dll", codes "OMRON OKAO Vision - smile estimation")
    ∷ (codes "eOkaoPc.dll", codes "OMRON OKAO Vision - face contour")
    ∷ (codes "ipccl.dll", codes "IPC client (managed) - talks to the ShareK service")
    ∷ (codes "iauthdll.dll", codes "AMCUS authentication")
    ∷ []

-- The loop of hle_board_note.
unfoldable pub note_in : List (Bytes × Bytes) → Bytes → Option Bytes
note_in [] dll = none
note_in (b ∷ bs) dll = if dll_eq b.0 dll then some b.1 else note_in bs dll

unfoldable pub board_note : Bytes → Option Bytes
board_note dll = note_in board dll
