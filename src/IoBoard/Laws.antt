-- ===== src/IoBoard/Laws.antt =====
-- What the game can rely on when it looks for the USB I/O board (src/runtime/hle_callback.c).
use systemes3recomp.Prelude.{
  ℕ, ◌+◌, ◌-◌, ◌/◌, ◌%◌, ◌^◌, ◌≤◌, ◌<◌, ◌≡◌, ◌≢◌, inl, inr, refl, sym, subst, ◌∙◌, Bool, not, true,
  false, none, some, List, [], ◌∷◌, length, length-take, take, min, All, Bytes, ltb, ◌==◌,
  if◌then◌else◌, Bool-cases, Option-cases, arith,
}
use systemes3recomp.IoBoard.{
  Write, byte, half, word, block, Reads, Node, no_port, new_scan, claim, claim_writes, descriptor,
  descriptor_of, copy_descriptor, copy_descriptor, optional_word, get_sibling,
}

-- A question about a port of a hub, as hle_device_io_control passes it on.
pub record Question : Type 0 where
  pub reads : Reads
  pub hub : ℕ
  pub port : ℕ
  pub buf : ℕ
  pub len : ℕ

abbrev pub has_port : Node → Bool
has_port s = not (s.port == no_port)

abbrev is_empty : List Write → Bool
is_empty [] = true
is_empty (w ∷ ws) = false

-- The state behind questions in their order, and how many of them were told of the board.
unfoldable pub ask_all : Bool → List Question → Node → Node × ℕ
unfolding claim claim_writes
ask_all on [] s = (s, 0)
ask_all on (q ∷ qs) s =
    let (s', ws) = claim on q.reads q.hub q.port q.buf q.len s in
    let (last, n) = ask_all on qs s' in (last, if is_empty ws then n else n + 1)

ask_none : (on : Bool) (qs : List Question) (s : Node) → s.port ≢ no_port → ask_all on qs s ≡ (s, 0)
unfolding ask_all
ask_none on [] s e = refl
ask_none on (q ∷ qs) s e = ground (arith, ask_none on qs s e)

asked_once :
    (on : Bool) (qs : List Question) (s : Node)
    → s.port ≡ no_port
    → All (λ q. q.port < no_port) qs
    → ((ask_all on qs s).1 ≤ 1) × (has_port (ask_all on qs s).0 ≡ ((ask_all on qs s).1 == 1))
unfolding ask_all
asked_once on [] s e v = (omega arith, ground arith)
asked_once on (q ∷ qs) s e (v, vs) =
    let next : Node = record s { port = q.port; hub = q.hub } in
    let later : ask_all on qs next ≡ (next, 0) = ask_none on qs next (omega arith) in
    (
      ground (arith, later, (asked_once on qs s e vs).0),
      ground (arith, later, (asked_once on qs s e vs).1),
    )

-- In one scan, however the hubs and their ports are asked about, the board is put at one port at most,
-- and it is at a port then just if one question was told of it. No port asked about is 0xffffffff, which
-- stands for no port.
pub ask_all-once :
    (on : Bool) (qs : List Question) (s : Node)
    → All (λ q. q.port < no_port) qs
    → ((ask_all on qs (new_scan s)).1 ≤ 1)
      × (has_port (ask_all on qs (new_scan s)).0 ≡ ((ask_all on qs (new_scan s)).1 == 1))
unfolding new_scan
ask_all-once on qs s v = asked_once on qs (record s { port = no_port; hub = 0 }) refl v

-- A write that stays within the buffer of the answer, or tells how long it is.
abbrev pub Within : ℕ → ℕ → ℕ → Write → Type 0
Within outbuf outlen bytesret (byte at v) = ⊥
Within outbuf outlen bytesret (half at v) = ⊥
Within outbuf outlen bytesret (word at v) = (at ≡ bytesret) × (v ≤ outlen)
Within outbuf outlen bytesret (block at bs) =
    (outbuf + 12 ≤ at) × (at + length bs ≤ outbuf + outlen)

some-ne-none {ℓ} : {A : Type ℓ} {a : A} → some a ≡ none → ⊥
some-ne-none e = cc

some-inj {ℓ} : {A : Type ℓ} {a b : A} → some a ≡ some b → a ≡ b
some-inj e = cc

optional-Within :
    (outbuf outlen bytesret v : ℕ)
    → v ≤ outlen
    → All (Within outbuf outlen bytesret) (optional_word bytesret v)
optional-Within outbuf outlen bytesret v h = elim (Bool-cases (bytesret == 0)) [
  | inl e ↦ rw e tt
  | inr e ↦ rw e ((refl, h), tt)
]

copy_fits :
    (src : Bytes) (asked outbuf outlen bytesret : ℕ)
    → ltb outlen 12 ≡ false
    → copy_descriptor src asked outbuf outlen bytesret
      ≡ some (
          block (outbuf + 12) (take (min (min asked (length src)) (outlen - 12)) src)
          ∷ optional_word bytesret (12 + min (min asked (length src)) (outlen - 12)))
unfolding copy_descriptor
copy_fits src asked outbuf outlen bytesret fits = rw fits refl

copy-Within :
    (src : Bytes) (asked outbuf outlen bytesret : ℕ) (ws : List Write)
    → copy_descriptor src asked outbuf outlen bytesret ≡ some ws
    → All (Within outbuf outlen bytesret) ws
unfolding copy_descriptor
copy-Within src asked outbuf outlen bytesret ws e = elim (Bool-cases (ltb outlen 12)) [
  | inl short ↦ absurd (some-ne-none (sym e ∙ rw short refl))
  | inr fits ↦
      let n : ℕ = min (min asked (length src)) (outlen - 12) in
      subst (All (Within outbuf outlen bytesret))
        (some-inj (sym (copy_fits src asked outbuf outlen bytesret fits) ∙ e))
        (
          (omega arith, ground (arith, length-take n src)),
          optional-Within outbuf outlen bytesret (12 + n) (ground arith),
        )
]

-- Whatever descriptor is asked for and however long the buffer is said to be, the answer stays within
-- the buffer and tells no more bytes than it has.
pub descriptor-Within :
    (on : Bool) (r : Reads) (s : Node) (hub inbuf outbuf outlen bytesret : ℕ) (ws : List Write)
    → descriptor on r s hub inbuf outbuf outlen bytesret ≡ some ws
    → All (Within outbuf outlen bytesret) ws
unfolding descriptor
descriptor-Within on r s hub inbuf outbuf outlen bytesret ws e =
    elim (Option-cases (descriptor_of (r.rd16 (inbuf + 6) / 2 ^ 8) (r.rd16 (inbuf + 6) % 2 ^ 8))) [
      | inl none_such ↦ absurd (ground (arith, none_such))
      | inr (src, found) ↦
          copy-Within src (r.rd16 (inbuf + 10)) outbuf outlen bytesret ws (ground (arith, found))
    ]

-- The device tree is walked by calls for siblings; how many of them are told of the board.
pub record Sibling : Type 0 where
  pub out : ℕ
  pub node : ℕ
  pub eax : ℕ

unfoldable pub walk : Bool → List Sibling → Node → ℕ
unfolding get_sibling
walk on [] s = 0
walk on (q ∷ qs) s =
    let (s', told) = get_sibling on s q.out q.node q.eax in
    let n = walk on qs s' in if is_empty told.1 then n else n + 1

walk_given : (on : Bool) (qs : List Sibling) (s : Node) → s.given ≡ true → walk on qs s ≡ 0
unfolding walk
walk_given on [] s g = refl
walk_given on (q ∷ qs) s g = ground (arith, walk_given on qs s g)

-- However the tree is walked, the board's node is handed out once at most for a driver key that was
-- asked for, so the walk cannot go round.
pub walk-once : (on : Bool) (qs : List Sibling) (s : Node) → walk on qs s ≤ 1
unfolding walk
walk-once on [] s = omega arith
walk-once on (q ∷ qs) s =
    ground (arith, walk-once on qs s, walk_given on qs (record s { given = true }) refl)
