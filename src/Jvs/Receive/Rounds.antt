-- ===== src/Jvs/Receive/Rounds.antt =====
-- The rounds of consume_input: they end, and one packet is one round.
use systemes3recomp.Prelude.{
  ℕ, zero, suc, ◌+◌, ◌%◌, ◌≤◌, ◌<◌, ◌≡◌, ◌≢◌, refl, sym, ◌∙◌, ◌⊎◌, inl, inr, true, false, ltb,
  Bool-cases, Bytes, [], ◌∷◌, ◌++◌, length, length-append, arith,
}
use native.Mathlib.Decide.{dec_lt, ℕ_discrete}
use systemes3recomp.Jvs.{Port, Switches, escape}
use systemes3recomp.Jvs.Command.{Outcome, answered, unanswered, undefined}
use systemes3recomp.Jvs.Receive.{
  Scan, cut, ended, whole, scan, size_of, is_whole, find_sync, after_sync, packet, Consumed,
  consumed, faulted, starved, consume, consume_input,
}
use systemes3recomp.Jvs.Receive.Scanning.{took, scan_plain, scan_escaped, scan_full, scan-cut}

pub find_sync_le : (bs : Bytes) → length (find_sync bs) ≤ length bs
unfolding find_sync
find_sync_le [] = omega arith
find_sync_le (b ∷ bs) = ground (arith, find_sync_le bs)

pub after_sync_lt : (bs : Bytes) → (ltb (length bs) 3) ≡ false → length (after_sync bs) < length bs
after_sync_lt [] h = ground arith
after_sync_lt (b ∷ bs) h = omega arith

-- The packet is not complete yet.
abbrev pub IsPartial : Bytes → ℕ → Type 0
IsPartial body size = (size ≡ 0) ⊎ (length body < size + 2)

-- What the un-escaping loop promises of `k` bytes: it leaves no more than those, and ends by its
-- bounds only when the packet is not complete.
abbrev pub Promised : ℕ → Scan → Type 0
Promised k cut = Unit
Promised k (ended body size) = IsPartial body size
Promised k (whole body size rest) = length rest ≤ k

grown-IsPartial :
    (b : ℕ) (body : Bytes) (size : ℕ)
    → IsPartial body size
    → is_whole (body ++ (b ∷ [])) (size_of (body ++ (b ∷ [])) size) ≡ false
    → IsPartial (body ++ (b ∷ [])) (size_of (body ++ (b ∷ [])) size)
unfolding is_whole size_of
grown-IsPartial b body size h w = ground (arith, length-append body (b ∷ []))

took-Promised :
    (k b : ℕ) (rest body : Bytes) (size : ℕ)
    → IsPartial body size
    → length rest ≤ k
    → (IsPartial (body ++ (b ∷ [])) (size_of (body ++ (b ∷ [])) size)
        → Promised k (scan rest (body ++ (b ∷ [])) (size_of (body ++ (b ∷ [])) size)))
    → Promised k (took b rest body size)
took-Promised k b rest body size i h later =
    elim (Bool-cases (is_whole (body ++ (b ∷ [])) (size_of (body ++ (b ∷ [])) size))) [
      | inl yes' ↦ rw yes' h
      | inr no' ↦ rw no' (later (grown-IsPartial b body size i no'))
    ]

pub scan-Promised :
    (bs body : Bytes) (size k : ℕ)
    → IsPartial body size
    → length bs ≤ k
    → Promised k (scan bs body size)
scan-Promised [] body size k i h = unfold scan in i
scan-Promised (x ∷ []) body size k i h = elim (dec_lt (length body) 256) [
  | no full ↦ rw (scan_full x [] body size (omega arith)) i
  | yes room ↦ elim (ℕ_discrete x escape) [
    | yes e ↦ rw (e, scan-cut body size room) tt
    | no ne ↦ rw (scan_plain x [] body size room ne) (
        took-Promised k x [] body size i (omega arith)
          (λ j. scan-Promised [] _ _ k j (omega arith)))
  ]
]
scan-Promised (x ∷ y ∷ ys) body size k i h = elim (dec_lt (length body) 256) [
  | no full ↦ rw (scan_full x (y ∷ ys) body size (omega arith)) i
  | yes room ↦ elim (ℕ_discrete x escape) [
    | yes e ↦
        rw (e, scan_escaped y ys body size room)
          (took-Promised k ((y + 1) % 256) ys body size i (omega arith)
            (λ j. scan-Promised ys _ _ k j (omega arith)))
    | no ne ↦ rw (scan_plain x (y ∷ ys) body size room ne) (
        took-Promised k x (y ∷ ys) body size i (omega arith)
          (λ j. scan-Promised (y ∷ ys) _ _ k j (omega arith)))
  ]
]

-- On with the bytes behind a packet.
abbrev pub resume : (Port → Consumed) → Bytes → Outcome → Consumed
resume next rest (answered _ r) = next (record r { in_bytes = rest })
resume next rest (unanswered r) = next (record r { in_bytes = rest })
resume next rest undefined = faulted

pub resume_cong :
    (next other : Port → Consumed) (rest : Bytes)
    → ((r : Port) → next (record r { in_bytes = rest }) ≡ other (record r { in_bytes = rest }))
    → (o : Outcome) → resume next rest o ≡ resume other rest o
resume_cong next other rest h (answered _ r) = h r
resume_cong next other rest h (unanswered r) = h r
resume_cong next other rest h undefined = refl

resume-ne-starved :
    (next : Port → Consumed) (rest : Bytes)
    → ((r : Port) → next (record r { in_bytes = rest }) ≢ starved)
    → (o : Outcome) → resume next rest o ≢ starved
resume-ne-starved next rest h (answered _ r) = h r
resume-ne-starved next rest h (unanswered r) = h r
resume-ne-starved next rest h undefined = λ x. cc

module _ (stale : ℕ → ℕ) (s : Switches) where
  pub consume_short :
      (f : ℕ) (p : Port)
      → ltb (length (find_sync p.in_bytes)) 3 ≡ true
      → consume stale s (suc f) p ≡ consumed (record p { in_bytes = find_sync p.in_bytes })
  unfolding consume
  consume_short f p h = ground arith

  pub consume_whole :
      (f : ℕ) (p : Port) (body rest : Bytes) (size : ℕ)
      → ltb (length (find_sync p.in_bytes)) 3 ≡ false
      → scan (after_sync (find_sync p.in_bytes)) [] 0 ≡ whole body size rest
      → consume stale s (suc f) p
        ≡ resume
            (consume stale s f)
            rest
            (packet stale s body size (record p { in_bytes = find_sync p.in_bytes }))
  unfolding consume
  consume_whole f p body rest size h e = ground arith

  -- A packet that is not complete waits.
  pub consume_partial :
      (f : ℕ) (p : Port) (t : Scan)
      → scan (after_sync (find_sync p.in_bytes)) [] 0 ≡ t
      → (t ≡ cut) ⊎ ((body : Bytes) × (size : ℕ) × (t ≡ ended body size) × IsPartial body size)
      → consume stale s (suc f) p ≡ consumed (record p { in_bytes = find_sync p.in_bytes })
  unfolding consume
  consume_partial f p t e (inl h) = ground arith
  consume_partial f p t e (inr (body, size, h, i)) = ground arith

  -- One round, when the rounds after it agree.
  consume_round :
      (f g : ℕ) (p : Port) (t : Scan)
      → ((r : Port)
          → length r.in_bytes < f
          → length r.in_bytes < g
          → consume stale s f r ≡ consume stale s g r)
      → length p.in_bytes < suc f
      → length p.in_bytes < suc g
      → scan (after_sync (find_sync p.in_bytes)) [] 0 ≡ t
      → Promised (length (after_sync (find_sync p.in_bytes))) t
      → consume stale s (suc f) p ≡ consume stale s (suc g) p
  consume_round f g p cut ih hf hg e l =
      consume_partial f p cut e (inl refl) ∙ sym (consume_partial g p cut e (inl refl))
  consume_round f g p (ended body size) ih hf hg e l =
      consume_partial f p _ e (inr (body, size, refl, l))
      ∙ sym (consume_partial g p _ e (inr (body, size, refl, l)))
  consume_round f g p (whole body size rest) ih hf hg e l =
      elim (Bool-cases (ltb (length (find_sync p.in_bytes)) 3)) [
        | inl short ↦ consume_short f p short ∙ sym (consume_short g p short)
        | inr enough ↦
            let less = after_sync_lt (find_sync p.in_bytes) enough in
            let le = find_sync_le p.in_bytes in
            consume_whole f p body rest size enough e
            ∙ resume_cong (consume stale s f) (consume stale s g) rest
                (λ r. ih (record r { in_bytes = rest }) (omega arith) (omega arith)) _
            ∙ sym (consume_whole g p body rest size enough e)
      ]

  -- Any two amounts of fuel above the number of bytes give the same result.
  pub consume_fuel :
      (f g : ℕ) (p : Port)
      → length p.in_bytes < f
      → length p.in_bytes < g
      → consume stale s f p ≡ consume stale s g p
  consume_fuel zero g p hf hg = absurd (omega arith)
  consume_fuel (suc f) zero p hf hg = absurd (omega arith)
  consume_fuel (suc f) (suc g) p hf hg =
      consume_round f g p _ (λ r. consume_fuel f g r) hf hg refl
        (scan-Promised (after_sync (find_sync p.in_bytes)) [] 0 _ (inl refl) (omega arith))

  ends_round :
      (f : ℕ) (p : Port) (t : Scan)
      → ((r : Port) → length r.in_bytes < f → consume stale s f r ≢ starved)
      → length p.in_bytes < suc f
      → scan (after_sync (find_sync p.in_bytes)) [] 0 ≡ t
      → Promised (length (after_sync (find_sync p.in_bytes))) t
      → consume stale s (suc f) p ≢ starved
  ends_round f p cut ih h e l = rw (consume_partial f p cut e (inl refl)) (λ x. cc)
  ends_round f p (ended body size) ih h e l =
      rw (consume_partial f p _ e (inr (body, size, refl, l))) (λ x. cc)
  ends_round f p (whole body size rest) ih h e l =
      elim (Bool-cases (ltb (length (find_sync p.in_bytes)) 3)) [
        | inl short ↦ rw (consume_short f p short) (λ x. cc)
        | inr enough ↦
            let less = after_sync_lt (find_sync p.in_bytes) enough in
            let le = find_sync_le p.in_bytes in
            rw (consume_whole f p body rest size enough e) (
              resume-ne-starved (consume stale s f) rest
                (λ r. ih (record r { in_bytes = rest }) (omega arith)) _)
      ]

  -- With more fuel than bytes the rounds come to an end.
  consume-ne-starved : (f : ℕ) (p : Port) → length p.in_bytes < f → consume stale s f p ≢ starved
  consume-ne-starved zero p h = absurd (omega arith)
  consume-ne-starved (suc f) p h =
      ends_round f p _ (λ r. consume-ne-starved f r) h refl
        (scan-Promised (after_sync (find_sync p.in_bytes)) [] 0 _ (inl refl) (omega arith))

  -- consume_input comes to an end on every input: its rounds do not outlast the bytes.
  pub consume_input-ne-starved : (p : Port) → consume_input stale s p ≢ starved
  unfolding consume_input
  consume_input-ne-starved p = consume-ne-starved (suc (length p.in_bytes)) p (omega arith)
