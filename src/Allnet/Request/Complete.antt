-- ===== src/Allnet/Request/Complete.antt =====
-- The ALL.Net server answers a request whose head is complete, however it is cut into pieces.
use systemes3recomp.Prelude.{
  ℕ, zero, suc, ◌+◌, ◌-◌, ◌<◌, ◌≡◌, ◌≢◌, ◌⊎◌, inl, inr, sym, ap, ◌∙◌, true, Option, none, some, [],
  ◌∷◌, ◌++◌, append-nil, append_assoc, length, length-append, length-take, length-drop, lt→ltb, All,
  Bytes, leb, ◌==◌, if◌then◌else◌, Bool-cases, Option-cases, arith,
}
use systemes3recomp.Text.{c_string, contains}
use systemes3recomp.Text.Search.{contains-append, c_string-append, cut_twice}
use systemes3recomp.Allnet.Reply.{Clock}
use systemes3recomp.Allnet.Request.{Arrivals, recv, req_size, blank_line, has_end, read_head, serve}
use systemes3recomp.Allnet.Request.Heads.{joined, recv-joined}

-- A head with its blank line, and the text so far.
ends_here :
    (h got : Bytes) (z : Bytes)
    → All (λ b. b ≢ 0) h
    → got ≡ (h ++ blank_line) ++ z
    → has_end got ≡ true
unfolding c_string
ends_here h got z a e =
    let text : Bytes = blank_line ++ z in
    ap has_end (e ∙ append_assoc h blank_line z)
    ∙ ap (contains blank_line) (c_string-append h text a)
    ∙ contains-append blank_line h (c_string z)

recv_grows :
    (room : ℕ) (p : Bytes) (ps : Arrivals)
    → 0 < room
    → 0 < length p
    → 0 < length (recv room (p ∷ ps)).0
unfolding recv
recv_grows room p ps r h = ground (arith, length-take room p)

recv_keeps :
    (room : ℕ) (p : Bytes) (ps : Arrivals)
    → All (λ c. 0 < length c) (p ∷ ps)
    → All (λ c. 0 < length c) (recv room (p ∷ ps)).1
unfolding recv
recv_keeps room p ps a = elim (Bool-cases (leb (length p) room)) [
  | inl e ↦ rw e (a.1)
  | inr e ↦ rw e (ground (arith, length-drop room p), a.1)
]

-- One round of the loop.
round_lem :
    (piece req : Bytes) (rest : Arrivals) (more : Option (Bytes × Arrivals))
    → 0 < length piece
    → (has_end req ≡ true) ⊎ (more ≢ none)
    → (if length piece == 0 then none else if has_end req then some (req, rest) else more) ≢ none
round_lem piece req rest more g (inl e) = ground arith
round_lem piece req rest more g (inr e) = ground arith

-- Text that starts with what arrives holds the blank line, or is shorter than the head.
ended_or_short :
    (h body req behind : Bytes)
    → All (λ b. b ≢ 0) h
    → req ++ behind ≡ (h ++ blank_line) ++ body
    → (has_end req ≡ true) ⊎ (length req < length h + 4)
ended_or_short h body req behind a e = elim (cut_twice req behind (h ++ blank_line) body e) [
  | inl ([], whole, _) ↦
      inl (
        ends_here h req [] a
          (sym (append-nil req) ∙ sym whole ∙ sym (append-nil (h ++ blank_line))))
  | inl (b ∷ z, whole, _) ↦
      inr (omega (arith, ap length whole, length-append req (b ∷ z), length-append h blank_line))
  | inr (z, longer, _) ↦ inl (ends_here h req z a longer)
]

reads_on :
    (f : ℕ) (h body got : Bytes) (conn : Arrivals)
    → All (λ b. b ≢ 0) h
    → All (λ c. 0 < length c) conn
    → length h + 4 < req_size
    → length got < length h + 4
    → length h + 4 < f + length got
    → got ++ joined conn ≡ (h ++ blank_line) ++ body
    → read_head f got conn ≢ none
unfolding read_head
reads_on zero h body got conn a c fits short fuel e = absurd (omega arith)
reads_on (suc f) h body got [] a c fits short fuel e = absurd (
    omega (
      arith,
      ap length e,
      length-append got [],
      length-append (h ++ blank_line) body,
      length-append h blank_line,
    ))
reads_on (suc f) h body got (p ∷ ps) a c fits short fuel e =
    let room : ℕ = req_size - 1 - length got in
    let piece : Bytes = (recv room (p ∷ ps)).0 in
    let left : Arrivals = (recv room (p ∷ ps)).1 in
    let kept : (got ++ piece) ++ joined left ≡ (h ++ blank_line) ++ body =
      append_assoc got piece (joined left) ∙ ap (◌++◌ got) (recv-joined room (p ∷ ps)) ∙ e in
    let grows : 0 < length piece = recv_grows room p ps (omega arith) c.0 in
    let longer : length (got ++ piece) ≡ length got + length piece = length-append got piece in
    rw (lt→ltb (length got) (req_size - 1) (omega arith)) (
      round_lem piece (got ++ piece) left (read_head f (got ++ piece) left) grows
        (elim (ended_or_short h body (got ++ piece) (joined left) a kept) [
          | inl ended ↦ inl ended
          | inr still ↦ inr (
              reads_on f h body (got ++ piece) left a (recv_keeps room p ps c) fits still
                (omega (arith, grows, longer)) kept)
        ]))

-- A request whose head and blank line fit the buffer, with no NUL in the head, is answered however
-- it is cut into pieces that are not empty, and whatever follows the head.
pub serve-answers :
    (limit : Option ℕ) (addr : Bytes) (t : Clock) (h body : Bytes) (conn : Arrivals)
    → All (λ b. b ≢ 0) h
    → All (λ c. 0 < length c) conn
    → length h + 4 < req_size
    → joined conn ≡ (h ++ blank_line) ++ body
    → serve limit addr t conn ≢ none
unfolding serve
serve-answers limit addr t h body conn a c fits e =
    elim (Option-cases (read_head req_size [] conn)) [
      | inl closed ↦
          absurd (reads_on req_size h body [] conn a c fits (omega arith) (omega arith) e closed)
      | inr (r, read) ↦ rw (read, serve) (λ s. cc)
    ]
