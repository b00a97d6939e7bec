-- ===== src/Allnet/Request/Heads.antt =====
-- However a request is cut into pieces, the ALL.Net server reads its head and answers its path.
use systemes3recomp.Prelude.{
  ℕ, zero, suc, ◌-◌, ◌≤◌, ◌<◌, ◌≡◌, ◌≢◌, inl, inr, refl, sym, ap, subst, ◌∙◌, true, false, some, [],
  ◌∷◌, ◌++◌, append_assoc, length, take, drop, length-take, All, All-append, Bytes, leb, Bool-cases,
  arith,
}
use systemes3recomp.Text.{c_string}
use systemes3recomp.Text.Search.{
  split_at-append, contains_without, All-c_string, c_string-append, cut_twice,
}
use systemes3recomp.Allnet.Request.{Arrivals, recv, req_size, has_end, read_head, path_of}

-- All that arrives, in one piece.
abbrev pub joined : Arrivals → Bytes
joined [] = []
joined (c ∷ cs) = c ++ joined cs

take-append-drop : (k : ℕ) (bs : Bytes) → take k bs ++ drop k bs ≡ bs
take-append-drop zero bs = refl
take-append-drop (suc k) [] = refl
take-append-drop (suc k) (b ∷ bs) = ap (◌∷◌ b) (take-append-drop k bs)

-- A call of recv takes from the front.
pub recv-joined :
    (room : ℕ) (conn : Arrivals) → (recv room conn).0 ++ joined (recv room conn).1 ≡ joined conn
unfolding recv
recv-joined room [] = refl
recv-joined room (c ∷ cs) = elim (Bool-cases (leb (length c) room)) [
  | inl e ↦ rw e refl
  | inr e ↦ rw e (
      sym (append_assoc (take room c) (drop room c) (joined cs))
      ∙ ap (λ (x : Bytes). x ++ joined cs) (take-append-drop room c))
]

recv-le : (room : ℕ) (conn : Arrivals) → length (recv room conn).0 ≤ room
unfolding recv
recv-le room [] = omega arith
recv-le room (c ∷ cs) = ground (arith, length-take room c)

-- What is read and what is left make up what arrived.
read_head-joined :
    (f : ℕ) (got : Bytes) (conn : Arrivals) (req : Bytes) (rest : Arrivals)
    → read_head f got conn ≡ some (req, rest)
    → (req ++ joined rest ≡ got ++ joined conn) × (has_end req ≡ true)
unfolding read_head
read_head-joined zero got conn req rest e = cc
read_head-joined (suc f) got conn req rest e =
    let room : ℕ = req_size - 1 - length got in
    let piece : Bytes = (recv room conn).0 in
    let left : Arrivals = (recv room conn).1 in
    let kept : (got ++ piece) ++ joined left ≡ got ++ joined conn =
      append_assoc got piece (joined left) ∙ ap (◌++◌ got) (recv-joined room conn) in
    ground (arith, kept, read_head-joined f (got ++ piece) left req rest)

-- A text with no NUL and no carriage return holds no blank line.
no_end : (s : Bytes) → All (λ b. b ≢ 13) s → has_end s ≡ false
no_end s a = contains_without 13 (10 ∷ 13 ∷ 10 ∷ []) (c_string s) (All-c_string (λ b. b ≢ 13) s a)

All-front : (P : ℕ → Type 0) (s t : Bytes) → All P (s ++ t) → All P s
All-front P [] t a = tt
All-front P (b ∷ s) t a = (a.0, All-front P s t a.1)

-- The front of a head: its verb, its path, and the spaces behind them.
abbrev pub front : Bytes → Bytes → Bytes
front verb path = verb ++ (b' ' ∷ (path ++ (b' ' ∷ [])))

front-append :
    (verb path more : Bytes) → front verb path ++ more ≡ verb ++ (b' ' ∷ (path ++ (b' ' ∷ more)))
front-append verb path more =
    append_assoc verb (b' ' ∷ (path ++ (b' ' ∷ []))) more
    ∙ ap (λ (x : Bytes). verb ++ (b' ' ∷ x)) (append_assoc path (b' ' ∷ []) more)

-- A verb and a path hold no space, no NUL and no carriage return.
abbrev pub IsWord : ℕ → Type 0
IsWord b = (b ≢ b' ') × (b ≢ 0) × (b ≢ 13)

All-imp : (P Q : ℕ → Type 0) (s : Bytes) → ((b : ℕ) → P b → Q b) → All P s → All Q s
All-imp P Q [] f a = tt
All-imp P Q (b ∷ s) f a = (f b a.0, All-imp P Q s f a.1)

-- Up to its NUL, such a text is the front and more.
c_string-front :
    (verb path more : Bytes)
    → All IsWord verb
    → All IsWord path
    → c_string (front verb path ++ more) ≡ verb ++ (b' ' ∷ (path ++ (b' ' ∷ c_string more)))
unfolding c_string
c_string-front verb path more v p =
    ap c_string (front-append verb path more)
    ∙ c_string-append verb (b' ' ∷ (path ++ (b' ' ∷ more))) (All-imp IsWord _ verb (λ b w. w.1) v)
    ∙ ap (λ (x : Bytes). verb ++ (b' ' ∷ x))
        (c_string-append path (b' ' ∷ more) (All-imp IsWord _ path (λ b w. w.1) p))

path_of-front :
    (verb path more : Bytes)
    → All IsWord verb
    → All IsWord path
    → 0 < length path
    → length path < 256
    → path_of (front verb path ++ more) ≡ path
unfolding path_of
path_of-front verb path more v p lo hi = ground (
  arith,
  c_string-front verb path more v p,
  split_at-append b' ' verb (path ++ (b' ' ∷ c_string more)) (All-imp IsWord _ verb (λ b w. w.0) v),
  split_at-append b' ' path (c_string more) (All-imp IsWord _ path (λ b w. w.0) p),
)

front-no_end :
    (verb path : Bytes) → All IsWord verb → All IsWord path → All (λ b. b ≢ 13) (front verb path)
front-no_end verb path v p =
    All-append (λ b. b ≢ 13) verb (b' ' ∷ (path ++ (b' ' ∷ [])))
      (All-imp IsWord _ verb (λ b w. w.2) v)
      (
        omega arith,
        All-append (λ b. b ≢ 13) path (b' ' ∷ []) (All-imp IsWord _ path (λ b w. w.2) p)
            (omega arith, tt),
      )

-- However a request is cut into pieces, the path that serve takes is the one between its first two
-- spaces: where the verb and the path hold no space, NUL or carriage return, and the path has
-- between 1 and 255 characters.
pub read_head-path_of :
    (verb path more : Bytes) (conn : Arrivals) (req : Bytes) (rest : Arrivals)
    → All IsWord verb
    → All IsWord path
    → 0 < length path
    → length path < 256
    → joined conn ≡ front verb path ++ more
    → read_head req_size [] conn ≡ some (req, rest)
    → path_of req ≡ path
read_head-path_of verb path more conn req rest v p lo hi j e =
    let (whole, ended) = read_head-joined req_size [] conn req rest e in
    elim (cut_twice req (joined rest) (front verb path) more (whole ∙ j)) [
      | inl (z, short, _) ↦
          let clean : All (λ b. b ≢ 13) (req ++ z) =
            subst (All (λ b. b ≢ 13)) short (front-no_end verb path v p) in
          let none_yet : has_end req ≡ false = no_end req (All-front (λ b. b ≢ 13) req z clean) in
          absurd (cc)
      | inr (z, long, _) ↦ ap path_of long ∙ path_of-front verb path z v p lo hi
    ]
