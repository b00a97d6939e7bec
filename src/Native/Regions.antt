-- ===== src/Native/Regions.antt =====
-- The cache of executable regions in es3_is_host_code, src/runtime/hle_native.c, against asking Windows
-- every time.
use systemes3recomp.Prelude.{
  ℕ, ◌+◌, ◌%◌, ◌^◌, ◌≤◌, ◌<◌, ◌≡◌, refl, ap₂, Bool, true, false, not, ◌&&◌, ◌||◌, ltb, leb,
  if◌then◌else◌, Option, none, some, List, [], ◌∷◌, ◌++◌, length, length-append, inl, inr,
  Bool-cases, Option-cases, arith,
}
use systemes3recomp.Native.{Query, Region, host_regions, is_cached, is_foreign, is_host_code}

-- What Windows says of an address.
abbrev pub is_code : (ℕ → Option Query) → ℕ → Bool
is_code query va = elim (query va) [ none ↦ false | some q ↦ q.committed && q.executable ]

-- A region is of one kind: what holds of an address in it holds of the others.
abbrev pub Uniform : (ℕ → Option Query) → Type 0
Uniform query =
    (va : ℕ) (q : Query)
    → query va ≡ some q
    → (q.committed && q.executable) ≡ true
    → (a : ℕ) → q.base ≤ a
    → a < (q.base + q.size) % 2 ^ 32
    → is_code query a ≡ true

-- The cache holds executable addresses only, and no more regions than there is room for.
pub record IsSound (query : ℕ → Option Query) (cache : List Region) : Type 0 where
  pub sound : (a : ℕ) → is_cached cache a ≡ true → is_code query a ≡ true
  pub bounded : length cache ≤ host_regions

is_cached-append :
    (rs : List Region) (r : Region) (a : ℕ)
    → is_cached (rs ++ (r ∷ [])) a ≡ (is_cached rs a || (leb r.lo a && ltb a r.hi))
unfolding is_cached
is_cached-append [] r a = ground arith
is_cached-append (x ∷ rs) r a = ground (arith, is_cached-append rs r a)

-- The questions in their order, each with what VirtualQuery would tell at the time: the answers, and the
-- cache behind them.
abbrev pub Question : Type 0
Question = (ℕ → Option Query) × ℕ

unfoldable pub ask_all : ℕ → ℕ → List Question → List Region → List Bool × List Region
unfolding is_host_code
ask_all base size [] cache = ([], cache)
ask_all base size ((query, va) ∷ qs) cache =
    let (b, cache') = is_host_code base size query va cache in
    let (bs, last) = ask_all base size qs cache' in (b ∷ bs, last)

-- The answers without a cache.
unfoldable pub answers : ℕ → ℕ → List Question → List Bool
answers base size [] = []
answers base size ((query, va) ∷ qs) =
    (is_foreign base size va && is_code query va) ∷ answers base size qs

-- What is executable at one time is at the next, from `query` on: nothing is unloaded or made
-- non-executable. At each time a region is of one kind.
abbrev pub Stays : (ℕ → Option Query) → (ℕ → Option Query) → Type 0
Stays query query' = (a : ℕ) → is_code query a ≡ true → is_code query' a ≡ true

abbrev pub AllStay : (ℕ → Option Query) → List Question → Type 0
AllStay query [] = Unit
AllStay query ((query', va) ∷ qs) = Stays query query' × Uniform query' × AllStay query' qs

IsSound-later :
    (query query' : ℕ → Option Query) (cache : List Region)
    → Stays query query'
    → IsSound query cache
    → IsSound query' cache
IsSound-later query query' cache stays s = record {
  sound = λ a h. stays a (s.sound a h);
  bounded = s.bounded;
}

module _ (base size : ℕ) (query : ℕ → Option Query) where
  is_host_code-answer :
      (va : ℕ) (cache : List Region)
      → IsSound query cache
      → (is_host_code base size query va cache).0 ≡ (is_foreign base size va && is_code query va)
  unfolding is_host_code
  is_host_code-answer va cache s = elim (Option-cases (query va)) [
    | inl e ↦ ground (arith, e, s.sound va)
    | inr (q, e) ↦ ground (arith, e, s.sound va)
  ]

  either :
      (b : Bool) (x y : Bool × List Region)
      → IsSound query x.1
      → IsSound query y.1
      → IsSound query (if b then x else y).1
  either true x y p q = p
  either false x y p q = q

  module _ (uniform : Uniform query) where
    append-IsSound :
        (va : ℕ) (q : Query) (cache : List Region)
        → IsSound query cache
        → query va ≡ some q
        → (q.committed && q.executable) ≡ true
        → length cache < host_regions
        → IsSound query (cache ++ (record { lo = q.base; hi = (q.base + q.size) % 2 ^ 32 } ∷ []))
    append-IsSound va q cache s e x room =
        let r : Region = record { lo = q.base; hi = (q.base + q.size) % 2 ^ 32 } in
        record {
          sound = λ a h. ground (arith, is_cached-append cache r a, s.sound a, uniform va q e x a);
          bounded = omega (arith, length-append cache (r ∷ []));
        }

    is_host_code-IsSound :
        (va : ℕ) (cache : List Region)
        → IsSound query cache
        → IsSound query (is_host_code base size query va cache).1
    unfolding is_host_code
    is_host_code-IsSound va cache s = either (not (is_foreign base size va)) _ _ s (
        either (is_cached cache va) _ _ s (elim (Option-cases (query va)) [
          | inl e ↦ rw e s
          | inr (q, e) ↦ elim (Bool-cases (not q.committed || not q.executable)) [
            | inl other ↦ rw (e, other) s
            | inr code ↦ elim (Bool-cases (ltb (length cache) host_regions)) [
              | inl room ↦
                  rw (e, code, room) (append-IsSound va q cache s e (ground arith) (ground arith))
              | inr full ↦ rw (e, code, full) s
            ]
          ]
        ]))

-- Whatever addresses are asked for, and in whatever order: if the cache is right at the start, no
-- executable region is unloaded or made non-executable on the way, and a region is of one kind
-- throughout, the cached answers are those that
-- Windows would give at each time, and the cache never outgrows its array.
pub ask_all-answers :
    (base size : ℕ) (query : ℕ → Option Query) (qs : List Question) (cache : List Region)
    → AllStay query qs
    → IsSound query cache
    → ((ask_all base size qs cache).0 ≡ answers base size qs)
      × (length (ask_all base size qs cache).1 ≤ host_regions)
unfolding ask_all answers
ask_all-answers base size query [] cache stay s = (refl, s.bounded)
ask_all-answers base size query ((query', va) ∷ qs) cache stay s =
    let now = IsSound-later query query' cache stay.0 s in
    let rest =
      ask_all-answers base size query' qs (is_host_code base size query' va cache).1 stay.2
        (is_host_code-IsSound base size query' stay.1 va cache now) in
    (ap₂ ◌∷◌ (is_host_code-answer base size query' va cache now) rest.0, rest.1)

-- An address in a cached region is still taken for code behind the region's unloading.
pub is_host_code_stale :
    (base size : ℕ) (query : ℕ → Option Query) (va : ℕ) (cache : List Region)
    → is_foreign base size va ≡ true
    → is_cached cache va ≡ true
    → is_code query va ≡ false
    → (is_host_code base size query va cache).0 ≡ true
unfolding is_host_code
is_host_code_stale base size query va cache f c n = rw (f, c) refl
