-- ===== src/Fifo/Refine.antt =====
-- A valid pipe is a queue of at most 4095 bytes.
use systemes3recomp.Prelude.{
  ℕ, zero, suc, ◌+◌, ◌-◌, ◌%◌, ◌<◌, ◌≡◌, refl, ap, ap₂, ◌∙◌, true, false, ◌==◌, ltb, if◌then◌else◌,
  Bool-cases, ltb→lt, inl, inr, Bytes, [], ◌∷◌, ◌++◌, length, take, drop, arith,
}
use systemes3recomp.Fifo.{Fifo, IsValid, fifo_size, store, push, avail, avail_wrapped, take_out}

-- The `n` bytes from index `h` on, going round at the end of the array.
abbrev window : (ℕ → ℕ) → ℕ → ℕ → Bytes
window f h zero = []
window f h (suc n) = f h ∷ window f ((h + 1) % fifo_size) n

-- What the pipe holds, oldest first.
unfoldable pub contents : Fifo → Bytes
unfolding avail
contents f = window f.out f.head (avail f)

length-window : (f : ℕ → ℕ) (h n : ℕ) → length (window f h n) ≡ n
length-window f h zero = refl
length-window f h (suc n) = ap suc (length-window f ((h + 1) % fifo_size) n)

window-store :
    (f : ℕ → ℕ) (b n h i : ℕ)
    → h < fifo_size
    → n < fifo_size
    → i ≡ (h + n) % fifo_size
    → window (store f i b) h (suc n) ≡ window f h n ++ (b ∷ [])
window-store f b zero h i hh hn e = ap (λ x. x ∷ []) (ground arith)
window-store f b (suc n) h i hh hn e =
    ap₂ ◌∷◌ (ground arith)
      (window-store f b n ((h + 1) % fifo_size) i (omega arith) (omega arith) (omega arith))

pub length-contents : (f : Fifo) → length (contents f) ≡ avail f
unfolding contents
length-contents f = length-window f.out f.head (avail f)

avail-push :
    {f : Fifo} (b : ℕ)
    → IsValid f
    → avail (push f b) ≡ (if ltb (avail f) 4095 then avail f + 1 else avail f)
unfolding avail push
avail-push b v = ground arith

pub push-IsValid : {f : Fifo} (b : ℕ) → IsValid f → IsValid (push f b)
unfolding push
push-IsValid b v = ground arith

-- Fewer than 4095 bytes wait exactly when the next index is not the head.
next-ne-head :
    {f : Fifo}
    → IsValid f
    → ((f.tail + 1) % fifo_size == f.head) ≡ (if ltb (avail f) 4095 then false else true)
unfolding avail
next-ne-head v = ground arith

push_full : {f : Fifo} (b : ℕ) → ((f.tail + 1) % fifo_size == f.head) ≡ true → push f b ≡ f
unfolding push
push_full b h = rw h

contents-push_room :
    {f : Fifo} (b : ℕ)
    → IsValid f
    → ((f.tail + 1) % fifo_size == f.head) ≡ false
    → avail f < 4095
    → contents (push f b) ≡ contents f ++ (b ∷ [])
unfolding contents push avail
contents-push_room {f} b v h room = rw h (
    ap (window (store f.out f.tail b) f.head)
      {x = ((f.tail + 1) % fifo_size + fifo_size - f.head) % fifo_size} {y = suc (avail f)}
      (omega arith)
    ∙ window-store f.out b (avail f) f.head f.tail v.head_in (omega arith) (omega arith))

-- out_push appends the byte at the end, or drops it when 4095 bytes wait.
pub push_refines :
    {f : Fifo} (b : ℕ)
    → IsValid f
    → contents (push f b)
      ≡ (if ltb (length (contents f)) 4095 then contents f ++ (b ∷ []) else contents f)
push_refines {f} b v = elim (Bool-cases (ltb (avail f) 4095)) [
  | inl room ↦
      rw (length-contents, room)
        (contents-push_room b v (rw room at (next-ne-head v)) (ltb→lt _ _ room))
  | inr full ↦ rw (length-contents, full, push_full b (rw full at (next-ne-head v)))
]

contents_empty : {f : Fifo} → IsValid f → (f.head == f.tail) ≡ true → contents f ≡ []
unfolding contents avail
contents_empty {f} v h =
    let e : (f.tail + fifo_size - f.head) % fifo_size ≡ 0 = ground arith in
    ap (window f.out f.head) e

contents_some :
    {f : Fifo}
    → IsValid f
    → (f.head == f.tail) ≡ false
    → contents f ≡ f.out f.head ∷ contents (record f { head = (f.head + 1) % fifo_size })
unfolding contents avail
contents_some {f} v h =
    let n = (f.tail + fifo_size - (f.head + 1) % fifo_size) % fifo_size in
    let e : (f.tail + fifo_size - f.head) % fifo_size ≡ suc n = ground arith in
    ap (window f.out f.head) e

take_out_done : (f : Fifo) (n : ℕ) → (f.head == f.tail) ≡ true → take_out f (suc n) ≡ ([], f)
unfolding take_out
take_out_done f n h = ground arith

take_out_more :
    (f : Fifo) (n : ℕ)
    → (f.head == f.tail) ≡ false
    → take_out f (suc n) ≡ (
        let (bs, g) = take_out (record f { head = (f.head + 1) % fifo_size }) n in
        (f.out f.head ∷ bs, g))
unfolding take_out
take_out_more f n h = ground arith

-- out_take hands over the oldest `n` bytes, or all of them if fewer wait, and leaves the rest.
pub take_out_refines :
    (n : ℕ) {f : Fifo}
    → IsValid f
    → ((take_out f n).0 ≡ take n (contents f))
      × (contents (take_out f n).1 ≡ drop n (contents f))
      × IsValid (take_out f n).1
take_out_refines zero v = unfold take_out in (refl, refl, v)
take_out_refines (suc n) {f} v = elim (Bool-cases (f.head == f.tail)) [
  | inl done ↦ rw (take_out_done f n done, contents_empty v done) (refl, refl, v)
  | inr more ↦
      let next : Fifo = record f { head = (f.head + 1) % fifo_size } in
      let rest = take_out_refines n {f = next} (omega arith) in
      rw (take_out_more f n more, contents_some v more)
        (ap (◌∷◌ (f.out f.head)) rest.0, rest.1, rest.2)
]

-- The two files compute the number of waiting bytes alike.
pub avail_wrapped-avail : {f : Fifo} → IsValid f → avail_wrapped f ≡ avail f
unfolding avail avail_wrapped
avail_wrapped-avail v = omega arith
