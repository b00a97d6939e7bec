-- ===== src/Jvs/Command/Told.antt =====
-- The bytes that the interpreter of handle_packet reports are those of the description.
use systemes3recomp.Prelude.{
  ℕ, zero, suc, ◌+◌, ◌/◌, ◌%◌, ◌^◌, ◌≤◌, ◌≡◌, inl, inr, refl, sym, ap, ap₂, ◌∙◌, bit_or, ltb,
  if◌then◌else◌, Bytes, List, [], ◌∷◌, ◌++◌, length, get_or, drop, drop-drop, arith,
}
use systemes3recomp.Jvs.{Port, Switches, coin_slots}
use systemes3recomp.Jvs.Command.{
  features, word_bytes, player_word, switch_bytes, coin_bytes, analog_bytes, rotary_bytes,
}
use systemes3recomp.Jvs.Command.Request.{
  Request, feature_check, read_switches, read_coins, read_analog, read_rotary, padded, big_endian,
  each, report, IsRequest,
}

-- What the interpreter writes for a request.
abbrev pub told : Switches → Port → Request → Bytes
told s p feature_check = features
told s p (read_switches k bytes) =
    0x01 ∷ (bit_or s.sw_sys s.in_sys % 256) ∷ switch_bytes s bytes k 0
told s p (read_coins k) = 0x01 ∷ coin_bytes p k 0
told s p (read_analog k) = 0x01 ∷ analog_bytes s k 0
told s p (read_rotary k) = 0x01 ∷ rotary_bytes k
told s p r = report s p r

get_or-drop : (xs : List ℕ) (c i d : ℕ) → get_or (drop c xs) i d ≡ get_or xs (c + i) d
get_or-drop xs zero i d = ap (λ j. get_or xs j d) (omega arith)
get_or-drop [] (suc c) i d = ground arith
get_or-drop (x ∷ xs) (suc c) i d =
    get_or-drop xs c i d ∙ ap (λ j. get_or (x ∷ xs) j d) {x = suc (c + i)} (omega arith)

get_or-padded :
    (n : ℕ) (d e : ℕ) (xs : List ℕ) (c : ℕ)
    → get_or (padded n d xs) c e ≡ (if ltb c n then get_or xs c d else e)
get_or-padded zero d e xs c = ground arith
get_or-padded (suc n) d e xs zero = ground arith
get_or-padded (suc n) d e xs (suc c) =
    get_or-padded n d e (drop 1 xs) c ∙ ground (arith, get_or-drop xs 1 c d)

-- A loop over the indices from `c` is a walk along the list.
walk :
    (f : ℕ → Bytes) (bytes : ℕ → ℕ → Bytes) (d : ℕ) (xs : List ℕ)
    → ((c : ℕ) → bytes 0 c ≡ [])
    → ((k c : ℕ) → bytes (suc k) c ≡ f (get_or xs c d) ++ bytes k (c + 1))
    → (k c : ℕ) → bytes k c ≡ each f (padded k d (drop c xs))
walk f bytes d xs stop go zero c = stop c
walk f bytes d xs stop go (suc k) c =
    let here : get_or xs c d ≡ get_or (drop c xs) 0 d =
      ap (λ j. get_or xs j d) (omega arith) ∙ sym (get_or-drop xs c 0 d) in
    go k c
    ∙ ap₂ (λ (x : ℕ) (ys : Bytes). f x ++ ys) here
        (walk f bytes d xs stop go k (c + 1)
          ∙ ap (λ ys. each f (padded k d ys)) (sym (drop-drop xs c 1)))

get_or_past : (xs : List ℕ) (c : ℕ) → length xs ≤ c → get_or xs c 0 ≡ 0
get_or_past [] c h = ground arith
get_or_past (x ∷ xs) zero h = absurd (omega arith)
get_or_past (x ∷ xs) (suc c) h = get_or_past xs c (omega arith)

coin_there :
    (p : Port) (c : ℕ)
    → length p.coin ≡ coin_slots
    → (if ltb c coin_slots then get_or p.coin c 0 else 0) ≡ get_or p.coin c 0
coin_there p c h = ground (arith, get_or_past p.coin c)

coins_told :
    (p : Port) (k : ℕ)
    → length p.coin ≡ coin_slots
    → coin_bytes p k 0 ≡ each (λ c. big_endian 2 (c % 2 ^ 14)) (padded k 0 p.coin)
unfolding coin_bytes
coins_told p k h =
    walk (λ c. big_endian 2 (c % 2 ^ 14)) (coin_bytes p) 0 p.coin (λ c. refl)
      (λ k' c.
        let v : ℕ = get_or p.coin c 0 in
        ap (λ x. (x / 256 % 64) ∷ (x % 256) ∷ coin_bytes p k' (c + 1)) (coin_there p c h)
        ∙ ap₂ (λ a b. a ∷ b ∷ coin_bytes p k' (c + 1)) (omega arith) (omega arith))
      k 0

analog_told :
    (s : Switches) (k : ℕ)
    → analog_bytes s k 0 ≡ each (big_endian 2) (padded k 0x8000 (padded 8 0 s.analog))
unfolding analog_bytes
analog_told s k =
    walk (big_endian 2) (analog_bytes s) 0x8000 (padded 8 0 s.analog) (λ c. refl)
      (λ k' c.
        ap (λ v. (v / 256 % 256) ∷ (v % 256) ∷ analog_bytes s k' (c + 1))
          (sym (get_or-padded 8 0 0x8000 s.analog c)))
      k 0

rotary_told : (k : ℕ) → rotary_bytes k ≡ each (big_endian 2) (padded k 0 [])
unfolding rotary_bytes
rotary_told zero = refl
rotary_told (suc k) = ap (λ l. 0 ∷ 0 ∷ l) (rotary_told k)

word_told : (w bytes : ℕ) → bytes ≤ 4 → word_bytes w bytes ≡ big_endian bytes w
unfolding word_bytes
word_told w zero h = refl
word_told w (suc zero) h = ground arith
word_told w (suc (suc zero)) h = ground arith
word_told w (suc (suc (suc zero))) h = ground arith
word_told w (suc (suc (suc (suc zero)))) h = ground arith
word_told w (suc (suc (suc (suc (suc bytes))))) h = absurd (omega arith)

word_there :
    (s : Switches) (c : ℕ) → player_word s c ≡ get_or (bit_or s.sw_p1 s.in_p1 ∷ s.sw_p2 ∷ []) c 0
unfolding player_word
word_there s zero = refl
word_there s (suc zero) = refl
word_there s (suc (suc c)) = ground arith

switches_told :
    (s : Switches) (bytes k : ℕ)
    → bytes ≤ 4
    → switch_bytes s bytes k 0
      ≡ each (big_endian bytes) (padded k 0 (bit_or s.sw_p1 s.in_p1 ∷ s.sw_p2 ∷ []))
unfolding switch_bytes
switches_told s bytes k h =
    walk (big_endian bytes) (switch_bytes s bytes) 0 (bit_or s.sw_p1 s.in_p1 ∷ s.sw_p2 ∷ [])
      (λ c. refl)
      (λ k' c.
        ap (λ bs. bs ++ switch_bytes s bytes k' (c + 1))
          (word_told (player_word s c) bytes h ∙ ap (big_endian bytes) (word_there s c)))
      k 0

pub told-report :
    (s : Switches) (p : Port) (r : Request)
    → IsRequest r
    → length p.coin ≡ coin_slots
    → told s p r ≡ report s p r
told-report s p (read_switches zero bytes) (inl z) h = unfold switch_bytes in refl
told-report s p (read_switches (suc k) bytes) (inl z) h = absurd (omega arith)
told-report s p (read_switches k bytes) (inr l) h =
    ap (λ bs. 0x01 ∷ (bit_or s.sw_sys s.in_sys % 256) ∷ bs) (switches_told s bytes k l)
told-report s p (read_coins k) ok h = ap (◌∷◌ 0x01) (coins_told p k h)
told-report s p (read_analog k) ok h = ap (◌∷◌ 0x01) (analog_told s k)
told-report s p (read_rotary k) ok h = ap (◌∷◌ 0x01) (rotary_told k)
told-report s p _ ok h = refl
