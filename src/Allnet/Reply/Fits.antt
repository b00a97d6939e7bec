-- ===== src/Allnet/Reply/Fits.antt =====
-- The ALL.Net answers fit the buffers that serve of src/runtime/allnet.c gives them.
use systemes3recomp.Prelude.{
  ℕ, zero, suc, ◌+◌, ◌^◌, ◌≤◌, ◌<◌, ◌≡◌, Bool, true, false, ◌||◌, Option, none, some, List, [], ◌∷◌,
  ◌++◌, length, length-append, take, Bytes, if◌then◌else◌, arith,
}
use systemes3recomp.Jvs.{codes}
use systemes3recomp.Text.{contains, decimal}
use systemes3recomp.Text.Decimal.{length-emit}
use systemes3recomp.Allnet.Reply.{
  Clock, two_digits, four_digits, started_at, fields, limited, joined, control_data, power_on,
  reply_body, response_head, response,
}

-- A clock as localtime_s sets it, before the year 10000.
pub record IsTime (t : Clock) : Type 0 where
  pub year_lt : t.year < 10000
  pub month_lt : t.month < 100
  pub day_lt : t.day < 100
  pub hour_lt : t.hour < 100
  pub minute_lt : t.minute < 100
  pub second_lt : t.second < 100

length-two_digits : (n : ℕ) → n < 100 → length (two_digits n) ≡ 2
length-two_digits n h = ground arith

length-four_digits : (n : ℕ) → n < 10000 → length (four_digits n) ≡ 4
length-four_digits n h = ground arith

length-decimal : (n k : ℕ) → n < 10 ^ k → 0 < k → length (decimal n) ≤ k
unfolding decimal
length-decimal n k h p = omega (arith, length-emit (suc n) n k [] (omega arith) h p)

-- The length of the fields with a comma each.
commas : List Bytes → ℕ
commas [] = 0
commas (f ∷ fs) = length f + 1 + commas fs

commas-take : (n : ℕ) (fs : List Bytes) → commas (take n fs) ≤ commas fs
unfolding commas
commas-take zero fs = omega arith
commas-take (suc n) [] = omega arith
commas-take (suc n) (f ∷ fs) = omega (arith, commas-take n fs)

length-joined : (first : Bool) (fs : List Bytes) → length (joined first fs) ≤ commas fs
unfolding joined commas
length-joined first [] = omega arith
length-joined true (f ∷ fs) =
    omega (arith, length-append f (joined false fs), length-joined false fs)
length-joined false (f ∷ fs) =
    omega (arith, length-append f (joined false fs), length-joined false fs)

commas-limited : (limit : Option ℕ) (fs : List Bytes) → commas (limited limit fs) ≤ commas fs
unfolding limited
commas-limited none fs = omega arith
commas-limited (some n) fs = ground (arith, commas-take n fs)

length-started_at : (t : Clock) → IsTime t → length (started_at t) ≡ 20
length-started_at t v =
    let second : Bytes = two_digits t.second ++ codes "Z" in
    let minute : Bytes = two_digits t.minute ++ (codes ":" ++ second) in
    let hour : Bytes = two_digits t.hour ++ (codes ":" ++ minute) in
    let day : Bytes = two_digits t.day ++ (codes "T" ++ hour) in
    let month : Bytes = two_digits t.month ++ (codes "-" ++ day) in
    omega (
      arith,
      length-append (four_digits t.year) (codes "-" ++ month),
      length-append (two_digits t.month) (codes "-" ++ day),
      length-append (two_digits t.day) (codes "T" ++ hour),
      length-append (two_digits t.hour) (codes ":" ++ minute),
      length-append (two_digits t.minute) (codes ":" ++ second),
      length-append (two_digits t.second) (codes "Z"),
      length-four_digits t.year v.year_lt,
      length-two_digits t.month v.month_lt,
      length-two_digits t.day v.day_lt,
      length-two_digits t.hour v.hour_lt,
      length-two_digits t.minute v.minute_lt,
      length-two_digits t.second v.second_lt,
    )

commas-fields : (t : Clock) → IsTime t → commas (fields t) ≤ 520
unfolding commas fields
commas-fields t v = omega (arith, length-started_at t v, length-append (started_at t) (codes "\""))

length-control_data :
    (limit : Option ℕ) (t : Clock) → IsTime t → length (control_data limit t) ≤ 600
length-control_data limit t v = omega (
  arith,
  length-append (joined true (limited limit (fields t))) (codes "}"),
  length-joined true (limited limit (fields t)),
  commas-limited limit (fields t),
  commas-fields t v,
)

length-power_on :
    (addr : Bytes) (t : Clock) → IsTime t → length addr ≤ 15 → length (power_on addr t) ≤ 300
length-power_on addr t v a =
    let second : Bytes = codes "&second=" ++ decimal t.second in
    let minute : Bytes = codes "&minute=" ++ (decimal t.minute ++ second) in
    let hour : Bytes = codes "&hour=" ++ (decimal t.hour ++ minute) in
    let day : Bytes = codes "&day=" ++ (decimal t.day ++ hour) in
    let month : Bytes = codes "&month=" ++ (decimal t.month ++ day) in
    let place : Bytes =
      codes
        "&place_id=0123&name=RECOMP&nickname=RECOMP&region0=1&region_name0=W&region_name1=X&region_name2=Y&region_name3=Z&country=JPN&timezone=+09:00&year="
      ++ (four_digits t.year ++ month) in
    omega (
      arith,
      length-append addr (codes "/&host=" ++ (addr ++ place)),
      length-append addr place,
      length-append (four_digits t.year) month,
      length-four_digits t.year v.year_lt,
      length-append (decimal t.month) day,
      length-append (decimal t.day) hour,
      length-append (decimal t.hour) minute,
      length-append (decimal t.minute) second,
      length-decimal t.month 2 v.month_lt (omega arith),
      length-decimal t.day 2 v.day_lt (omega arith),
      length-decimal t.hour 2 v.hour_lt (omega arith),
      length-decimal t.minute 2 v.minute_lt (omega arith),
      length-decimal t.second 2 v.second_lt (omega arith),
    )

-- A bound on each of four branches.
branches :
    (p q r s : Bytes) (a b c : Bool)
    → length p < 1024
    → length q < 1024
    → length r < 1024
    → length s < 1024
    → length (if a then p else if b then q else if c then r else s) < 1024
branches p q r s true b c hp hq hr hs = hp
branches p q r s false true c hp hq hr hs = hq
branches p q r s false false true hp hq hr hs = hr
branches p q r s false false false hp hq hr hs = hs

reply_body_small :
    (limit : Option ℕ) (addr : Bytes) (t : Clock) (path : Bytes)
    → IsTime t
    → length addr ≤ 15
    → length (reply_body limit addr t path) < 1024
unfolding reply_body
reply_body_small limit addr t path v a =
    branches _ _ _ _ (contains (codes "/board/getControlData") path)
      (contains (codes "/amid/") path
        || contains (codes "/board/") path
        || contains (codes "/incoming/") path)
      (contains (codes "DownloadOrder") path) (omega (arith, length-control_data limit t v))
      (omega arith) (omega arith) (omega (arith, length-power_on addr t v a))

-- Whatever path is asked for, the answer and its NUL fit serve's `body`, and the whole response fits
-- `out`: for a time that localtime_s can give before the year 10000, and an address of at most 15
-- characters.
pub reply_body-fits :
    (limit : Option ℕ) (addr : Bytes) (t : Clock) (path : Bytes)
    → IsTime t
    → length addr ≤ 15
    → (length (reply_body limit addr t path) < 1024)
      × (length (response (reply_body limit addr t path)) < 2048)
unfolding response
reply_body-fits limit addr t path v a =
    let body : Bytes = reply_body limit addr t path in
    let small : length body < 1024 = reply_body_small limit addr t path v a in
    (
      small,
      omega (
        arith,
        small,
        length-append (decimal (length body)) (codes "\r\nConnection: close\r\n\r\n"),
        length-append (response_head (length body)) body,
        length-decimal (length body) 4 (omega (arith, small)) (omega arith),
      ),
    )
