-- ===== src/Allnet/Reply.antt =====
-- What the ALL.Net server answers: reply_body and the end of serve, src/runtime/allnet.c.
pub mod Fits
use systemes3recomp.Prelude.{
  ℕ, zero, suc, ◌+◌, ◌-◌, ◌*◌, ◌/◌, ◌%◌, ◌^◌, ◌≤◌, ◌<◌, ◌≡◌, refl, Bool, true, false, not, ◌&&◌,
  ◌||◌, Option, none, some, List, [], ◌∷◌, ◌++◌, length, take, min, Bytes, leb, ltb, ◌==◌,
  if◌then◌else◌,
}
use systemes3recomp.Jvs.{codes}
use systemes3recomp.Text.{c_string, contains, decimal}

-- allnet_port: what atoi makes of ES3_ALLNET_PORT, cut to 16 bits.
unfoldable pub allnet_port : Option ℕ → ℕ
allnet_port none = 80
allnet_port (some n) = n % 2 ^ 16

-- localtime_s, its month counted from 1 and its year in full.
pub record Clock : Type 0 where
  pub year : ℕ
  pub month : ℕ
  pub day : ℕ
  pub hour : ℕ
  pub minute : ℕ
  pub second : ℕ

-- "%02d" and "%04d".
abbrev pub padded : ℕ → ℕ → Bytes → Bytes
padded zero n rest = rest
padded (suc k) n rest = padded k (n / 10) ((b'0' + n % 10) ∷ rest)

abbrev pub two_digits : ℕ → Bytes
two_digits n = if ltb n 100 then padded 2 n [] else decimal n

abbrev pub four_digits : ℕ → Bytes
four_digits n = if ltb n 10000 then padded 4 n [] else decimal n

abbrev pub started_at : Clock → Bytes
started_at t =
    four_digits t.year
    ++ (codes "-"
        ++ (two_digits t.month
            ++ (codes "-"
                ++ (two_digits t.day
                    ++ (codes "T"
                        ++ (two_digits t.hour
                            ++ (codes ":"
                                ++ (two_digits t.minute
                                    ++ (codes ":" ++ (two_digits t.second ++ codes "Z"))))))))))

-- The fields of the control data, in their order.
unfoldable pub fields : Clock → List Bytes
unfolding decimal
fields t =
    codes "\"status\":0"
    ∷ codes "\"net_id\":\"AZZZ0123\""
    ∷ codes "\"place_id\":\"0123\""
    ∷ codes "\"current_place_id\":\"0123\""
    ∷ codes "\"game_id\":\"SBZB\""
    ∷ codes "\"serial_no\":\"271000020001\""
    ∷ codes "\"store_id\":\"0123\""
    ∷ codes "\"store_name\":\"RECOMP\""
    ∷ codes "\"store_nickname\":\"RECOMP\""
    ∷ codes "\"allnet_game_id\":\"SBZB\""
    ∷ codes "\"allnet_game_ver\":\"0.01\""
    ∷ codes "\"line_type\":1"
    ∷ codes "\"area_cd_0\":\"1\""
    ∷ codes "\"area_name_0\":\"W\""
    ∷ codes "\"area_name_1\":\"X\""
    ∷ codes "\"area_name_2\":\"Y\""
    ∷ codes "\"area_name_3\":\"Z\""
    ∷ codes "\"country_code\":\"JPN\""
    ∷ codes "\"time_zone\":\"+09:00\""
    ∷ (codes "\"started_at\":\"" ++ (started_at t ++ codes "\""))
    ∷ codes "\"yuai_option_limit_at\":\"2099-12-31T23:59:59Z\""
    ∷ []

-- ES3_ALLNET_FIELDS: only so many of them. A negative value, or none, is no limit.
unfoldable pub limited : Option ℕ → List Bytes → List Bytes
limited none fs = fs
limited (some limit) fs = if ltb limit (length fs) then take limit fs else fs

-- The loop that joins them: `first` is i == 0.
unfoldable pub joined : Bool → List Bytes → Bytes
joined first [] = []
joined first (f ∷ fs) = (if first then f else codes "," ++ f) ++ joined false fs

abbrev pub control_data : Option ℕ → Clock → Bytes
control_data limit t = codes "{" ++ (joined true (limited limit (fields t)) ++ codes "}")

-- The answer of the authentication, for the server's address as text.
abbrev pub power_on : Bytes → Clock → Bytes
power_on addr t =
    codes "stat=1&uri=http://"
    ++ (addr
        ++ (codes "/&host="
            ++ (addr
                ++ (codes
                      "&place_id=0123&name=RECOMP&nickname=RECOMP&region0=1&region_name0=W&region_name1=X&region_name2=Y&region_name3=Z&country=JPN&timezone=+09:00&year="
                    ++ (four_digits t.year
                        ++ (codes "&month="
                            ++ (decimal t.month
                                ++ (codes "&day="
                                    ++ (decimal t.day
                                        ++ (codes "&hour="
                                            ++ (decimal t.hour
                                                ++ (codes "&minute="
                                                    ++ (decimal t.minute
                                                        ++ (codes "&second="
                                                            ++ decimal t.second))))))))))))))

-- reply_body.
unfoldable pub reply_body : Option ℕ → Bytes → Clock → Bytes → Bytes
unfolding contains fields limited joined decimal
reply_body limit addr t path =
    if contains (codes "/board/getControlData") path
    then control_data limit t
    else if contains (codes "/amid/") path
        || contains (codes "/board/") path
        || contains (codes "/incoming/") path
    then codes "{\"status\":0}"
    else if contains (codes "DownloadOrder") path
    then codes "stat=1&uri=&host="
    else power_on addr t

-- The end of serve: the head and the body, as they are sent.
abbrev pub response_head : ℕ → Bytes
response_head blen =
    codes "HTTP/1.1 200 OK\r\nContent-Type: text/plain\r\nContent-Length: "
    ++ (decimal blen ++ codes "\r\nConnection: close\r\n\r\n")

unfoldable pub response : Bytes → Bytes
unfolding decimal
response body = response_head (length body) ++ body
