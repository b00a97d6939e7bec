-- ===== src/Jvs/Command/Request.antt =====
-- What a JVS master may ask, as data: an independent description of the commands, of the report
-- that each gets and of what each changes on the board.
use systemes3recomp.Prelude.{
  ◌/◌, ◌^◌, get_or, drop, ℕ, zero, suc, ◌+◌, ◌-◌, ◌*◌, ◌%◌, ◌≤◌, ◌≡◌, ◌⊎◌, bit_or, Bytes, List, [],
  ◌∷◌, ◌++◌, length,
}
use systemes3recomp.Jvs.{Port, Switches, ident}

pub data Request : Type 0 where
  set_address : ℕ → Request
  identify command_revision jvs_revision comms_version feature_check : Request
  read_switches : ℕ → ℕ → Request
  read_coins read_analog read_rotary : ℕ → Request
  drop_coins : ℕ → ℕ → ℕ → Request
  general_output : Bytes → Request
  add_coins : ℕ → ℕ → ℕ → Request
  analog_output : ℕ → ℕ → Request
  character_output : ℕ → Request
  comms_method : ℕ → Request

-- The bytes of a request.
abbrev pub encode : Request → Bytes
encode (set_address a) = 0xF1 ∷ a ∷ []
encode identify = 0x10 ∷ []
encode command_revision = 0x11 ∷ []
encode jvs_revision = 0x12 ∷ []
encode comms_version = 0x13 ∷ []
encode feature_check = 0x14 ∷ []
encode (read_switches k bytes) = 0x20 ∷ k ∷ bytes ∷ []
encode (read_coins k) = 0x21 ∷ k ∷ []
encode (read_analog k) = 0x22 ∷ k ∷ []
encode (read_rotary k) = 0x25 ∷ k ∷ []
encode (drop_coins slot hi lo) = 0x30 ∷ slot ∷ hi ∷ lo ∷ []
encode (general_output bs) = 0x32 ∷ length bs ∷ bs
encode (add_coins slot hi lo) = 0x31 ∷ slot ∷ hi ∷ lo ∷ []
encode (analog_output channel v) = 0x33 ∷ channel ∷ v ∷ []
encode (character_output c) = 0x34 ∷ c ∷ []
encode (comms_method m) = 0xF2 ∷ m ∷ []

abbrev pub encode_all : List Request → Bytes
encode_all [] = []
encode_all (r ∷ rs) = encode r ++ encode_all rs

-- `k` values of a list, and `d` for those that it does not have.
abbrev pub padded : ℕ → ℕ → List ℕ → List ℕ
padded zero d xs = []
padded (suc k) d xs = get_or xs 0 d ∷ padded k d (drop 1 xs)

-- The low `k` bytes of a word, the lowest one last.
abbrev pub big_endian : ℕ → ℕ → Bytes
big_endian zero w = []
big_endian (suc k) w = big_endian k (w / 256) ++ ((w % 256) ∷ [])

abbrev pub each : (ℕ → Bytes) → List ℕ → Bytes
each f [] = []
each f (x ∷ xs) = f x ++ each f xs

-- What the board has: two players of 13 switches, three coin slots, eight analog channels of 16 bits and
-- eight general outputs.
abbrev pub functions : Bytes
functions = 0x01 ∷ 2 ∷ 13 ∷ 0 ∷ 0x02 ∷ 3 ∷ 0 ∷ 0 ∷ 0x03 ∷ 8 ∷ 16 ∷ 0 ∷ 0x12 ∷ 8 ∷ 0 ∷ 0 ∷ 0x00 ∷ []

-- The report of a request that worked: 1, then its data. Coin counters have fourteen bits, and a channel
-- that nothing drives is at mid-scale.
abbrev pub report : Switches → Port → Request → Bytes
report s p identify = 0x01 ∷ (ident ++ (0x00 ∷ []))
report s p command_revision = 0x01 ∷ 0x13 ∷ []
report s p jvs_revision = 0x01 ∷ 0x30 ∷ []
report s p comms_version = 0x01 ∷ 0x10 ∷ []
report s p feature_check = 0x01 ∷ functions
report s p (read_switches k bytes) =
    0x01
    ∷ (bit_or s.sw_sys s.in_sys % 256)
    ∷ each (big_endian bytes) (padded k 0 (bit_or s.sw_p1 s.in_p1 ∷ s.sw_p2 ∷ []))
report s p (read_coins k) = 0x01 ∷ each (λ c. big_endian 2 (c % 2 ^ 14)) (padded k 0 p.coin)
report s p (read_analog k) = 0x01 ∷ each (big_endian 2) (padded k 0x8000 (padded 8 0 s.analog))
report s p (read_rotary k) = 0x01 ∷ each (big_endian 2) (padded k 0 [])
report s p _ = 0x01 ∷ []

-- The coins of slot `i`, counted from 0, after `n` of slot `slot`, counted from 1, are spent.
abbrev pub spend : Bytes → ℕ → ℕ → Bytes
spend [] slot n = []
spend (c ∷ cs) zero n = c ∷ cs
spend (c ∷ cs) (suc zero) n = (c - n) ∷ cs
spend (c ∷ cs) (suc (suc slot)) n = c ∷ spend cs (suc slot) n

abbrev pub effect : Port → Request → Port
effect p (set_address a) = record p { address = a }
effect p (drop_coins slot hi lo) = record p { coin = spend p.coin slot (hi * 256 + lo) }
effect p _ = p

-- A switch word has 32 bits, so at most four bytes of it can be asked for.
abbrev pub IsRequest : Request → Type 0
IsRequest (read_switches k bytes) = (k ≡ 0) ⊎ (bytes ≤ 4)
IsRequest _ = Unit

-- The reports, each after the effects of the requests before it.
abbrev pub reports : Switches → Port → List Request → Bytes
reports s p [] = []
reports s p (r ∷ rs) = report s p r ++ reports s (effect p r) rs

abbrev pub effects : Port → List Request → Port
effects p [] = p
effects p (r ∷ rs) = effects (effect p r) rs
