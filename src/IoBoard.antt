-- ===== src/IoBoard.antt =====
-- The USB I/O board that the runtime lets the game find: the hub, the device tree and the configuration
-- manager in src/runtime/hle_callback.c.
pub mod Laws
pub mod Tests
use systemes3recomp.Prelude.{
  ℕ, zero, suc, ◌+◌, ◌-◌, ◌*◌, ◌/◌, ◌%◌, ◌^◌, ◌≤◌, ◌<◌, Bool, true, false, not, ◌&&◌, ◌||◌, Option,
  none, some, List, [], ◌∷◌, ◌++◌, length, take, min, Bytes, leb, ltb, ◌==◌, if◌then◌else◌,
}
use systemes3recomp.Jvs.{codes}

-- What is written to the guest's memory, in order.
pub data Write : Type 0 where
  byte : ℕ → ℕ → Write
  half : ℕ → ℕ → Write
  word : ℕ → ℕ → Write
  block : ℕ → Bytes → Write

-- rd16 and rd32 of the guest's memory.
pub record Reads : Type 0 where
  pub rd16 : ℕ → ℕ
  pub rd32 : ℕ → ℕ

-- g_iob_port, g_iob_hub, g_iob_node_armed, g_iob_node_given, g_iob_root.
pub record Node : Type 0 where
  pub port : ℕ
  pub hub : ℕ
  pub armed : Bool
  pub given : Bool
  pub root : ℕ

-- What g_iob_port holds while the board is nowhere.
abbrev pub no_port : ℕ
no_port = 0xffffffff

-- ioboard_new_scan.
unfoldable pub new_scan : Node → Node
new_scan s = record s { port = no_port; hub = 0 }

abbrev pub vendor : ℕ
vendor = 0x0b9a

abbrev pub product : ℕ
product = 0x0c10

-- What ioboard_claim writes into the answer about the port.
unfoldable pub claim_writes : ℕ → List Write
claim_writes buf =
    byte (buf + 4) 18
    ∷ byte (buf + 5) 1
    ∷ half (buf + 12) vendor
    ∷ half (buf + 14) product
    ∷ byte (buf + 18) 1
    ∷ byte (buf + 19) 2
    ∷ byte (buf + 20) 3
    ∷ byte (buf + 21) 1
    ∷ half (buf + 6) 0x0200
    ∷ byte (buf + 8) 0xff
    ∷ byte (buf + 11) 64
    ∷ byte (buf + 22) 1
    ∷ byte (buf + 23) 1
    ∷ byte (buf + 24) 0
    ∷ word (buf + 31) 1
    ∷ []

-- ioboard_claim; `on` is ES3_IOBOARD.
unfoldable pub claim : Bool → Reads → ℕ → ℕ → ℕ → ℕ → Node → Node × List Write
claim on r hub port buf len s =
    if not on || buf == 0 || ltb len 35
    then (s, [])
    else if ltb port 1
    then (s, [])
    else if not (s.port == no_port) || not (r.rd32 (buf + 31) == 0)
    then (s, [])
    else (record s { port = port; hub = hub }, claim_writes buf)

-- DEVICE and CONFIG.
abbrev pub device : Bytes
device =
    18 ∷ 1 ∷ 0x00 ∷ 0x02 ∷ 0xff ∷ 0x00 ∷ 0x00 ∷ 64 ∷ 0x9a ∷ 0x0b ∷ 0x10 ∷ 0x0c ∷ 0x00 ∷ 0x01 ∷ 1 ∷ 2
    ∷ 3 ∷ 1 ∷ []

abbrev pub config : Bytes
config =
    9 ∷ 2 ∷ 32 ∷ 0 ∷ 1 ∷ 1 ∷ 0 ∷ 0x80 ∷ 50 ∷ 9 ∷ 4 ∷ 0 ∷ 0 ∷ 2 ∷ 0xff ∷ 0 ∷ 0 ∷ 0 ∷ 7 ∷ 5 ∷ 0x81 ∷ 2
    ∷ 64 ∷ 0 ∷ 0 ∷ 7 ∷ 5 ∷ 0x02 ∷ 2 ∷ 64 ∷ 0 ∷ 0 ∷ []

-- A text in two bytes a character, with no end.
unfoldable pub wide : Bytes → Bytes
wide [] = []
wide (c ∷ cs) = c ∷ 0 ∷ wide cs

-- A string descriptor, cut to 30 characters.
abbrev pub string_descriptor : Bytes → Bytes
string_descriptor t = (2 + length (take 30 t) * 2) ∷ 3 ∷ wide (take 30 t)

-- The descriptor of a type and an index; none is a request that is not answered.
unfoldable pub descriptor_of : ℕ → ℕ → Option Bytes
unfolding wide
descriptor_of kind index =
    if kind == 1
    then some device
    else if kind == 2
    then some config
    else if not (kind == 3)
    then none
    else if index == 0
    then some (4 ∷ 3 ∷ 0x09 ∷ 0x04 ∷ [])
    else if index == 1
    then some (string_descriptor (codes "NBGI."))
    else if index == 2
    then some (string_descriptor (codes "NA-JV"))
    else if index == 3
    then some (string_descriptor (codes "271000020001"))
    else none

abbrev pub optional_word : ℕ → ℕ → List Write
optional_word at v = if at == 0 then [] else word at v ∷ []

-- The test of the port that a request names.
abbrev pub is_ours : Node → ℕ → Bool
is_ours s port = not (s.port == no_port) && port == s.port

-- The end of ioboard_descriptor: the copy into the buffer. `asked` is wLength.
unfoldable pub copy_descriptor : Bytes → ℕ → ℕ → ℕ → ℕ → Option (List Write)
copy_descriptor src asked outbuf outlen bytesret =
    let n = min (min asked (length src)) (outlen - 12) in
    if ltb outlen 12
    then none
    else some (block (outbuf + 12) (take n src) ∷ optional_word bytesret (12 + n))

-- ioboard_descriptor; none is 0.
unfoldable pub descriptor : Bool → Reads → Node → ℕ → ℕ → ℕ → ℕ → ℕ → Option (List Write)
descriptor on r s hub inbuf outbuf outlen bytesret =
    if not on || inbuf == 0 || outbuf == 0
    then none
    else if not (hub == s.hub) || not (is_ours s (r.rd32 inbuf))
    then none
    else elim (descriptor_of (r.rd16 (inbuf + 6) / 2 ^ 8) (r.rd16 (inbuf + 6) % 2 ^ 8)) [
      | none ↦ none
      | some src ↦ copy_descriptor src (r.rd16 (inbuf + 10)) outbuf outlen bytesret
    ]

-- k_iob_key with its end.
abbrev pub key : Bytes
key = wide (codes "ES3-SYNTHETIC-NAMCO-IO-BOARD") ++ (0 ∷ 0 ∷ [])

-- ioboard_driverkey; `actual` is ES3_IOB_ACTUAL.
unfoldable pub driverkey :
    Bool → Reads → Option ℕ → Node → ℕ → ℕ → ℕ → ℕ → Option (Node × List Write)
unfolding wide
driverkey on r actual s inbuf outbuf outlen bytesret =
    let need = length key in
    let size : ℕ = elim actual [ none ↦ need + 16 | some n ↦ n ] in
    let told : List Write = word outbuf s.port ∷ word (outbuf + 4) size ∷ [] in
    if not on || inbuf == 0 || outbuf == 0 || not (is_ours s (r.rd32 inbuf)) || ltb outlen 8
    then none
    else if ltb outlen (8 + need)
    then some (s, told ++ optional_word bytesret 8)
    else some (
      record s { armed = true; given = false },
      told ++ (block (outbuf + 8) key ∷ optional_word bytesret (8 + need)),
    )

-- What a call of the configuration manager becomes: the real call, or an answer.
pub data Reply : Type 0 where
  forwarded : Reply
  answered : ℕ → List Write → Reply

abbrev pub devnode : ℕ
devnode = 0x0b9a0c10

abbrev pub cr_success : ℕ
cr_success = 0

abbrev pub cr_no_such_node : ℕ
cr_no_such_node = 13

abbrev pub cr_buf_small : ℕ
cr_buf_small = 26

abbrev pub cr_no_such_val : ℕ
cr_no_such_val = 37

-- ioboard_has_node.
abbrev pub has_node : Bool → Node → Bool
has_node on s = on && not (s.port == no_port)

-- hle_cm_get_child.
unfoldable pub get_child : Bool → Node → ℕ → Reply
get_child on s node =
    if has_node on s && node == devnode then answered cr_no_such_node [] else forwarded

-- hle_cm_get_sibling; `eax` is what the real call answers, and the result what the game is told.
unfoldable pub get_sibling : Bool → Node → ℕ → ℕ → ℕ → Node × (ℕ × List Write)
get_sibling on s out node eax =
    if has_node on s && node == devnode
    then (s, (cr_no_such_node, []))
    else if has_node on s && s.armed && not (eax == cr_success) && not (out == 0) && not s.given
    then (record s { given = true }, (cr_success, word out devnode ∷ []))
    else (s, (eax, []))

-- hle_cm_get_parent.
unfoldable pub get_parent : Bool → Node → ℕ → ℕ → Reply
get_parent on s out node =
    if has_node on s && node == devnode
    then answered (if s.root == 0 then cr_no_such_node else cr_success) (optional_word out s.root)
    else forwarded

-- The name that the board is described by, with its end.
abbrev pub description : Bytes
description = wide (codes "Namco I/O Board (NA-JV)") ++ (0 ∷ 0 ∷ [])

-- A value that is handed over if the buffer has room for it; its size is told otherwise.
abbrev pub hand_over : Reads → Bytes → ℕ → ℕ → ℕ → Reply
hand_over r value type buf plen =
    let need = length value in
    if buf == 0 || plen == 0 || ltb (r.rd32 plen) need
    then answered cr_buf_small (optional_word type 1 ++ optional_word plen need)
    else answered cr_success (optional_word type 1 ++ (block buf value ∷ word plen need ∷ []))

abbrev pub is_success : Reply → Bool
is_success forwarded = false
is_success (answered code ws) = code == cr_success

-- hle_cm_get_devnode_prop.
unfoldable pub get_property : Bool → Reads → Node → ℕ → ℕ → ℕ → ℕ → ℕ → Node × Reply
unfolding wide
get_property on r s node prop type buf plen =
    let told = hand_over r key type buf plen in
    if not (has_node on s) || not (node == devnode)
    then (s, forwarded)
    else if prop == 10
    then (if is_success told then record s { armed = false } else s, told)
    else if prop == 1
    then (s, hand_over r description type buf plen)
    else (s, answered cr_no_such_val [])

-- hle_cm_locate_devnode; `named` says that the name holds the board's key, `nameless` that there is
-- none, `eax` is what the real call answers.
unfoldable pub locate : Bool → Reads → Node → Bool → Bool → ℕ → ℕ → Node × Reply
locate on r s named nameless out eax =
    if on && named
    then (s, answered 0 (optional_word out devnode))
    else if nameless && eax == cr_success && not (out == 0)
    then (record s { root = r.rd32 out }, forwarded)
    else (s, forwarded)

-- hle_device_io_control behind the real call: its answer, what is written, and the state.
unfoldable pub device_io_control :
    Bool → Reads → Option ℕ → Node → ℕ → ℕ → ℕ → ℕ → ℕ → ℕ → ℕ → ℕ → Node × (ℕ × List Write)
unfolding claim descriptor driverkey
device_io_control on r actual s h code inbuf req_port outbuf outlen bytesret eax =
    let claims = not (eax == 0) && (code == 0x00220448 || code == 0x0022040c) in
    let (s', ws) = claim on r h req_port outbuf outlen s in
    if claims
    then (s', (eax, ws))
    else if code == 0x00220420
    then elim (driverkey on r actual s inbuf outbuf outlen bytesret) [
      | none ↦ (s, (eax, []))
      | some (armed, ks) ↦ (armed, (1, ks))
    ]
    else if eax == 0 && code == 0x00220410
    then elim (descriptor on r s h inbuf outbuf outlen bytesret) [
      | none ↦ (s, (eax, []))
      | some ds ↦ (s, (1, ds))
    ]
    else (s, (eax, []))
