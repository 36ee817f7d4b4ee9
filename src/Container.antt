-- ===== src/Container.antt =====
-- src/ptp_container.c, include/ptp_container.h: the command, response, event and data blocks of
-- the protocol, on a little-endian machine (where the byte-order conversions are empty).
pub mod Blocks
pub mod Kind
pub mod Params
use cmtp_responder.Base.Bytes.{le_bytes, le_value, blit}
use cmtp_responder.Property.PtpArray.{Allocator, zeroed}
use cmtp_responder.Base.{
  ℕ, zero, suc, ◌+◌, ◌-◌, ◌*◌, ◌/◌, ◌%◌, ◌^◌, Bool, true, false, not, Option, none, some, List, [],
  ◌∷◌, ◌++◌, ltb, ◌==◌, ◌||◌, ◌&&◌, if◌then◌else◌, length, get_or, set, take, drop, replicate,
}

abbrev pub max_mtp_params : ℕ
max_mtp_params = 5

-- `sizeof(header_container_t)` and `sizeof(cmd_container_t)`.
abbrev pub header_size : ℕ
header_size = 12

abbrev pub cmd_size : ℕ
cmd_size = 36

-- `header_container_t`
pub record Header : Type 0 where
  pub len : ℕ
  pub type : ℕ
  pub code : ℕ
  pub tid : ℕ

-- `cmd_container_t`: the header, five parameters and their count.
pub record CmdContainer : Type 0 where
  pub header : Header
  pub open header use *
  pub params : List ℕ
  pub no_param : ℕ

-- `data_container_t` without the parameters, which no function of the file sets or reads.
pub record DataContainer : Type 0 where
  pub header : Header
  pub open header use *
  pub block : Option (List ℕ)

-- The words behind the header: `no_param` stands where `params[5]` would.
abbrev pub words : CmdContainer → List ℕ
words c = c.params ++ c.no_param ∷ []

unfoldable pub init_cmd_container : CmdContainer → CmdContainer
init_cmd_container c = record c {
  header = record { len = header_size; type = Kind.undefined; code = 0; tid = 0 };
  no_param = 0;
}

unfoldable pub get_param_cmd_container : CmdContainer → ℕ → ℕ
get_param_cmd_container c index = if ltb index c.no_param then get_or (words c) index 0 else 0

-- `for (ii = 0; ii < dst->no_param; ii++) dst->params[ii] = src->params[ii];` over the words of the
-- two structures. The sixth word is the count itself, which the test reads anew; `none` is an
-- access past the end of the structures. Seven rounds reach the end or such an access.
pub copy_words : ℕ → ℕ → List ℕ → List ℕ → Option (List ℕ)
copy_words zero ii src dst = none
copy_words (suc rounds) ii src dst =
    let next = copy_words rounds (ii + 1) src (set dst ii (get_or src ii 0)) in
    if ltb ii (get_or dst 5 0) then (if ltb ii 6 then next else none) else some dst

-- The structure that holds the words.
of_words : Header → Option (List ℕ) → Option CmdContainer
of_words h none = none
of_words h (some ws) = some (record { header = h; params = take 5 ws; no_param = get_or ws 5 0 })

pub copy_params : CmdContainer → CmdContainer → ℕ → Option CmdContainer
unfolding copy_words of_words
copy_params src dst no_param =
    of_words src.header (copy_words 7 0 (words src) (dst.params ++ no_param ∷ []))

-- The number of parameters is what the length says, computed in 64 bits and kept in 32.
unfoldable pub copy_cmd_container_unknown_params : CmdContainer → CmdContainer → Option CmdContainer
copy_cmd_container_unknown_params src dst =
    copy_params src dst (((src.len + 2 ^ 64 - header_size) % 2 ^ 64) / 4 % 2 ^ 32)

unfoldable pub copy_cmd_container : CmdContainer → CmdContainer → Option CmdContainer
copy_cmd_container src dst = copy_params src dst src.no_param

-- `for (ii = 0; ii < dst->no_param; ii++) dst->params[ii] = params[ii];`
store_params : ℕ → List ℕ → List ℕ → List ℕ
store_params zero params dst = dst
store_params (suc n) [] dst = dst
store_params (suc n) (p ∷ params) [] = []
store_params (suc n) (p ∷ params) (d ∷ dst) = p ∷ store_params n params dst

-- `none` is a NULL array of parameters.
unfoldable pub add_param_resp_container : CmdContainer → ℕ → Option (List ℕ) → CmdContainer × Bool
unfolding store_params
add_param_resp_container dst num none =
    if ltb max_mtp_params num
    then (dst, false)
    else if not (num == 0)
    then (dst, false)
    else (record dst { header = record dst.header { len = header_size }; no_param = 0 }, true)
add_param_resp_container dst num (some params) = if ltb max_mtp_params num then (dst, false) else (
  record dst {
    header = record dst.header { len = header_size + 4 * num };
    no_param = num;
    params = store_params num params dst.params;
  },
  true,
)

-- A field of a block of memory.
unfoldable pub read_field : ℕ → ℕ → List ℕ → ℕ
read_field width off blk = le_value (take width (drop off blk))

-- `(header_container_t *)blk`
unfoldable pub read_header : List ℕ → Header
unfolding read_field
read_header blk = record {
  len = read_field 4 0 blk;
  type = read_field 2 4 blk;
  code = read_field 2 6 blk;
  tid = read_field 4 8 blk;
}

-- `(cmd_container_t *)blk`
unfoldable pub read_cmd : List ℕ → CmdContainer
unfolding read_header read_field
read_cmd blk = record {
  header = read_header blk;
  params =
      read_field 4 12 blk
      ∷ read_field 4 16 blk
      ∷ read_field 4 20 blk
      ∷ read_field 4 24 blk
      ∷ read_field 4 28 blk
      ∷ [];
  no_param = read_field 4 32 blk;
}

unfoldable pub validate_cmd_container : List ℕ → ℕ → Bool
unfolding read_header
validate_cmd_container blk size =
    if ltb size header_size || ltb cmd_size size
    then false
    else let h = read_header blk in
      if not (h.len == size) || not (h.type == Kind.cmd_blk) then false else true

unfoldable pub init_data_container : ℕ → ℕ → DataContainer
init_data_container code trans_id = record {
  header = record { len = header_size; type = Kind.data_blk; code = code; tid = trans_id };
  block = none;
}

unfoldable pub header_bytes : Header → List ℕ
header_bytes h = le_bytes 4 h.len ++ (le_bytes 2 h.type ++ (le_bytes 2 h.code ++ le_bytes 4 h.tid))

-- The container with its block, and whether there is one; the payload starts behind the header.
unfoldable pub alloc_buf_data_container : Allocator → DataContainer → ℕ → ℕ → DataContainer × Bool
unfolding header_bytes
alloc_buf_data_container m dst bufsz pkt_size =
    let whole = (pkt_size + header_size) % 2 ^ 64 in
    let announced = if ltb 0xFFFFFFFF whole then 0xFFFFFFFF else whole in
    let blk_len = (bufsz + header_size) % 2 ^ 32 in
    if m.malloc blk_len
    then (
      record {
        header = record dst.header { len = blk_len };
        block =
            some (blit 0 (header_bytes (record dst.header { len = announced })) (zeroed blk_len));
      },
      true,
    )
    else (record dst { block = none }, false)

-- The transport delivers `received` into a fresh block of `size + 16` bytes. On a mismatch the
-- container keeps the header that came.
unfoldable pub rcv_data_container :
    Allocator → DataContainer → ℕ → (received : List ℕ) → DataContainer × Bool
rcv_data_container m dst size received =
    let blk_size = (size + header_size + 4) % 2 ^ 32 in
    if m.malloc blk_size
    then (let blk = blit 0 received (replicate blk_size m.junk) in
        let h = read_header blk in
        (
          record { header = h; block = some blk },
          h.len == length received
              && (h.type == Kind.data_blk && (h.code == dst.code && h.tid == dst.tid)),
        ))
    else (record dst { block = none }, false)

unfoldable pub get_payload_size : DataContainer → ℕ
get_payload_size d = elim d.block [ none ↦ 0 | some blk ↦ (d.len + 2 ^ 32 - header_size) % 2 ^ 32 ]

unfoldable pub get_payload_data : DataContainer → Option (List ℕ)
get_payload_data d = elim d.block [ none ↦ none | some blk ↦ some (drop header_size blk) ]

unfoldable pub resp_container_init : CmdContainer → ℕ → ℕ → CmdContainer
unfolding init_cmd_container
resp_container_init dst resp_code tid = record (init_cmd_container dst) {
  header = record { len = header_size; type = Kind.resp_blk; code = resp_code; tid = tid };
}

-- The second parameter is not stored.
unfoldable pub init_event_container : CmdContainer → ℕ → ℕ → ℕ → ℕ → CmdContainer
init_event_container dst code tid param1 param2 = record {
  header = record { len = header_size + 4; type = Kind.event_blk; code = code; tid = tid };
  params = set dst.params 0 param1;
  no_param = 1;
}
