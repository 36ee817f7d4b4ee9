-- ===== src/Container/Blocks.antt =====
-- The data blocks and the responses of src/ptp_container.c: allocation, receipt, parameters.
use cmtp_responder.Base.{
  ℕ, zero, suc, ◌+◌, ◌*◌, ◌%◌, ◌^◌, ◌≤◌, ◌<◌, ◌≡◌, refl, ◌∙◌, ap, sym, true, some, List, [], ◌∷◌,
  ◌++◌, arith, ltb, length, get_or, drop, replicate, length-append, length-replicate, not-ltb,
  eq-==, inl, inr, Bool-cases, ltb→lt, ltb-false, length-drop, drop-replicate, drop-append,
  append-nil, append_assoc,
}
use cmtp_responder.Base.Bytes.{le_bytes, le_value, le_value-le_bytes, blit, blit_zero, blit-append}
use cmtp_responder.Property.PtpArray.{Allocator, Grants, zeroed}
use cmtp_responder.Container.{
  Header, CmdContainer, header_size, DataContainer, header_bytes, read_header, read_field,
  alloc_buf_data_container, rcv_data_container, get_payload_size, get_payload_data,
  add_param_resp_container, store_params, get_param_cmd_container,
}
use cmtp_responder.Container.Kind
use cmtp_responder.Container.Params.{HasFive, get_or-append_left}

-- The fields are the machine's words.
pub record InRange (h : Header) : Type 0 where
  pub len_fits : h.len < 2 ^ 32
  pub type_fits : h.type < 2 ^ 16
  pub code_fits : h.code < 2 ^ 16
  pub tid_fits : h.tid < 2 ^ 32

length-header_bytes : (h : Header) → length (header_bytes h) ≡ 12
unfolding header_bytes le_bytes
length-header_bytes h = refl

read_fields :
    (len type code tid : ℕ) (rest : List ℕ)
    → read_header (header_bytes (record { len = len; type = type; code = code; tid = tid }) ++ rest)
      ≡ record {
        len = le_value (le_bytes 4 len);
        type = le_value (le_bytes 2 type);
        code = le_value (le_bytes 2 code);
        tid = le_value (le_bytes 4 tid);
      }
unfolding read_header read_field header_bytes le_bytes
read_fields len type code tid rest = refl

-- A header is read back from its bytes.
pub read_header-header_bytes :
    (h : Header) (rest : List ℕ) → InRange h → read_header (header_bytes h ++ rest) ≡ h
read_header-header_bytes h rest p =
    rw
      (
        read_fields h.len h.type h.code h.tid rest,
        le_value-le_bytes 4 h.len (omega (arith, p.len_fits)),
        le_value-le_bytes 2 h.type (omega (arith, p.type_fits)),
        le_value-le_bytes 2 h.code (omega (arith, p.code_fits)),
        le_value-le_bytes 4 h.tid (omega (arith, p.tid_fits)),
      )
      refl

-- The header and a payload of the announced size fill the block.
blit-header_payload :
    (h : Header) (payload : List ℕ)
    → blit 12 payload (blit 0 (header_bytes h) (zeroed (12 + length payload)))
      ≡ header_bytes h ++ payload
unfolding zeroed
blit-header_payload h payload =
    let nul : ℕ = 0 in
    let n = length payload in
    let twelve = length-header_bytes h in
    let room : length (header_bytes h) ≤ length (replicate (12 + n) nul) =
      omega (arith, length-replicate (12 + n) nul) in
    let full : drop n (replicate n nul) ≡ [] =
      let whole_n : n + 0 ≡ n = omega arith in
      ap (λ j. drop n (replicate j nul)) (sym whole_n) ∙ drop-replicate n 0 nul in
    let rest : drop 12 (replicate (12 + n) nul) ≡ replicate n nul = drop-replicate 12 n 0 in
    let whole : blit 0 payload (replicate n nul) ≡ payload ++ [] =
      blit_zero payload (replicate n nul) (omega (arith, length-replicate n nul))
      ∙ ap (λ l. payload ++ l) full in
    rw (blit_zero (header_bytes h) (replicate (12 + n) nul) room, twelve, rest)
      (blit-append (header_bytes h) payload (replicate n nul) 12 (sym twelve)
        ∙ ap (λ l. header_bytes h ++ l) (whole ∙ append-nil payload))

-- A block that arrives leaves four bytes of the receiver's room unwritten.
blit-received :
    (bytes : List ℕ) (junk : ℕ)
    → blit 0 bytes (replicate (length bytes + 4) junk) ≡ bytes ++ replicate 4 junk
blit-received bytes junk =
    let n = length bytes in
    blit_zero bytes (replicate (n + 4) junk) (omega (arith, length-replicate (n + 4) junk))
    ∙ ap (λ l. bytes ++ l) (drop-replicate n 4 junk)

-- The header of a block for a payload of `n` bytes.
abbrev sized : Header → ℕ → Header
sized h n = record h { len = 12 + n }

alloc_buf_data_container_lem :
    (m : Allocator) (src : DataContainer) (n : ℕ)
    → Grants m
    → n + 16 < 2 ^ 32
    → alloc_buf_data_container m src n n ≡ (
      record {
        header = sized src.header n;
        block = some (blit 0 (header_bytes (sized src.header n)) (zeroed (12 + n)));
      },
      true,
    )
unfolding alloc_buf_data_container
alloc_buf_data_container_lem m src n g fits =
    let whole : (n + 12) % 2 ^ 64 ≡ 12 + n = omega arith in
    let kept : (n + 12) % 2 ^ 32 ≡ 12 + n = omega arith in
    rw (whole, kept, not-ltb 0xFFFFFFFF (12 + n) (omega arith), g.at (12 + n) (omega arith)) refl

rcv_data_container_lem :
    (m : Allocator) (dst : DataContainer) (h : Header) (payload : List ℕ)
    → Grants m
    → InRange h
    → h.len ≡ 12 + length payload
    → h.type ≡ Kind.data_blk
    → dst.code ≡ h.code
    → dst.tid ≡ h.tid
    → length payload + 16 < 2 ^ 32
    → rcv_data_container m dst (length payload) (header_bytes h ++ payload) ≡ (
      record { header = h; block = some ((header_bytes h ++ payload) ++ replicate 4 m.junk) },
      true,
    )
unfolding rcv_data_container
rcv_data_container_lem m dst h payload g p len kind code tid fits =
    let bytes = header_bytes h ++ payload in
    let long : length bytes ≡ 12 + length payload =
      omega (arith, length-append (header_bytes h) payload, length-header_bytes h) in
    let room : (length payload + 12 + 4) % 2 ^ 32 ≡ length bytes + 4 = omega arith in
    let header =
      ap read_header (append_assoc (header_bytes h) payload (replicate 4 m.junk))
      ∙ read_header-header_bytes h (payload ++ replicate 4 m.junk) p in
    rw
      (
        room,
        g.at (length bytes + 4) (omega arith),
        blit-received bytes m.junk,
        header,
        eq-== h.len (length bytes) (len ∙ sym long),
        eq-== h.type Kind.data_blk kind,
        eq-== h.code dst.code (sym code),
        eq-== h.tid dst.tid (sym tid),
      )
      refl

get_payload_lem :
    (h : Header) (blk : List ℕ) (n : ℕ)
    → h.len ≡ 12 + n
    → n + 16 < 2 ^ 32
    → get_payload_size (record { header = h; block = some blk }) ≡ n
unfolding get_payload_size
get_payload_lem h blk n len small = omega arith

drop-header :
    (h : Header) (payload rest : List ℕ)
    → drop 12 ((header_bytes h ++ payload) ++ rest) ≡ payload ++ rest
drop-header h payload rest =
    let twelve = length-header_bytes h in
    ap (drop 12) (append_assoc (header_bytes h) payload rest)
    ∙ (ap (λ k. drop k (header_bytes h ++ (payload ++ rest))) (sym twelve)
        ∙ drop-append (header_bytes h) (payload ++ rest))

-- A data block that the sender allocates for a payload and fills is accepted by a receiver that
-- waits for its code and transaction, with the payload's size and its bytes (four unwritten ones
-- follow). The payload, the header and the spare word fit in 32 bits, and the memory is granted.
pub rcv_data_container-alloc_buf_data_container :
    (m : Allocator) (src dst : DataContainer) (payload : List ℕ)
    → Grants m
    → src.type ≡ Kind.data_blk
    → src.code < 2 ^ 16
    → src.tid < 2 ^ 32
    → dst.code ≡ src.code
    → dst.tid ≡ src.tid
    → length payload + 16 < 2 ^ 32
    → (blk : List ℕ) × (c : DataContainer) × ((alloc_buf_data_container m src
          (length payload)
          (length payload)).0.block
        ≡ some blk)
      × (rcv_data_container m dst (length payload) (blit header_size payload blk) ≡ (c, true))
      × (get_payload_size c ≡ length payload)
      × (get_payload_data c ≡ some (payload ++ replicate 4 m.junk))
unfolding get_payload_data
rcv_data_container-alloc_buf_data_container m src dst payload g kind code tid same_code same_tid
      fits =
    let n = length payload in
    let h = sized src.header n in
    let bytes = header_bytes h ++ payload in
    let sent = alloc_buf_data_container_lem m src n g fits in
    let p : InRange h = record {
      len_fits = omega arith;
      type_fits = omega arith;
      code_fits = code;
      tid_fits = tid;
    } in
    let came = rcv_data_container_lem m dst h payload g p refl kind same_code same_tid fits in
    (
      blit 0 (header_bytes h) (zeroed (12 + n)),
      record { header = h; block = some (bytes ++ replicate 4 m.junk) },
      ap (λ r. r.0.block) sent,
      ap (rcv_data_container m dst n) (blit-header_payload h payload) ∙ came,
      get_payload_lem h (bytes ++ replicate 4 m.junk) n refl fits,
      ap some (drop-header h payload (replicate 4 m.junk)),
    )

store_params_lem :
    (params dst : List ℕ)
    → length params ≤ length dst
    → store_params (length params) params dst ≡ params ++ drop (length params) dst
unfolding store_params
store_params_lem [] dst h = refl
store_params_lem (p ∷ params) [] h = elim h [ ]
store_params_lem (p ∷ params) (d ∷ dst) h =
    ap (λ l. p ∷ l) (store_params_lem params dst (omega arith))

get_or-past : (xs : List ℕ) (i : ℕ) → length xs ≤ i → get_or xs i 0 ≡ 0
get_or-past [] i h = refl
get_or-past (x ∷ xs) zero h = elim h [ ]
get_or-past (x ∷ xs) (suc i) h = get_or-past xs i (omega arith)

get_param-stored :
    (h : Header) (params rest : List ℕ) (i : ℕ)
    → get_param_cmd_container
        (record { header = h; params = params ++ rest; no_param = length params })
        i
      ≡ get_or params i 0
unfolding get_param_cmd_container
get_param-stored h params rest i = elim (Bool-cases (ltb i (length params))) [
  | inl inside ↦
      let l = ltb→lt i (length params) inside in
      rw inside (
        get_or-append_left (params ++ rest) (length params ∷ []) i
          (omega (arith, length-append params rest))
        ∙ get_or-append_left params rest i l)
  | inr outside ↦ rw outside (sym (get_or-past params i (ltb-false i (length params) outside)))
]

-- A response holds what it is given: with at most five parameters its length counts them, each is
-- read back, and an index past them reads zero.
pub add_param_resp_container-get_param :
    (dst : CmdContainer) (params : List ℕ)
    → HasFive dst
    → length params ≤ 5
    → (d : CmdContainer) × (add_param_resp_container dst (length params) (some params) ≡ (d, true))
      × (d.len ≡ 12 + 4 * length params)
      × HasFive d
      × ((i : ℕ) → get_param_cmd_container d i ≡ get_or params i 0)
unfolding add_param_resp_container
add_param_resp_container-get_param dst params five few =
    let n = length params in
    let rest = drop n dst.params in
    let kept : store_params n params dst.params ≡ params ++ rest =
      store_params_lem params dst.params (omega arith) in
    let h = record dst.header { len = 12 + 4 * n } in
    (
      record { header = h; params = params ++ rest; no_param = n },
      rw (not-ltb 5 n few, kept) refl,
      refl,
      omega (arith, length-append params rest, length-drop n dst.params),
      get_param-stored h params rest,
    )
