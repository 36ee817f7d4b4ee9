-- ===== src/Examples/Blocks.antt =====
-- Runs of the functions of src/ptp_container.c.
use cmtp_responder.Base.{
  ℕ, ◌≡◌, refl, true, none, some, List, [], ◌∷◌, ◌++◌, arith, length, replicate,
}
use cmtp_responder.Base.Bytes.{blit, le_value}
use cmtp_responder.Examples.{granting, granting-Grants}
use cmtp_responder.Container.{
  CmdContainer, DataContainer, header_size, copy_cmd_container_unknown_params, read_cmd,
  validate_cmd_container, alloc_buf_data_container, rcv_data_container, get_payload_size,
  get_payload_data,
}
use cmtp_responder.Container.Params.{copy_cmd_container_unknown_params_overrun}
use cmtp_responder.Container.Blocks.{rcv_data_container-alloc_buf_data_container}

-- `GetObject` in the fourth transaction, with one parameter of two filled in.
abbrev command : CmdContainer
command = record {
  header = record { len = 16; type = 1; code = 0x1009; tid = 4 };
  params = 65540 ∷ 0 ∷ 0 ∷ 0 ∷ 0 ∷ [];
  no_param = 1;
}

-- The same command on the wire, behind it what the buffer held before.
abbrev command_bytes : List ℕ
command_bytes = 16 ∷ 0 ∷ 0 ∷ 0 ∷ 1 ∷ 0 ∷ 9 ∷ 16 ∷ 4 ∷ 0 ∷ 0 ∷ 0 ∷ 4 ∷ 0 ∷ 1 ∷ 0 ∷ replicate 20 0

-- A block of 36 bytes whose last word is seven.
abbrev long_bytes : List ℕ
long_bytes = 36 ∷ 0 ∷ 0 ∷ 0 ∷ 1 ∷ 0 ∷ 9 ∷ 16 ∷ 4 ∷ 0 ∷ 0 ∷ 0 ∷ replicate 20 0 ++ 7 ∷ 0 ∷ 0 ∷ 0 ∷ []

copy_cmd_container_unknown_params_overrun_example :
    copy_cmd_container_unknown_params (read_cmd long_bytes) command ≡ none
unfolding validate_cmd_container read_cmd le_value
copy_cmd_container_unknown_params_overrun_example =
    copy_cmd_container_unknown_params_overrun long_bytes command refl refl (omega arith)

abbrev outgoing : DataContainer
outgoing = record { header = record { len = 12; type = 2; code = 0x1009; tid = 4 }; block = none }

abbrev payload : List ℕ
payload = 1 ∷ 2 ∷ 3 ∷ []

rcv_data_container_example :
    (blk : List ℕ) × (c : DataContainer) × ((alloc_buf_data_container granting outgoing
        (length payload)
        (length payload)).0.block
      ≡ some blk)
    × (rcv_data_container granting outgoing (length payload) (blit header_size payload blk)
        ≡ (c, true))
    × (get_payload_size c ≡ length payload)
    × (get_payload_data c ≡ some (payload ++ replicate 4 7))
rcv_data_container_example =
    rcv_data_container-alloc_buf_data_container granting outgoing outgoing payload granting-Grants
      refl (omega arith) (omega arith) refl refl (omega arith)
