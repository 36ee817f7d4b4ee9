-- ===== src/Examples/Transfers.antt =====
-- Runs of src/util/mtp_support.c and of src/transport/.
use cmtp_responder.Base.{ℕ, ◌≡◌, refl, Bool, true, some, List, [], ◌∷◌, ◌++◌, arith}
use cmtp_responder.Support.{slash, get_file_name, get_parent_path, conv_wstr_to_guid}
use cmtp_responder.Support.Paths.{get_file_name-get_parent_path}
use cmtp_responder.Support.Wide.{conv_wstr_to_guid_swap}
use cmtp_responder.Transport.{
  Msg, data_packet, bulk_packet, send_pkt_to_tx_mq, send_bulk_pkt_to_tx_mq,
}
use cmtp_responder.Transport.Split.{IsSplit, post_all, send_pkt_to_tx_mq-IsSplit}

get_file_name_example :
    (get_file_name (slash ∷ 97 ∷ [] ++ slash ∷ 98 ∷ 99 ∷ []) ≡ 98 ∷ 99 ∷ [])
    × (get_parent_path (slash ∷ 97 ∷ [] ++ slash ∷ 98 ∷ 99 ∷ []) ≡ some (slash ∷ 97 ∷ []))
get_file_name_example =
    get_file_name-get_parent_path (slash ∷ 97 ∷ []) (98 ∷ 99 ∷ [])
      (λ e. omega (arith, e), (λ e. omega (arith, e), tt))

abbrev eight : List ℕ
eight = 1 ∷ 2 ∷ 3 ∷ 4 ∷ 5 ∷ 6 ∷ 7 ∷ 8 ∷ []

abbrev others : List ℕ
others = 9 ∷ 9 ∷ 9 ∷ 9 ∷ 4 ∷ 4 ∷ 4 ∷ 4 ∷ []

conv_wstr_to_guid_example :
    conv_wstr_to_guid (eight ++ (others ++ 5 ∷ []))
    ≡ conv_wstr_to_guid (others ++ (eight ++ 5 ∷ []))
conv_wstr_to_guid_example = conv_wstr_to_guid_swap eight others (5 ∷ []) refl refl

abbrev taking : List Msg → Bool
taking queue = true

-- Five bytes in packets of two.
send_pkt_to_tx_mq_example :
    ((fulls : List (List ℕ)) × (last : List ℕ) × IsSplit 2 (1 ∷ 2 ∷ 3 ∷ 4 ∷ 5 ∷ []) fulls last
      × (send_pkt_to_tx_mq taking 2 (some (1 ∷ 2 ∷ 3 ∷ 4 ∷ 5 ∷ [])) []
          ≡ some (record { queue = post_all data_packet (fulls ++ last ∷ []) []; sent = 5 })))
    × ((fulls : List (List ℕ)) × (last : List ℕ) × IsSplit 2 (1 ∷ 2 ∷ 3 ∷ 4 ∷ 5 ∷ []) fulls last
        × (send_bulk_pkt_to_tx_mq taking 2 (some (1 ∷ 2 ∷ 3 ∷ 4 ∷ 5 ∷ [])) []
            ≡ some (record { queue = post_all bulk_packet (fulls ++ last ∷ []) []; sent = 5 })))
send_pkt_to_tx_mq_example =
    send_pkt_to_tx_mq-IsSplit taking (λ queue. refl) 2 (omega arith) (1 ∷ 2 ∷ 3 ∷ 4 ∷ 5 ∷ []) []
      (omega arith)
