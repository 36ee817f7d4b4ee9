-- ===== src/Container/Params.antt =====
-- The parameters of command and response blocks (src/ptp_container.c): what the copies carry over,
-- and which validated commands they overrun.
use cmtp_responder.Base.{
  ℕ, zero, suc, ◌+◌, ◌-◌, ◌/◌, ◌%◌, ◌^◌, ◌≤◌, ◌<◌, ◌≡◌, refl, ◌∙◌, ap, sym, inl, inr, true, none,
  some, List, [], ◌∷◌, ◌++◌, arith, ltb, ltb→lt, lt→ltb, Bool-cases, length, get_or, take,
}
use cmtp_responder.Container.{
  CmdContainer, words, get_param_cmd_container, copy_words, of_words, copy_params,
  copy_cmd_container_unknown_params, copy_cmd_container, read_cmd, read_header,
  validate_cmd_container,
}

-- The structure has its five parameters.
abbrev pub HasFive : CmdContainer → Type 0
HasFive c = length c.params ≡ 5

get_or-take_self : (n i : ℕ) (xs : List ℕ) → i < n → get_or (take n xs) i 0 ≡ get_or xs i 0
get_or-take_self zero i xs l = elim l [ ]
get_or-take_self (suc n) i [] l = refl
get_or-take_self (suc n) zero (x ∷ xs) l = refl
get_or-take_self (suc n) (suc i) (x ∷ xs) l = get_or-take_self n i xs (omega arith)

five : (xs : List ℕ) → length xs ≡ 5 → (a b c d e : ℕ) × (xs ≡ a ∷ b ∷ c ∷ d ∷ e ∷ [])
five (a ∷ b ∷ c ∷ d ∷ e ∷ []) h = (a, b, c, d, e, refl)
five _ h = absurd (omega arith)

-- What a copy of `n` parameters gives.
pub record CopyOf (src : CmdContainer) (n : ℕ) (d : CmdContainer) : Type 0 where
  pub header_eq : d.header ≡ src.header
  pub count : d.no_param ≡ n
  pub five_left : HasFive d
  pub same : take n (words d) ≡ take n (words src)

copy_words_lem :
    (n a b c d e s a' b' c' d' e' : ℕ)
    → n ≤ 5
    → (out : List ℕ) × (copy_words 7 0
          (a ∷ b ∷ c ∷ d ∷ e ∷ s ∷ [])
          (a' ∷ b' ∷ c' ∷ d' ∷ e' ∷ n ∷ [])
        ≡ some (out ++ n ∷ []))
      × (length out ≡ 5)
      × (take n (out ++ n ∷ []) ≡ take n (a ∷ b ∷ c ∷ d ∷ e ∷ s ∷ []))
unfolding copy_words
copy_words_lem zero a b c d e s a' b' c' d' e' h = (a' ∷ b' ∷ c' ∷ d' ∷ e' ∷ [], refl, refl, refl)
copy_words_lem (suc zero) a b c d e s a' b' c' d' e' h =
    (a ∷ b' ∷ c' ∷ d' ∷ e' ∷ [], refl, refl, refl)
copy_words_lem (suc (suc zero)) a b c d e s a' b' c' d' e' h =
    (a ∷ b ∷ c' ∷ d' ∷ e' ∷ [], refl, refl, refl)
copy_words_lem (suc (suc (suc zero))) a b c d e s a' b' c' d' e' h =
    (a ∷ b ∷ c ∷ d' ∷ e' ∷ [], refl, refl, refl)
copy_words_lem (suc (suc (suc (suc zero)))) a b c d e s a' b' c' d' e' h =
    (a ∷ b ∷ c ∷ d ∷ e' ∷ [], refl, refl, refl)
copy_words_lem (suc (suc (suc (suc (suc zero))))) a b c d e s a' b' c' d' e' h =
    (a ∷ b ∷ c ∷ d ∷ e ∷ [], refl, refl, refl)
copy_words_lem (suc (suc (suc (suc (suc (suc n)))))) a b c d e s a' b' c' d' e' h =
    absurd (omega arith)

last_word :
    (out : List ℕ) (n : ℕ)
    → length out ≡ 5
    → (get_or (out ++ n ∷ []) 5 0 ≡ n) × (take 5 (out ++ n ∷ []) ≡ out)
last_word out n h = let (a, b, c, d, e, eq) = five out h in rw eq (refl, refl)

-- Up to five parameters are copied whole, with the count and the header.
copy_params_lem :
    (src dst : CmdContainer) (n : ℕ)
    → HasFive src
    → HasFive dst
    → n ≤ 5
    → (d : CmdContainer) × (copy_params src dst n ≡ some d) × CopyOf src n d
unfolding copy_params of_words
copy_params_lem src dst n hs hd few =
    let (a, b, c, d, e, eq) = five src.params hs in
    let (a', b', c', d', e', eq') = five dst.params hd in
    let (out, ran, long, same) = copy_words_lem n a b c d e src.no_param a' b' c' d' e' few in
    let (count, front) = last_word out n long in
    (
      record { header = src.header; params = out; no_param = n },
      rw (eq, eq', ran, count, front),
      record { header_eq = refl; count = refl; five_left = long; same = rw eq same },
    )

get_or-take :
    (n i : ℕ) (xs ys : List ℕ) → take n xs ≡ take n ys → i < n → get_or xs i 0 ≡ get_or ys i 0
get_or-take n i xs ys e l =
    sym (get_or-take_self n i xs l) ∙ ap (λ z. get_or z i 0) e ∙ get_or-take_self n i ys l

get_param-same :
    (d src : CmdContainer)
    → d.no_param ≡ src.no_param
    → take src.no_param (words d) ≡ take src.no_param (words src)
    → (i : ℕ) → get_param_cmd_container d i ≡ get_param_cmd_container src i
unfolding get_param_cmd_container
get_param-same d src count same i = elim (Bool-cases (ltb i src.no_param)) [
  | inl inside ↦
      rw (ap (ltb i) count ∙ inside, inside)
        (get_or-take src.no_param i (words d) (words src) same (ltb→lt i src.no_param inside))
  | inr outside ↦ rw (ap (ltb i) count ∙ outside, outside)
]

-- Copying a block with at most five parameters gives a block with the same header from which every
-- parameter, the missing ones too, is read alike.
pub copy_cmd_container-get_param :
    (src dst : CmdContainer)
    → HasFive src
    → HasFive dst
    → src.no_param ≤ 5
    → (d : CmdContainer) × (copy_cmd_container src dst ≡ some d)
      × (d.header ≡ src.header)
      × ((i : ℕ) → get_param_cmd_container d i ≡ get_param_cmd_container src i)
unfolding copy_cmd_container
copy_cmd_container-get_param src dst hs hd few =
    let (d, eq, p) = copy_params_lem src dst src.no_param hs hd few in
    (d, eq, p.header_eq, get_param-same d src p.count p.same)

read_cmd-HasFive : (blk : List ℕ) → HasFive (read_cmd blk)
unfolding read_cmd
read_cmd-HasFive blk = refl

-- What a validated command block says of itself.
validated :
    (blk : List ℕ) (size : ℕ)
    → validate_cmd_container blk size ≡ true
    → (12 ≤ size) × (size ≤ 36) × ((read_cmd blk).len ≡ size)
unfolding validate_cmd_container read_cmd
validated blk size h = ground arith

read_cmd-header : (blk : List ℕ) → (read_cmd blk).header ≡ read_header blk
unfolding read_cmd
read_cmd-header blk = refl

pub get_or-append_left :
    (xs ys : List ℕ) (i : ℕ) → i < length xs → get_or (xs ++ ys) i 0 ≡ get_or xs i 0
get_or-append_left [] ys i l = elim l [ ]
get_or-append_left (x ∷ xs) ys zero l = refl
get_or-append_left (x ∷ xs) ys (suc i) l = get_or-append_left xs ys i (omega arith)

-- A copied parameter is the word at its place.
get_param-CopyOf :
    (src d : CmdContainer) (n i : ℕ)
    → HasFive src
    → CopyOf src n d
    → n ≤ 5
    → i < n
    → get_param_cmd_container d i ≡ get_or src.params i 0
unfolding get_param_cmd_container
get_param-CopyOf src d n i hs p few l =
    rw (ap (ltb i) p.count, lt→ltb i n l)
      (get_or-take n i (words d) (words src) p.same l
        ∙ get_or-append_left src.params (src.no_param ∷ []) i (omega arith))

-- The seventh round reads the word that overwrote the count.
copy_words_overrun :
    (a b c d e s a' b' c' d' e' : ℕ)
    → 6 < s
    → copy_words 7 0 (a ∷ b ∷ c ∷ d ∷ e ∷ s ∷ []) (a' ∷ b' ∷ c' ∷ d' ∷ e' ∷ 6 ∷ []) ≡ none
unfolding copy_words
copy_words_overrun a b c d e s a' b' c' d' e' h = rw (lt→ltb 6 s h) refl

copy_params_overrun :
    (src dst : CmdContainer)
    → HasFive src
    → HasFive dst
    → 6 < src.no_param
    → copy_params src dst 6 ≡ none
unfolding copy_params of_words
copy_params_overrun src dst hs hd h =
    let (a, b, c, d, e, eq) = five src.params hs in
    let (a', b', c', d', e', eq') = five dst.params hd in
    rw (eq, eq', copy_words_overrun a b c d e src.no_param a' b' c' d' e' h) refl

-- A validated command of less than 36 bytes is copied whole: as many parameters as its length
-- says, each the word at its place in the block.
pub copy_cmd_container_unknown_params-validated :
    (blk : List ℕ) (size : ℕ) (dst : CmdContainer)
    → HasFive dst
    → validate_cmd_container blk size ≡ true
    → size < 36
    → (d : CmdContainer) × (copy_cmd_container_unknown_params (read_cmd blk) dst ≡ some d)
      × (d.header ≡ read_header blk)
      × (d.no_param ≡ (size - 12) / 4)
      × ((i : ℕ)
          → i < (size - 12) / 4
          → get_param_cmd_container d i ≡ get_or (read_cmd blk).params i 0)
unfolding copy_cmd_container_unknown_params
copy_cmd_container_unknown_params-validated blk size dst hd valid short =
    let (low, high, len) = validated blk size valid in
    let count : ((read_cmd blk).len + 2 ^ 64 - 12) % 2 ^ 64 / 4 % 2 ^ 32 ≡ (size - 12) / 4 =
      omega arith in
    let (d, eq, p) =
      copy_params_lem (read_cmd blk) dst ((size - 12) / 4) (read_cmd-HasFive blk) hd
        (omega arith) in
    (
      d,
      ap (copy_params (read_cmd blk) dst) count ∙ eq,
      p.header_eq ∙ read_cmd-header blk,
      p.count,
      λ i l.
          get_param-CopyOf (read_cmd blk) d ((size - 12) / 4) i (read_cmd-HasFive blk) p
            (omega arith) l,
    )

-- A validated command of 36 bytes whose last word exceeds six is copied past the end of both
-- structures: the sixth parameter overwrites the count that bounds the loop.
pub copy_cmd_container_unknown_params_overrun :
    (blk : List ℕ) (dst : CmdContainer)
    → HasFive dst
    → validate_cmd_container blk 36 ≡ true
    → 6 < (read_cmd blk).no_param
    → copy_cmd_container_unknown_params (read_cmd blk) dst ≡ none
unfolding copy_cmd_container_unknown_params
copy_cmd_container_unknown_params_overrun blk dst hd valid more =
    let (low, high, len) = validated blk 36 valid in
    let count : ((read_cmd blk).len + 2 ^ 64 - 12) % 2 ^ 64 / 4 % 2 ^ 32 ≡ 6 = omega arith in
    ap (copy_params (read_cmd blk) dst) count
    ∙ copy_params_overrun (read_cmd blk) dst (read_cmd-HasFive blk) hd more
