-- ===== src/Handler/Told/Parsed.antt =====
-- `_prop_parse_rawstring` of src/entity/mtp_property.c on what SendObjectInfo brings: no write in
-- front of the name's array.
use cmtp_responder.Base.Bytes.{blit}
use cmtp_responder.Base.{
  ℕ, zero, suc, ◌+◌, ◌-◌, ◌%◌, ◌^◌, ◌≤◌, ◌<◌, ◌≡◌, refl, ◌∙◌, ap, inl, inr, true, some, List, [],
  ◌∷◌, arith, ltb, ◌==◌, Bool-cases, ne_of_==, ltb→lt, is_some, if◌then◌else◌, length, get_or, drop,
  replicate, length-replicate,
}
use cmtp_responder.Property.PtpString.{PtpString, parse_rawstring, seal, clamp_count, room_for}

seal_total : (n : ℕ) (str : List ℕ) → 0 < n → is_some (seal n str) ≡ true
unfolding seal
seal_total zero str h = elim h [ ]
seal_total (suc n) str h = refl

clamped :
    (r count : ℕ) → 0 < count → count < 256 → 0 < r → 0 < (if ltb r count then r % 256 else count)
clamped r count pos small room = elim (Bool-cases (ltb r count)) [
  | inl cut ↦ rw cut (omega (arith, ltb→lt r count cut))
  | inr whole ↦ rw whole pos
]

clamp_count_pos :
    (count size : ℕ) → 0 < count → count < 256 → 0 < room_for size → 0 < clamp_count count size
unfolding clamp_count
clamp_count_pos count size = clamped (room_for size) count

pub parse_rawstring_total :
    (p : PtpString) (buf : List ℕ) (size : ℕ)
    → get_or buf 0 0 < 256
    → 0 < room_for size
    → is_some (parse_rawstring p (some buf) size) ≡ true
unfolding parse_rawstring
parse_rawstring_total p buf size small room = elim (Bool-cases (get_or buf 0 0 == 0)) [
  | inl empty ↦ rw empty refl
  | inr full ↦ rw full (
      seal_total _ _ (
        clamp_count_pos (get_or buf 0 0) size (omega (arith, ne_of_== (get_or buf 0 0) 0 full))
          small room))
]

-- The size of a payload that the transport could deliver leaves room.
pub room_for_payload :
    (len : ℕ)
    → len ≤ 32016
    → 52 ≤ (len + 2 ^ 32 - 12) % 2 ^ 32
    → 0 < room_for ((len + 2 ^ 32 - 12) % 2 ^ 32)
unfolding room_for
room_for_payload len few long = omega arith

get_or-drop : (k i z : ℕ) (l : List ℕ) → get_or (drop k l) i z ≡ get_or l (k + i) z
get_or-drop zero i z l = ap (λ j. get_or l j z) (omega arith)
get_or-drop (suc k) i z [] = refl
get_or-drop (suc k) i z (x ∷ l) =
    let step : suc (k + i) ≡ suc k + i = omega arith in
    get_or-drop k i z l ∙ ap (λ j. get_or (x ∷ l) j z) step

get_or-replicate : (n i a z : ℕ) → i < n → get_or (replicate n a) i z ≡ a
get_or-replicate zero i a z h = elim h [ ]
get_or-replicate (suc n) zero a z h = refl
get_or-replicate (suc n) (suc i) a z h = get_or-replicate n i a z (omega arith)

get_or-blit :
    (src dst : List ℕ) (i z : ℕ)
    → length src ≤ length dst
    → get_or (blit 0 src dst) i z ≡ get_or src i (get_or dst i z)
unfolding blit
get_or-blit [] dst i z h = refl
get_or-blit (b ∷ bs) [] i z h = elim h [ ]
get_or-blit (b ∷ bs) (d ∷ dst) zero z h = refl
get_or-blit (b ∷ bs) (d ∷ dst) (suc i) z h = get_or-blit bs dst i z (omega arith)

-- The byte behind 64 of a received block is that which came, or what memory held.
pub count_byte :
    (received : List ℕ) (n junk : ℕ)
    → length received ≤ n
    → 64 < n
    → get_or (drop 52 (drop 12 (blit 0 received (replicate n junk)))) 0 0 ≡ get_or received 64 junk
count_byte received n junk fits long =
    get_or-drop 52 0 0 (drop 12 (blit 0 received (replicate n junk)))
    ∙ get_or-drop 12 52 0 (blit 0 received (replicate n junk))
    ∙ get_or-blit received (replicate n junk) 64 0 (omega (arith, length-replicate n junk))
    ∙ ap (get_or received 64) (get_or-replicate n 64 junk 0 long)
