-- ===== src/Base/Bytes.antt =====
-- Little-endian bytes of a machine word, and `memcpy` into a block of memory.
use native.Mathlib.Nat.{pow-suc}
use cmtp_responder.Base.{
  ℕ, zero, suc, ◌+◌, ◌*◌, ◌/◌, ◌%◌, ◌^◌, ◌≤◌, ◌<◌, ◌≡◌, refl, ap, List, [], ◌∷◌, ◌++◌, arith,
  length, drop,
}

-- The `w` bytes in which a little-endian machine keeps `v`.
unfoldable pub le_bytes : ℕ → ℕ → List ℕ
le_bytes zero v = []
le_bytes (suc w) v = (v % 256) ∷ le_bytes w (v / 256)

-- The number that the bytes stand for.
unfoldable pub le_value : List ℕ → ℕ
le_value [] = 0
le_value (b ∷ bs) = b + 256 * le_value bs

pub length-le_bytes : (w v : ℕ) → length (le_bytes w v) ≡ w
unfolding le_bytes
length-le_bytes zero v = refl
length-le_bytes (suc w) v = ap suc (length-le_bytes w (v / 256))

pub le_value-le_bytes : (w v : ℕ) → v < 256 ^ w → le_value (le_bytes w v) ≡ v
unfolding le_bytes le_value
le_value-le_bytes zero v h = omega arith
le_value-le_bytes (suc w) v h =
    omega (arith, le_value-le_bytes w (v / 256) (omega (arith, pow-suc 256 w)))

-- `memcpy(&dst[off], src, …)`; what would be written past the end of the block is dropped.
unfoldable pub blit : ℕ → List ℕ → List ℕ → List ℕ
blit zero [] dst = dst
blit zero (b ∷ bs) [] = []
blit zero (b ∷ bs) (d ∷ dst) = b ∷ blit zero bs dst
blit (suc off) src [] = []
blit (suc off) src (d ∷ dst) = d ∷ blit off src dst

pub length-blit : (off : ℕ) (src dst : List ℕ) → length (blit off src dst) ≡ length dst
unfolding blit
length-blit zero [] dst = refl
length-blit zero (b ∷ bs) [] = refl
length-blit zero (b ∷ bs) (d ∷ dst) = ap suc (length-blit zero bs dst)
length-blit (suc off) src [] = refl
length-blit (suc off) src (d ∷ dst) = ap suc (length-blit off src dst)

-- A block written from its start begins with the source and keeps what lies behind it.
pub blit_zero :
    (src dst : List ℕ) → length src ≤ length dst → blit 0 src dst ≡ src ++ drop (length src) dst
unfolding blit
blit_zero [] dst h = refl
blit_zero (b ∷ bs) [] h = elim h [ ]
blit_zero (b ∷ bs) (d ∷ dst) h = ap (λ l. b ∷ l) (blit_zero bs dst (omega arith))

-- A write behind a prefix leaves the prefix.
pub blit-append :
    (pre src dst : List ℕ) (off : ℕ)
    → off ≡ length pre
    → blit off src (pre ++ dst) ≡ pre ++ blit 0 src dst
unfolding blit
blit-append [] src dst zero e = refl
blit-append [] src dst (suc off) e = absurd (omega arith)
blit-append (p ∷ pre) src dst zero e = absurd (omega arith)
blit-append (p ∷ pre) src dst (suc off) e =
    ap (λ l. p ∷ l) (blit-append pre src dst off (omega arith))
