-- ===== src/Base/Bits.antt =====
-- Bits of machine words: the operators `&` and `|` on words of a given width.
use Prim.Native.Nat.{ℕ, zero, suc, ◌+◌, ◌-◌, ◌*◌, ◌/◌, ◌%◌, ◌^◌, ◌<◌}
use mathlib.Core.Path.{◌≡◌, refl}
use mathlib.Core.Bool.{Bool, true, false, not, ◌&&◌, ◌||◌}
use native.Mathlib.Omega.{arith}
use jkyi_libco.Base.Tests.{◌==◌, if◌then◌else◌}

-- Bit `k` of `n`.
abbrev pub bit : ℕ → ℕ → Bool
bit zero n = n % 2 == 1
bit (suc k) n = bit k (n / 2)

abbrev pub digit : Bool → ℕ
digit b = if b then 1 else 0

-- `a & b` and `a | b` of words of `width` bits.
abbrev pub land : ℕ → ℕ → ℕ → ℕ
land zero a b = 0
land (suc w) a b = digit (bit 0 a && bit 0 b) + 2 * land w (a / 2) (b / 2)

abbrev pub lor : ℕ → ℕ → ℕ → ℕ
lor zero a b = 0
lor (suc w) a b = digit (bit 0 a || bit 0 b) + 2 * lor w (a / 2) (b / 2)

bit-digit : (b : Bool) (n : ℕ) → bit 0 (digit b + 2 * n) ≡ b
bit-digit true n = ground arith
bit-digit false n = ground arith

half-digit : (b : Bool) (n : ℕ) → (digit b + 2 * n) / 2 ≡ n
half-digit true n = omega arith
half-digit false n = omega arith

pub bit-land : (w k a b : ℕ) → k < w → bit k (land w a b) ≡ (bit k a && bit k b)
bit-land zero k a b h = absurd (omega arith)
bit-land (suc w) zero a b h = bit-digit (bit 0 a && bit 0 b) (land w (a / 2) (b / 2))
bit-land (suc w) (suc k) a b h = rw (
  half-digit (bit 0 a && bit 0 b) (land w (a / 2) (b / 2)),
  bit-land w k (a / 2) (b / 2) (omega arith),
)

pub bit-lor : (w k a b : ℕ) → k < w → bit k (lor w a b) ≡ (bit k a || bit k b)
bit-lor zero k a b h = absurd (omega arith)
bit-lor (suc w) zero a b h = bit-digit (bit 0 a || bit 0 b) (lor w (a / 2) (b / 2))
bit-lor (suc w) (suc k) a b h = rw (
  half-digit (bit 0 a || bit 0 b) (lor w (a / 2) (b / 2)),
  bit-lor w k (a / 2) (b / 2) (omega arith),
)

pub bit-zero : (k : ℕ) → bit k 0 ≡ false
bit-zero zero = refl
bit-zero (suc k) = bit-zero k

-- A single bit, and `~a`.
pub bit-pow : (k j : ℕ) → bit k (2 ^ j) ≡ (k == j)
bit-pow zero zero = refl
bit-pow zero (suc j) = ground arith
bit-pow (suc k) zero = ground (arith, bit-zero k)
bit-pow (suc k) (suc j) =
    let half : 2 ^ suc j / 2 ≡ 2 ^ j = omega arith in rw (half, bit-pow k j) (ground arith)

abbrev pub lnot : ℕ → ℕ → ℕ
lnot w a = 2 ^ w - 1 - a

pub bit-lnot : (w k a : ℕ) → k < w → a < 2 ^ w → bit k (lnot w a) ≡ not (bit k a)
bit-lnot zero k a h small = absurd (omega arith)
bit-lnot (suc w) zero a h small = ground arith
bit-lnot (suc w) (suc k) a h small =
    let half : lnot (suc w) a / 2 ≡ lnot w (a / 2) = omega arith in
    rw (half) (bit-lnot w k (a / 2) (omega arith) (omega arith))
