-- ===== src/Prelude/Words.antt =====
-- Machine words: wrap-around, shifts, and the masks on bytes that the packet headers use. A mask is
-- the native `bit_and`; each law is checked for all 256 bytes by evaluation.
use Prim.Native.Nat.{ℕ, zero, suc, ◌+◌, ◌*◌, ◌/◌, ◌%◌, ◌^◌, ◌<◌, bit_and, bit_or}
use mathlib.Core.Path.{◌≡◌, refl}
use mathlib.Core.Bool.{Bool, true, ◌&&◌}
use native.Mathlib.Omega.{arith}
use ucloud_iot_rtthread_pack.Prelude.Tests.{◌==◌, ==_iff}

abbrev pub u8 : ℕ → ℕ
u8 n = n % 2 ^ 8

abbrev pub u16 : ℕ → ℕ
u16 n = n % 2 ^ 16

abbrev pub u32 : ℕ → ℕ
u32 n = n % 2 ^ 32

abbrev pub shl : ℕ → ℕ → ℕ
shl x k = x * 2 ^ k

abbrev pub shr : ℕ → ℕ → ℕ
shr x k = x / 2 ^ k

-- Does a test hold at every number below the bound?
unfoldable pub every : (ℕ → Bool) → ℕ → Bool
every test zero = true
every test (suc k) = test k && every test k

pub every-below : (test : ℕ → Bool) (k i : ℕ) → every test k ≡ true → i < k → test i ≡ true
unfolding every
every-below test zero i e h = absurd (omega arith)
every-below test (suc k) i e h = ground (arith, every-below test k i)

-- Two functions that agree on every byte below the bound, by evaluation.
pub by_table :
    (k : ℕ) (f g : ℕ → ℕ) → every (λ i. f i == g i) k ≡ true → (i : ℕ) → i < k → f i ≡ g i
by_table k f g table i h = (==_iff (f i) (g i)).0 (every-below (λ j. f j == g j) k i table h)

pub bit_and-127 : (x : ℕ) → x < 256 → bit_and x 127 ≡ x % 128
unfolding every
bit_and-127 = by_table 256 (λ x. bit_and x 127) (λ x. x % 128) refl

pub bit_and-128 : (x : ℕ) → x < 256 → bit_and x 128 ≡ x / 128 * 128
unfolding every
bit_and-128 = by_table 256 (λ x. bit_and x 128) (λ x. x / 128 * 128) refl

pub bit_or-128 : (x : ℕ) → x < 128 → bit_or x 128 ≡ x + 128
unfolding every
bit_or-128 = by_table 128 (λ x. bit_or x 128) (λ x. x + 128) refl

-- MQTT_HEADER_TYPE_MASK
pub bit_and-240 : (x : ℕ) → x < 256 → bit_and x 0xf0 ≡ x / 16 * 16
unfolding every
bit_and-240 = by_table 256 (λ x. bit_and x 0xf0) (λ x. x / 16 * 16) refl

-- MQTT_HEADER_DUP_MASK
pub bit_and-8 : (x : ℕ) → x < 256 → bit_and x 0x08 ≡ x / 8 % 2 * 8
unfolding every
bit_and-8 = by_table 256 (λ x. bit_and x 0x08) (λ x. x / 8 % 2 * 8) refl

-- MQTT_HEADER_QOS_MASK
pub bit_and-6 : (x : ℕ) → x < 256 → bit_and x 0x06 ≡ x / 2 % 4 * 2
unfolding every
bit_and-6 = by_table 256 (λ x. bit_and x 0x06) (λ x. x / 2 % 4 * 2) refl

-- MQTT_HEADER_RETAIN_MASK
pub bit_and-1 : (x : ℕ) → x < 256 → bit_and x 0x01 ≡ x % 2
unfolding every
bit_and-1 = by_table 256 (λ x. bit_and x 0x01) (λ x. x % 2) refl
