-- ===== src/Job/Hash.antt =====
-- `consumerID` of pkg/consumer/job/job.go, with the checksum of hash/crc32 (IEEE) that it takes.
use Prim.Native.Nat.{bit_xor}
use harns.Prelude.{
  ℕ, zero, suc, ◌/◌, ◌%◌, ◌^◌, ◌<◌, ◌≡◌, refl, arith, List, [], ◌∷◌, ◌++◌, ◌==◌, if◌then◌else◌,
}
use native.Mathlib.Nat.{mod-lt}
use harns.Prelude.Decimal.{decimal}
use harns.Prelude.Outcome.{Outcome, ok, panic}
use harns.Job.{unix}

-- Eight rounds of the division by the reversed polynomial.
crc_bits : ℕ → ℕ → ℕ
crc_bits zero c = c
crc_bits (suc n) c = crc_bits n (if c % 2 == 1 then bit_xor (c / 2) 0xedb88320 else c / 2)

crc_bytes : ℕ → List ℕ → ℕ
crc_bytes c [] = c
crc_bytes c (b ∷ bs) = crc_bytes (crc_bits 8 (bit_xor c b)) bs

pub crc32 : List ℕ → ℕ
unfolding crc_bits crc_bytes
crc32 bs = bit_xor (crc_bytes 0xffffffff bs) 0xffffffff

-- A remainder by no instances panics.
unfoldable pub consumer_id : List ℕ → ℕ → ℕ → Outcome ℕ
consumer_id key now max_instances =
    if max_instances == 0
    then panic
    else ok (crc32 (key ++ decimal (unix now)) % 2 ^ 16 % max_instances)

-- The check value of this checksum.
crc32_check : crc32 (b'1' ∷ b'2' ∷ b'3' ∷ b'4' ∷ b'5' ∷ b'6' ∷ b'7' ∷ b'8' ∷ b'9' ∷ []) ≡ 0xcbf43926
unfolding crc32
crc32_check = refl

pub consumer_id-lt : (key : List ℕ) (now m id : ℕ) → consumer_id key now m ≡ ok id → id < m
unfolding consumer_id
consumer_id-lt key now zero id h = ground arith
consumer_id-lt key now (suc m) id h =
    ground (arith, mod-lt (crc32 (key ++ decimal (unix now)) % 2 ^ 16) {m = suc m})
