-- ===== src/Crc.antt =====
-- lib/misc/crc.c: the checksums of 16, 32 and 64 bits. A byte is a number below 256; the sign that the
-- C code extends it with is shifted out of the word.
use hellfireos.Base.{
  ℕ, zero, suc, ◌+◌, ◌-◌, ◌*◌, ◌/◌, ◌%◌, ◌^◌, List, [], ◌∷◌, ltb, if◌then◌else◌, ◌≡◌, refl,
}

-- The exclusive or of the lowest `w` bits.
pub xor : ℕ → ℕ → ℕ → ℕ
xor zero a b = 0
xor (suc w) a b = (a % 2 + b % 2) % 2 + 2 * xor w (a / 2) (b / 2)

-- `crc = crc << 1 ^ (crc & top ? poly : 0)`, `n` times on a word of `w` bits.
pub shift_bits : ℕ → ℕ → ℕ → ℕ → ℕ
unfolding xor
shift_bits w poly zero crc = crc
shift_bits w poly (suc n) crc =
    shift_bits w poly n (xor w (crc * 2 % 2 ^ w) (if ltb crc (2 ^ (w - 1)) then 0 else poly))

abbrev pub crc_byte : ℕ → ℕ → ℕ → ℕ → ℕ
crc_byte w poly crc c = shift_bits w poly 8 (xor w crc (c * 2 ^ (w - 8) % 2 ^ w))

pub crc_loop : ℕ → ℕ → ℕ → List ℕ → ℕ
unfolding shift_bits
crc_loop w poly crc [] = crc
crc_loop w poly crc (c ∷ bytes) = crc_loop w poly (crc_byte w poly crc c) bytes

pub hf_crc16 : List ℕ → ℕ
hf_crc16 bytes = crc_loop 16 4129 (2 ^ 16 - 1) bytes

pub hf_crc32 : List ℕ → ℕ
hf_crc32 bytes = crc_loop 32 79764919 (2 ^ 32 - 1) bytes

pub hf_crc64 : List ℕ → ℕ
hf_crc64 bytes = crc_loop 64 4823603603198064275 0 bytes

-- The values for "123456789" that crc.c gives.
abbrev check_text : List ℕ
check_text = 49 ∷ 50 ∷ 51 ∷ 52 ∷ 53 ∷ 54 ∷ 55 ∷ 56 ∷ 57 ∷ []

hf_crc16_check : hf_crc16 check_text ≡ 10673
unfolding hf_crc16 crc_loop shift_bits xor
hf_crc16_check = refl

hf_crc32_check : hf_crc32 check_text ≡ 58124007
unfolding hf_crc32 crc_loop shift_bits xor
hf_crc32_check = refl

hf_crc64_check : hf_crc64 check_text ≡ 7800480153909949255
unfolding hf_crc64 crc_loop shift_bits xor
hf_crc64_check = refl
