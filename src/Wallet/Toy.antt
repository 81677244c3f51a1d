-- ===== src/Wallet/Toy.antt =====
-- Concrete SDK functions, for the tests of the wallet part: big-endian numbers, and a varint
-- that is always the nine-byte form.
use zknox_hw_falcon.Common.{
  ℕ, ◌+◌, ◌*◌, ◌/◌, ◌%◌, ◌^◌, ◌<◌, ◌≤◌, ◌≡◌, inl, inr, refl, Bytes, [], ◌∷◌, ◌++◌, Option, some,
  none, Bool, true, false, arith, take, drop, get_or, replicate, ltb, leb, if◌then◌else◌,
  Bool-cases, length-take, length-append, length-replicate,
}
use zknox_hw_falcon.Common.Apdu.{Buffer}
use zknox_hw_falcon.Wallet.Sdk.{Sdk}
use zknox_hw_falcon.Wallet.ParseLaws.{IsBufferSdk}
use zknox_hw_falcon.Wallet.RoundTrip.{IsWireSdk}
use zknox_hw_falcon.Wallet.RawTx.{IsMoving}

abbrev digits : ℕ → Bytes
digits n =
    n / 2 ^ 56 % 256
    ∷ n / 2 ^ 48 % 256
    ∷ n / 2 ^ 40 % 256
    ∷ n / 2 ^ 32 % 256
    ∷ n / 2 ^ 24 % 256
    ∷ n / 2 ^ 16 % 256
    ∷ n / 2 ^ 8 % 256
    ∷ n % 256
    ∷ []

abbrev number : Bytes → ℕ
number b =
    get_or b 0 0 * 2 ^ 56
    + get_or b 1 0 * 2 ^ 48
    + get_or b 2 0 * 2 ^ 40
    + get_or b 3 0 * 2 ^ 32
    + get_or b 4 0 * 2 ^ 24
    + get_or b 5 0 * 2 ^ 16
    + get_or b 6 0 * 2 ^ 8
    + get_or b 7 0

number-digits : (n : ℕ) → n < 2 ^ 64 → number (digits n) ≡ n
number-digits n h = omega arith

abbrev toy_read_u64 : Buffer → Bool × (ℕ × Buffer)
toy_read_u64 b =
    if leb (b.offset + 8) b.size
    then (true, (number (take 8 (drop b.offset b.ptr)), record b { offset = b.offset + 8 }))
    else (false, (0, b))

abbrev toy_read_varint : Buffer → Bool × (ℕ × Buffer)
toy_read_varint b =
    if leb (b.offset + 9) b.size
    then (
      true,
      (number (drop 1 (take 9 (drop b.offset b.ptr))), record b { offset = b.offset + 9 }),
    )
    else (false, (0, b))

abbrev toy_seek : Buffer → ℕ → Bool × Buffer
toy_seek b n =
    if leb (b.offset + n) b.size then (true, record b { offset = b.offset + n }) else (false, b)

abbrev toy_read_u8 : Buffer → Bool × (ℕ × Buffer)
toy_read_u8 b =
    if ltb b.offset b.size
    then (true, (get_or b.ptr b.offset 0, record b { offset = b.offset + 1 }))
    else (false, (0, b))

abbrev toy_varint : ℕ → Option Bytes
toy_varint n = if ltb n (2 ^ 64) then some (0xFF ∷ digits n) else none

abbrev pub toy_sdk : Sdk
toy_sdk = record {
  buffer_read_u8 = toy_read_u8;
  buffer_read_u64 = toy_read_u64;
  buffer_read_varint = toy_read_varint;
  buffer_read_bip32_path = λ b n. (true, (replicate n 44, b));
  buffer_seek_cur = toy_seek;
  buffer_move = λ b n. (true, take b.size (b.ptr ++ replicate b.size 0));
  write_u64_be = digits;
  varint_size = λ n. 9;
  varint_write = toy_varint;
  keccak_256 = λ b. (0, replicate 32 7);
  derive_pubkey =
      λ path n. record { error = 0; raw_public_key = replicate 65 4; chain_code = replicate 32 5 };
  eccinfo_parity_odd = 1;
  ecdsa_sign =
      λ path n hash. record { error = 0; signature = replicate 70 48; sig_len = 70; info = 1 };
  format_fpu64 = λ size value decimals. some (49 ∷ []);
  format_hex = λ b size. some (replicate 40 65);
  dynamic_descriptor = λ b. record {
    success = true;
    coin_type = 0x8001;
    magnitude = 6;
    ticker = 84 ∷ [];
    tuid = replicate 34 1;
  };
  get_buffer_from_tlv_data = λ b low high. some b;
  parse_tlv =
      λ handler b. record { accepted = true; has_address = true; token_address = replicate 32 1 };
  max_ticker_size = 10;
  swap_parse_config = λ b. none;
  swap_str_to_u64 = λ b. some 5;
}

pub toy_sdk-IsMoving : IsMoving toy_sdk
toy_sdk-IsMoving b n fresh h = omega (
  arith,
  length-take b.size (b.ptr ++ replicate b.size 0),
  length-append b.ptr (replicate b.size 0),
  length-replicate {A = ℕ} b.size 0,
)

pub toy_sdk-IsBufferSdk : IsBufferSdk toy_sdk
toy_sdk-IsBufferSdk = record {
  u64_fits = λ b h. let e : leb (b.offset + 8) b.size ≡ true = ground arith in rw e (refl, refl);
  u64_short = λ b valid h. let e : leb (b.offset + 8) b.size ≡ false = ground arith in rw e refl;
  seek_fits = λ b n h. let e : leb (b.offset + n) b.size ≡ true = ground arith in rw e refl;
  seek_short = λ b n valid h. let e : leb (b.offset + n) b.size ≡ false = ground arith in rw e refl;
  varint_keeps = λ b valid. elim (Bool-cases (leb (b.offset + 9) b.size)) [
    | inl e ↦ rw e (refl, refl, omega arith, ground arith)
    | inr e ↦ rw e (refl, refl, omega arith, omega arith)
  ];
  varint_failed = λ b h. elim (Bool-cases (leb (b.offset + 9) b.size)) [
    | inl e ↦ absurd (let f = rw e at h in cc)
    | inr e ↦ rw e refl
  ];
}

read_written :
    (b : Buffer) (n : ℕ)
    → n < 2 ^ 64
    → b.offset + 9 ≤ b.size
    → take 9 (drop b.offset b.ptr) ≡ 0xFF ∷ digits n
    → toy_read_varint b ≡ (true, (n, record b { offset = b.offset + 9 }))
read_written b n small h same =
    let e : leb (b.offset + 9) b.size ≡ true = ground arith in
    rw (e, same, number-digits n small) refl

pub toy_sdk-IsWireSdk : IsWireSdk toy_sdk
toy_sdk-IsWireSdk = record {
  u64_length = λ n. refl;
  u64_reads = λ b n small h same.
      let e : leb (b.offset + 8) b.size ≡ true = ground arith in
      rw (e, same, number-digits n small) refl;
  varint_writes =
      λ n small. let e : ltb n (2 ^ 64) ≡ true = ground arith in (0xFF ∷ digits n, rw e refl, refl);
  varint_bounded = λ n. omega arith;
  varint_reads = λ b n v wrote h same. elim (Bool-cases (ltb n (2 ^ 64))) [
    | inr large ↦ absurd (let e = rw large at wrote in cc)
    | inl small ↦
        let e : v ≡ 0xFF ∷ digits n = (let w = rw small at wrote in cc) in
        rw e (read_written b n (ground arith) (rw e at h) (rw e at same))
  ];
}
