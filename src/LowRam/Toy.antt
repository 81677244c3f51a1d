-- ===== src/LowRam/Toy.antt =====
-- A concrete core and the devices of a session with it, for the tests of the lowram handlers.
use zknox_hw_falcon.Common.{
  ℕ, zero, suc, ◌<◌, ◌+◌, ◌*◌, ◌^◌, ◌≡◌, inl, inr, refl, ap, ◌∙◌, Bytes, [], ◌++◌, true, arith,
  if◌then◌else◌, Bool-cases, length, drop, replicate, get_or, length-replicate, bytes_eq,
  bytes_eq_sound, IsBytes,
}
use zknox_hw_falcon.LowRam.State.{Core, Device, Keys, Signed}
use zknox_hw_falcon.LowRam.Seed.{
  falcon_lr_key_id, falcon_derive_seed, falcon512_derive_seed, key_id_tag,
}
use zknox_hw_falcon.LowRam.Keygen.{sign_key_size, vrfy_key_size, vk_to_h}
use zknox_hw_falcon.LowRam.Persist.{IsDegree, IsSized}
use zknox_hw_falcon.LowRam.Signing.{IsIdentifying}
use zknox_hw_falcon.LowRam.Sessions.{blank, Reach, start, next, request, derived}
use zknox_hw_falcon.LowRam.SignSession.{sign_request, payload}
use zknox_hw_falcon.LowRam.Requests.{Request, dispatch_lr, falcon_lr_keygen}

-- A core of fixed keys and signatures. Its hash tells the two derived seeds from all others.
abbrev toy_shake256 : Bytes → ℕ → Bytes
toy_shake256 b n =
    if bytes_eq (drop 13 b) (replicate 32 15)
    then replicate n 1
    else if bytes_eq (drop 13 b) (replicate 32 16)
    then replicate n 2
    else replicate n 0

abbrev pub toy_keygen : ℕ → Bytes → ℕ → Keys
toy_keygen logn seed tmp_len = record {
  ok = true;
  sk = replicate (sign_key_size logn) 3;
  vk = replicate (vrfy_key_size logn) 4;
  tmp = [];
}

abbrev toy_sign : ℕ → Bytes → Bytes → Bytes → Signed
toy_sign logn fgF mu seed = record {
  len = 41 + 2 * 2 ^ logn;
  sig = replicate (41 + 2 * 2 ^ logn) 8;
  tmp = [];
}

abbrev pub toy : Core
toy = record {
  derive_node = λ path seed_key. (replicate 32 (length seed_key), []);
  shake256 = toy_shake256;
  keygen = toy_keygen;
  trim_i8_decode = λ logn d nbits. replicate (2 ^ logn) 5;
  mqpoly_decode = λ logn d. replicate (2 ^ logn) 6;
  mqpoly_ext_to_int = λ logn h. h;
  mqpoly_ntt_to_int = λ logn h. h;
  mqpoly_int_to_ext = λ logn h. h;
  sign_core = toy_sign;
}

pub toy-IsSized : (logn : ℕ) → IsDegree logn → IsSized toy logn
unfolding vk_to_h
toy-IsSized logn degree = record {
  tmp_fits = λ seed. omega arith;
  sk_fits = λ seed. length-replicate (sign_key_size logn) 3;
  vk_fits = λ seed. length-replicate (vrfy_key_size logn) 4;
  fg_length = λ b. length-replicate (2 ^ logn) 5;
  h_length = λ b. length-replicate (2 ^ logn) 6;
}

pub replicate-IsBytes : (n x : ℕ) → x < 256 → IsBytes (replicate n x)
replicate-IsBytes zero x h = tt
replicate-IsBytes (suc n) x h = (h, replicate-IsBytes n x h)

toy_id-IsBytes : (b : Bytes) → IsBytes (toy_shake256 b 32)
toy_id-IsBytes b = elim (Bool-cases (bytes_eq (drop 13 b) (replicate 32 15))) [
  | inl first ↦ rw first (replicate-IsBytes 32 1 (omega arith))
  | inr other ↦ elim (Bool-cases (bytes_eq (drop 13 b) (replicate 32 16))) [
    | inl second ↦ rw (other, second) (replicate-IsBytes 32 2 (omega arith))
    | inr neither ↦ rw (other, neither) (replicate-IsBytes 32 0 (omega arith))
  ]
]

toy_id-length : (b : Bytes) → length (toy_shake256 b 32) ≡ 32
toy_id-length b = elim (Bool-cases (bytes_eq (drop 13 b) (replicate 32 15))) [
  | inl first ↦ rw first refl
  | inr other ↦ elim (Bool-cases (bytes_eq (drop 13 b) (replicate 32 16))) [
    | inl second ↦ rw (other, second) refl
    | inr neither ↦ rw (other, neither) refl
  ]
]

-- The first byte of the toy hash tells which seed was hashed.
toy_first :
    (b : Bytes)
    → (get_or (toy_shake256 b 32) 0 0 ≡ 1 → drop 13 b ≡ replicate 32 15)
      × (get_or (toy_shake256 b 32) 0 0 ≡ 2 → drop 13 b ≡ replicate 32 16)
toy_first b = elim (Bool-cases (bytes_eq (drop 13 b) (replicate 32 15))) [
  | inl first ↦
      rw first (λ h. bytes_eq_sound (drop 13 b) (replicate 32 15) first, λ h. absurd (omega arith))
  | inr other ↦ elim (Bool-cases (bytes_eq (drop 13 b) (replicate 32 16))) [
    | inl second ↦
        rw (other, second)
          (λ h. absurd (omega arith), λ h. bytes_eq_sound (drop 13 b) (replicate 32 16) second)
    | inr neither ↦ rw (other, neither) (λ h. absurd (omega arith), λ h. absurd (omega arith))
  ]
]

toy_unique :
    (logn : ℕ)
    → IsDegree logn
    → (s : Bytes) → falcon_lr_key_id toy s ≡ falcon_lr_key_id toy (derived toy logn)
    → s ≡ derived toy logn
unfolding falcon_lr_key_id falcon_derive_seed falcon512_derive_seed bytes_eq
toy_unique logn (inl e) s h =
    rw e ((toy_first (key_id_tag ++ s)).0 (ap (λ b. get_or b 0 0) h ∙ rw e refl))
toy_unique logn (inr e) s h =
    rw e ((toy_first (key_id_tag ++ s)).1 (ap (λ b. get_or b 0 0) h ∙ rw e refl))

pub toy-IsIdentifying : IsIdentifying toy
unfolding falcon_lr_key_id
toy-IsIdentifying = record {
  id_bytes = λ seed. toy_id-IsBytes (key_id_tag ++ seed);
  id_length = λ seed. toy_id-length (key_id_tag ++ seed);
  no_collision = toy_unique;
}

abbrev pub keygen_request : ℕ → Request
keygen_request logn = record {
  ins = falcon_lr_keygen;
  p1 = 0;
  p2 = logn;
  cdata = payload [] 0;
  rng = [];
}

abbrev pub keyed : Device
keyed = (dispatch_lr toy (keygen_request 9) blank).0

abbrev pub session_message : Bytes
session_message = replicate 32 7

abbrev pub session_salt : Bytes
session_salt = replicate 40 5

-- A device with a key, a message and a signing seed.
abbrev pub fed : Device
fed =
    (dispatch_lr toy (sign_request 0x08 9 (payload session_salt 40))
      (dispatch_lr toy (sign_request 0x06 9 (payload session_message 32)) keyed).0).0

pub keyed-Reach : Reach toy keyed
keyed-Reach = next (start toy) (request (keygen_request 9) blank)

pub fed-Reach : Reach toy fed
fed-Reach =
    next (next keyed-Reach (request (sign_request 0x06 9 (payload session_message 32)) keyed))
      (request (sign_request 0x08 9 (payload session_salt 40)) _)
