-- ===== src/LowRam/Layout.antt =====
-- The working area of KEYGEN: the temporary, the encoded keys and the decoded keys do not
-- collide, so that what is persisted is the decoding of what the key generation produced
-- (`handler_falcon_lr_keygen`, src/handler/handler_falcon_lowram.c).
use zknox_hw_falcon.Common.{
  ℕ, ◌+◌, ◌*◌, ◌≤◌, ◌≡◌, inl, inr, ap, ap₂, ◌∙◌, Bytes, ◌++◌, length, take, drop, arith,
}
use zknox_hw_falcon.LowRam.State.{Keys}
use zknox_hw_falcon.LowRam.Keygen.{sk_off, vk_off, sign_key_size, vrfy_key_size, keygen_area}
use zknox_hw_falcon.Common.Memory.{
  Memory, write_bytes, read_bytes, read_bytes-length, read-write_disjoint, read-write_same,
  read-write_all, read_bytes-append,
}

-- The writes of the decoding, over any decoders and any layout.
abbrev decode_steps : (Bytes → Bytes) → (Bytes → Bytes) → ℕ → ℕ → ℕ → ℕ → ℕ → ℕ → Memory → Memory
decode_steps decode_fg decode_h n flen sk vk hlen h_off m =
    let m1 = write_bytes m 0 (decode_fg (read_bytes m (sk + 1) flen)) in
    let m2 = write_bytes m1 n (decode_fg (read_bytes m1 (sk + 1 + flen) flen)) in
    let m3 = write_bytes m2 (2 * n) (read_bytes m2 (sk + 1 + 2 * flen) n) in
    write_bytes m3 h_off (decode_h (read_bytes m3 (vk + 1) hlen))

module _ (decode_fg decode_h : Bytes → Bytes) (n flen sk vk hlen h_off : ℕ) (m : Memory)
    (fg_length : (b : Bytes) → length (decode_fg b) ≡ n)
    (h_length : (b : Bytes) → length (decode_h b) ≡ 2 * n) (h_above : 3 * n ≤ h_off)
    (sk_above : h_off + 2 * n ≤ sk) (vk_above : sk ≤ vk) where
  f : Bytes
  f = decode_fg (read_bytes m (sk + 1) flen)

  m1 : Memory
  unfolding f
  m1 = write_bytes m 0 f

  g : Bytes
  unfolding m1
  g = decode_fg (read_bytes m1 (sk + 1 + flen) flen)

  m2 : Memory
  unfolding g
  m2 = write_bytes m1 n g

  F : Bytes
  unfolding m2
  F = read_bytes m2 (sk + 1 + 2 * flen) n

  m3 : Memory
  unfolding F
  m3 = write_bytes m2 (2 * n) F

  h : Bytes
  unfolding m3
  h = decode_h (read_bytes m3 (vk + 1) hlen)

  m4 : Memory
  unfolding h
  m4 = write_bytes m3 h_off h

  f-length : length f ≡ n
  unfolding f
  f-length = fg_length (read_bytes m (sk + 1) flen)

  g-length : length g ≡ n
  unfolding g
  g-length = fg_length (read_bytes m1 (sk + 1 + flen) flen)

  F_length : length F ≡ n
  unfolding F
  F_length = read_bytes-length m2 (sk + 1 + 2 * flen) n

  -- The encoded keys lie above all that is written, so each step still reads them.
  m1_high : (at k : ℕ) → sk ≤ at → read_bytes m1 at k ≡ read_bytes m at k
  unfolding m1
  m1_high at k p = read-write_disjoint m 0 f at k (inr (omega (arith, f-length)))

  m2_high : (at k : ℕ) → sk ≤ at → read_bytes m2 at k ≡ read_bytes m at k
  unfolding m2
  m2_high at k p = read-write_disjoint m1 n g at k (inr (omega (arith, g-length))) ∙ m1_high at k p

  m3_high : (at k : ℕ) → sk ≤ at → read_bytes m3 at k ≡ read_bytes m at k
  unfolding m3
  m3_high at k p =
      read-write_disjoint m2 (2 * n) F at k (inr (omega (arith, F_length))) ∙ m2_high at k p

  m4_low : (at k : ℕ) → at + k ≤ h_off → read_bytes m4 at k ≡ read_bytes m3 at k
  unfolding m4
  m4_low at k p = read-write_disjoint m3 h_off h at k (inl p)

  read_f : read_bytes m4 0 n ≡ f
  unfolding m3 m2 m1
  read_f =
      m4_low 0 n (omega arith)
      ∙ read-write_disjoint m2 (2 * n) F 0 n (inl (omega arith))
      ∙ read-write_disjoint m1 n g 0 n (inl (omega arith))
      ∙ read-write_all m 0 f n f-length

  read_g : read_bytes m4 n n ≡ g
  unfolding m3 m2
  read_g =
      m4_low n n (omega arith)
      ∙ read-write_disjoint m2 (2 * n) F n n (inl (omega arith))
      ∙ read-write_all m1 n g n g-length

  read_F : read_bytes m4 (2 * n) n ≡ F
  unfolding m3
  read_F = m4_low (2 * n) n (omega arith) ∙ read-write_all m2 (2 * n) F n F_length

  read_fg_f : read_bytes m4 0 (3 * n) ≡ f ++ (g ++ F)
  read_fg_f =
      let whole : 3 * n ≡ n + (n + n) = omega arith in
      let second : 0 + n ≡ n = omega arith in
      let third : n + n ≡ 2 * n = omega arith in
      rw (whole, read_bytes-append m4 0 n (n + n), second, read_bytes-append m4 n n n, third)
        (ap₂ ◌++◌ read_f (ap₂ ◌++◌ read_g read_F))

  g_eq : g ≡ decode_fg (read_bytes m (sk + 1 + flen) flen)
  unfolding g
  g_eq = ap decode_fg (m1_high (sk + 1 + flen) flen (omega arith))

  F_eq : F ≡ read_bytes m (sk + 1 + 2 * flen) n
  unfolding F
  F_eq = m2_high (sk + 1 + 2 * flen) n (omega arith)

  h_eq : h ≡ decode_h (read_bytes m (vk + 1) hlen)
  unfolding h
  h_eq = ap decode_h (m3_high (vk + 1) hlen (omega arith))

  read_h : read_bytes m4 h_off (2 * n) ≡ h
  unfolding m4 h
  read_h = read-write_all m3 h_off h (2 * n) (h_length (read_bytes m3 (vk + 1) hlen))

  -- The four arrays that the steps leave, in terms of the memory that they start from.
  pub decode_steps_lem :
      let w = decode_steps decode_fg decode_h n flen sk vk hlen h_off m in
      (read_bytes w 0 (3 * n)
        ≡ decode_fg (read_bytes m (sk + 1) flen)
          ++ (decode_fg (read_bytes m (sk + 1 + flen) flen) ++ read_bytes m (sk + 1 + 2 * flen) n))
      × (read_bytes w h_off (2 * n) ≡ decode_h (read_bytes m (vk + 1) hlen))
  unfolding m4
  decode_steps_lem = (read_fg_f ∙ ap (◌++◌ f) (ap₂ ◌++◌ g_eq F_eq), read_h ∙ h_eq)

-- What the keygen leaves in the area: the two encoded keys, whole, above the temporary.
module _ (logn : ℕ) (k : Keys) (m : Memory) (tmp_fits : length k.tmp ≤ sk_off logn)
    (sk_fits : length k.sk ≡ sign_key_size logn) (vk_fits : length k.vk ≡ vrfy_key_size logn) where
  pub read_sk :
      (at j : ℕ)
      → at + j ≤ sign_key_size logn
      → read_bytes (keygen_area logn k m) (sk_off logn + at) j ≡ take j (drop at k.sk)
  unfolding keygen_area
  read_sk at j p =
      read-write_disjoint (write_bytes (write_bytes m 0 k.tmp) (sk_off logn) k.sk) (vk_off logn)
        k.vk (sk_off logn + at) j (inl (omega arith))
      ∙ read-write_same (write_bytes m 0 k.tmp) (sk_off logn) k.sk at j (omega arith)

  pub read_vk :
      (at j : ℕ)
      → at + j ≤ vrfy_key_size logn
      → read_bytes (keygen_area logn k m) (vk_off logn + at) j ≡ take j (drop at k.vk)
  unfolding keygen_area
  read_vk at j p =
      read-write_same (write_bytes (write_bytes m 0 k.tmp) (sk_off logn) k.sk) (vk_off logn) k.vk at
        j (omega arith)
