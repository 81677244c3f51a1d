-- ===== src/LowRam/Persist.antt =====
-- What a key record holds after KEYGEN: the decoding of the two encoded keys
-- (`handler_falcon_lr_keygen`, src/handler/handler_falcon_lowram.c).
use zknox_hw_falcon.Common.{
  ℕ, ◌+◌, ◌-◌, ◌*◌, ◌%◌, ◌^◌, ◌≤◌, ◌≡◌, ◌⊎◌, inl, inr, refl, ap, ap₂, ◌∙◌, Bytes, ◌++◌, length,
  take, drop, take-all, arith, le16_bytes, length-le16_bytes,
}
use zknox_hw_falcon.Common.Memory.{Memory, read_bytes, read_bytes-length, read-write_disjoint}
use zknox_hw_falcon.LowRam.State.{Core, Keys, KeyRecord}
use zknox_hw_falcon.LowRam.Nvm.{nvm_writes, nvm_fmt}
use zknox_hw_falcon.LowRam.Keygen.{
  sk_off, vk_off, sign_key_size, vrfy_key_size, keygen_area, decode_area, vk_to_h, persist, fg_len,
  fg_nbits, keygen_tmp_len, area_size,
}
use zknox_hw_falcon.LowRam.Layout.{decode_steps_lem, read_sk, read_vk}

-- The two degrees that the handlers serve.
abbrev pub IsDegree : ℕ → Type 0
IsDegree logn = (logn ≡ 9) ⊎ (logn ≡ 10)

-- The array sizes that the core's functions document.
pub record IsSized (c : Core) (logn : ℕ) : Type 0 where
  pub tmp_fits :
      (seed : Bytes) → length (c.keygen logn seed (keygen_tmp_len logn)).tmp ≤ keygen_tmp_len logn
  pub sk_fits :
      (seed : Bytes) → length (c.keygen logn seed (keygen_tmp_len logn)).sk ≡ sign_key_size logn
  pub vk_fits :
      (seed : Bytes) → length (c.keygen logn seed (keygen_tmp_len logn)).vk ≡ vrfy_key_size logn
  pub fg_length : (b : Bytes) → length (c.trim_i8_decode logn b (fg_nbits logn)) ≡ 2 ^ logn
  pub h_length : (b : Bytes) → length (vk_to_h c logn b) ≡ 2 ^ logn

-- f | g | F of an encoded signing key: f and g packed after the header byte, F as it is.
unfoldable pub raw_fg_f : Core → ℕ → Bytes → Bytes
raw_fg_f c logn sk =
    c.trim_i8_decode logn (take (fg_len logn) (drop 1 sk)) (fg_nbits logn)
    ++ (c.trim_i8_decode logn (take (fg_len logn) (drop (1 + fg_len logn) sk)) (fg_nbits logn)
        ++ take (2 ^ logn) (drop (1 + 2 * fg_len logn) sk))

-- h of an encoded verifying key, in coefficient form.
unfoldable pub raw_h : Core → ℕ → Bytes → Bytes
raw_h c logn vk = le16_bytes (vk_to_h c logn (take (7 * 2 ^ (logn - 2)) (drop 1 vk)))

-- The record of an identifier and two encoded keys.
unfoldable pub full_record : Core → ℕ → Bytes → Keys → KeyRecord
full_record c logn id k = record {
  key_id = id;
  f_g_F = raw_fg_f c logn k.sk;
  h = raw_h c logn k.vk;
  fmt = nvm_fmt;
  ready = 1;
}

-- How the arrays of the working area lie.
pub record IsLaidOut (logn : ℕ) : Type 0 where
  tmp_below : keygen_tmp_len logn ≤ sk_off logn
  raw_below : 3 * 2 ^ logn + 2 ^ logn % 2 + 2 * 2 ^ logn ≤ sk_off logn
  sk_holds : 1 + 2 * fg_len logn + 2 ^ logn ≤ sign_key_size logn
  vk_holds : 1 + 7 * 2 ^ (logn - 2) ≤ vrfy_key_size logn
  in_area : vk_off logn + vrfy_key_size logn + 64 ≤ area_size

pub IsLaidOut-degree : (logn : ℕ) → IsDegree logn → IsLaidOut logn
IsLaidOut-degree logn (inl e) = rw e (omega arith)
IsLaidOut-degree logn (inr e) = rw e (omega arith)

module _ (c : Core) (logn : ℕ) (k : Keys) (m : Memory) (laid : IsLaidOut logn)
    (sized : IsSized c logn) (tmp_fits : length k.tmp ≤ keygen_tmp_len logn)
    (sk_fits : length k.sk ≡ sign_key_size logn) (vk_fits : length k.vk ≡ vrfy_key_size logn) where
  tmp_low : length k.tmp ≤ sk_off logn
  tmp_low = let low = laid.tmp_below in omega arith

  fg_1 :
      read_bytes (keygen_area logn k m) (sk_off logn + 1) (fg_len logn)
      ≡ take (fg_len logn) (drop 1 k.sk)
  fg_1 =
      let fits = laid.sk_holds in
      read_sk logn k m tmp_low sk_fits vk_fits 1 (fg_len logn) (omega arith)

  fg_2 :
      read_bytes (keygen_area logn k m) (sk_off logn + 1 + fg_len logn) (fg_len logn)
      ≡ take (fg_len logn) (drop (1 + fg_len logn) k.sk)
  fg_2 =
      let fits = laid.sk_holds in
      let e : sk_off logn + 1 + fg_len logn ≡ sk_off logn + (1 + fg_len logn) = omega arith in
      rw e (read_sk logn k m tmp_low sk_fits vk_fits (1 + fg_len logn) (fg_len logn) (omega arith))

  fg_3 :
      read_bytes (keygen_area logn k m) (sk_off logn + 1 + 2 * fg_len logn) (2 ^ logn)
      ≡ take (2 ^ logn) (drop (1 + 2 * fg_len logn) k.sk)
  fg_3 =
      let fits = laid.sk_holds in
      let e : sk_off logn + 1 + 2 * fg_len logn ≡ sk_off logn + (1 + 2 * fg_len logn) =
        omega arith in
      rw e (read_sk logn k m tmp_low sk_fits vk_fits (1 + 2 * fg_len logn) (2 ^ logn) (omega arith))

  h_1 :
      read_bytes (keygen_area logn k m) (vk_off logn + 1) (7 * 2 ^ (logn - 2))
      ≡ take (7 * 2 ^ (logn - 2)) (drop 1 k.vk)
  h_1 =
      let fits = laid.vk_holds in
      read_vk logn k m tmp_low sk_fits vk_fits 1 (7 * 2 ^ (logn - 2)) (omega arith)

  abbrev decode_fg : Bytes → Bytes
  decode_fg b = c.trim_i8_decode logn b (fg_nbits logn)

  abbrev decode_h : Bytes → Bytes
  decode_h b = le16_bytes (vk_to_h c logn b)

  h_bytes : (b : Bytes) → length (decode_h b) ≡ 2 * 2 ^ logn
  h_bytes b = omega (arith, length-le16_bytes (vk_to_h c logn b), sized.h_length b)

  pub decoded :
      let w = decode_area c logn (keygen_area logn k m) in
      (read_bytes w 0 (3 * 2 ^ logn) ≡ raw_fg_f c logn k.sk)
      × (read_bytes w (3 * 2 ^ logn + 2 ^ logn % 2) (2 * 2 ^ logn) ≡ raw_h c logn k.vk)
  unfolding decode_area raw_fg_f raw_h
  decoded =
      let low = laid.raw_below in
      let d =
        decode_steps_lem decode_fg decode_h (2 ^ logn) (fg_len logn) (sk_off logn) (vk_off logn)
          (7 * 2 ^ (logn - 2)) (3 * 2 ^ logn + 2 ^ logn % 2) (keygen_area logn k m) sized.fg_length
          h_bytes (omega arith) (omega arith) (omega arith) in
      (
        d.0 ∙ ap₂ ◌++◌ (ap decode_fg fg_1) (ap₂ ◌++◌ (ap decode_fg fg_2) fg_3),
        d.1 ∙ ap decode_h h_1,
      )

  -- The decoding leaves the encoded signing key where it is.
  pub sk_kept :
      read_bytes (decode_area c logn (keygen_area logn k m)) (sk_off logn) (sign_key_size logn)
      ≡ k.sk
  unfolding decode_area
  sk_kept =
      let low = laid.raw_below in
      let size = sign_key_size logn in
      let e : sk_off logn ≡ sk_off logn + 0 = omega arith in
      read-write_disjoint _ (3 * 2 ^ logn + 2 ^ logn % 2) _ (sk_off logn) size
        (inr (omega (arith, h_bytes _)))
      ∙ read-write_disjoint _ (2 * 2 ^ logn) _ (sk_off logn) size
          (inr (omega (arith, read_bytes-length _ (sk_off logn + 1 + 2 * fg_len logn) (2 ^ logn))))
      ∙ read-write_disjoint _ (2 ^ logn) _ (sk_off logn) size
          (inr (omega (arith, sized.fg_length _)))
      ∙ read-write_disjoint _ 0 _ (sk_off logn) size (inr (omega (arith, sized.fg_length _)))
      ∙ ap (λ (i : ℕ). read_bytes (keygen_area logn k m) i size) e
      ∙ read_sk logn k m tmp_low sk_fits vk_fits 0 size (omega arith)
      ∙ take-all size k.sk (omega arith)

  -- Where the arrays of the working area lie apart and the keys and their decodings have their
  -- documented sizes, the five writes that follow a key generation leave exactly the decoded keys,
  -- under the identifier, in the current format and ready.
  pub persist-full :
      (id : Bytes) (old : KeyRecord)
      → nvm_writes (persist logn id (decode_area c logn (keygen_area logn k m))) old
        ≡ full_record c logn id k
  unfolding nvm_writes persist full_record
  persist-full id old = rw (decoded.0, decoded.1) refl
