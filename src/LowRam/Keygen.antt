-- ===== src/LowRam/Keygen.antt =====
-- `handler_falcon_lr_keygen` and `handler_falcon_lr_get_pk`
-- (src/handler/handler_falcon_lowram.c).
use zknox_hw_falcon.Common.{
  ℕ, ◌+◌, ◌-◌, ◌*◌, ◌/◌, ◌%◌, ◌^◌, Bytes, List, [], ◌∷◌, Option, some, none, not, ◌==◌, leb, ltb,
  if◌then◌else◌, take, drop, le16_bytes,
}
use zknox_hw_falcon.Common.Memory.{Memory, write_bytes, read_bytes, bzero}
use zknox_hw_falcon.Common.Apdu.{
  Buffer, Response, send_sw, send_response, swo_success, swo_incorrect_data, swo_incorrect_p1_p2,
  swo_wrong_data_length,
}
use zknox_hw_falcon.LowRam.State.{Core, Keys, KeyRecord, Device, Storage, key_view}
use zknox_hw_falcon.LowRam.Seed.{session_seed}
use zknox_hw_falcon.LowRam.Nvm.{
  NvmWrite, write_key_id, write_fg_f, write_h, write_fmt, write_ready, nvm_writes, set_record,
  key_ok, nvm_fmt,
}

-- `FALCON_LR_AREA_SIZE`
abbrev pub area_size : ℕ
area_size = 27648

-- `FNDSA_SIGN_KEY_SIZE`, at logn 9 and 10
abbrev pub sign_key_size : ℕ → ℕ
sign_key_size logn =
    65
    + (12
        - (if leb 6 logn then 1 else 0)
        - (if leb 8 logn then 1 else 0)
        - (if leb 10 logn then 1 else 0))
      * 2 ^ (logn - 2)

-- `FNDSA_VRFY_KEY_SIZE`
abbrev pub vrfy_key_size : ℕ → ℕ
vrfy_key_size logn = 1 + 7 * 2 ^ (logn - 2)

-- `fg_nbits`
abbrev pub fg_nbits : ℕ → ℕ
fg_nbits logn = if leb logn 5 then 8 else if leb logn 7 then 7 else if leb logn 9 then 6 else 5

-- `flen`: the bytes of f, or of g, in the encoded signing key
abbrev pub fg_len : ℕ → ℕ
fg_len logn = fg_nbits logn * 2 ^ logn / 8

-- Where the keygen puts the encoded keys in the area.
abbrev pub sk_off : ℕ → ℕ
sk_off logn = area_size - 64 - sign_key_size logn - vrfy_key_size logn

abbrev pub vk_off : ℕ → ℕ
vk_off logn = sk_off logn + sign_key_size logn

-- `fndsa_keygen_seeded_temp` on the area: the temporary at its start, the encoded keys at its end.
unfoldable pub keygen_area : ℕ → Keys → Memory → Memory
keygen_area logn k m =
    write_bytes (write_bytes (write_bytes m 0 k.tmp) (sk_off logn) k.sk) (vk_off logn) k.vk

-- The conversions of the public key to coefficients.
unfoldable pub vk_to_h : Core → ℕ → Bytes → List ℕ
vk_to_h c logn d =
    c.mqpoly_int_to_ext logn
      (c.mqpoly_ntt_to_int logn (c.mqpoly_ext_to_int logn (c.mqpoly_decode logn d)))

-- The decoding of the encoded keys to raw f | g | F | h at the start of the area.
unfoldable pub decode_area : Core → ℕ → Memory → Memory
unfolding vk_to_h
decode_area c logn m =
    let n = 2 ^ logn in
    let nbits = fg_nbits logn in
    let flen = fg_len logn in
    let sk = sk_off logn in
    let m1 = write_bytes m 0 (c.trim_i8_decode logn (read_bytes m (sk + 1) flen) nbits) in
    let m2 = write_bytes m1 n (c.trim_i8_decode logn (read_bytes m1 (sk + 1 + flen) flen) nbits) in
    let m3 = write_bytes m2 (2 * n) (read_bytes m2 (sk + 1 + 2 * flen) n) in
    write_bytes m3 (3 * n + n % 2)
      (le16_bytes (vk_to_h c logn (read_bytes m3 (vk_off logn + 1) (7 * 2 ^ (logn - 2)))))

-- The writes after a key generation, from the decoded area.
unfoldable pub persist : ℕ → Bytes → Memory → List NvmWrite
persist logn id m =
    let n = 2 ^ logn in
    write_key_id id
    ∷ write_fg_f (read_bytes m 0 (3 * n))
    ∷ write_h (read_bytes m (3 * n + n % 2) (2 * n))
    ∷ write_fmt nvm_fmt
    ∷ write_ready 1
    ∷ []

-- The temporary that `fndsa_keygen_seeded_temp` is given.
abbrev pub keygen_tmp_len : ℕ → ℕ
keygen_tmp_len logn = 22 * 2 ^ logn + 31

-- The keys generated from the cached seed.
abbrev pub new_keys : Core → ℕ → Storage → Keys
new_keys c logn s = c.keygen logn s.seed (keygen_tmp_len logn)

-- The area after the key generation and the decoding.
unfoldable pub working_area : Core → ℕ → Storage → Memory
unfolding keygen_area decode_area
working_area c logn s = decode_area c logn (keygen_area logn (new_keys c logn s) s.area)

-- Every `nvm_write` of a KEYGEN that has to compute, in order.
unfoldable pub keygen_writes : Core → ℕ → Bytes → Storage → List NvmWrite
unfolding persist
keygen_writes c logn id s =
    write_ready 0 ∷ (if (new_keys c logn s).ok then persist logn id (working_area c logn s) else [])

-- The part of the handler after the tests: invalidate, compute, persist, scrub, answer.
unfoldable pub regenerate : Core → ℕ → Bytes → KeyRecord → Device → Device × Response
regenerate c logn id k d =
    let n = 2 ^ logn in
    let keys = new_keys c logn d.ram in
    let k' = nvm_writes (keygen_writes c logn id d.ram) k in
    let nvm' = set_record logn k' d.nvm in
    if keys.ok
    then (
      record d {
        ram = record (d.ram) {
          area =
              bzero (bzero (working_area c logn d.ram) 0 (5 * n + 2)) (sk_off logn)
                (sign_key_size logn);
        };
        nvm = nvm';
      },
      send_response (take 255 k'.h) swo_success,
    )
    else (
      record d { ram = record (d.ram) { area = keygen_area logn keys d.ram.area }; nvm = nvm' },
      send_sw swo_incorrect_data,
    )

-- `handler_falcon_lr_keygen` once the record and the seed are known.
unfoldable pub keygen_with : Core → ℕ → KeyRecord → Option Bytes → Device → Device × Response
keygen_with c logn k none d = (d, send_sw swo_incorrect_data)
keygen_with c logn k (some id) d =
    if key_ok k id then (d, send_response (take 255 k.h) swo_success) else regenerate c logn id k d

unfoldable pub keygen_viewed : Core → Buffer → ℕ → ℕ → Option KeyRecord → Device → Device × Response
keygen_viewed c buf p1 logn none d = (d, send_sw swo_incorrect_p1_p2)
keygen_viewed c buf p1 logn (some k) d =
    let (id, s) = session_seed c logn d.ram in
    if not (p1 == 0)
    then (d, send_sw swo_incorrect_p1_p2)
    else if not (buf.size == 0)
    then (d, send_sw swo_wrong_data_length)
    else keygen_with c logn k id (record d { ram = s })

-- `handler_falcon_lr_keygen(cdata, p1, p2)`
unfoldable pub handler_falcon_lr_keygen : Core → Buffer → ℕ → ℕ → Device → Device × Response
handler_falcon_lr_keygen c buf p1 p2 d = keygen_viewed c buf p1 p2 (key_view p2 d.nvm) d

-- The 255-byte chunk of an array of 2n bytes that starts at `off`.
unfoldable pub chunk_reply : Bytes → ℕ → ℕ → Response
chunk_reply b total off =
    if leb total off
    then send_sw swo_incorrect_p1_p2
    else send_response (take (if ltb 255 (total - off) then 255 else total - off) (drop off b))
        swo_success

unfoldable pub get_pk_with : ℕ → ℕ → KeyRecord → Option Bytes → Response
unfolding chunk_reply
get_pk_with p1 logn k none = send_sw swo_incorrect_data
get_pk_with p1 logn k (some id) =
    if key_ok k id then chunk_reply k.h (2 * 2 ^ logn) (p1 * 255) else send_sw swo_incorrect_data

unfoldable pub get_pk_viewed : Core → ℕ → ℕ → Option KeyRecord → Device → Device × Response
get_pk_viewed c p1 logn none d = (d, send_sw swo_incorrect_p1_p2)
get_pk_viewed c p1 logn (some k) d =
    let (id, s) = session_seed c logn d.ram in (record d { ram = s }, get_pk_with p1 logn k id)

-- `handler_falcon_lr_get_pk(cdata, p1, p2)`; the command data is ignored.
unfoldable pub handler_falcon_lr_get_pk : Core → Buffer → ℕ → ℕ → Device → Device × Response
handler_falcon_lr_get_pk c buf p1 p2 d = get_pk_viewed c p1 p2 (key_view p2 d.nvm) d
