-- ===== src/LowRam/Sign.antt =====
-- `fndsa_falcon_sign_seeded_temp` (src/falcon_lowram/fndsa_sign.c), `handler_falcon_lr_sign`
-- and `handler_falcon_lr_get_sig` (src/handler/handler_falcon_lowram.c).
use zknox_hw_falcon.Common.{
  ℕ, ◌+◌, ◌*◌, ◌%◌, ◌^◌, Bytes, [], ◌∷◌, ◌++◌, Option, some, none, not, ◌&&◌, ◌||◌, ◌==◌, ltb,
  if◌then◌else◌, take, drop, length, replicate,
}
use zknox_hw_falcon.Common.Memory.{Memory, write_bytes, bzero}
use zknox_hw_falcon.Common.Apdu.{
  Buffer, Response, send_sw, send_response, swo_success, swo_incorrect_data, swo_incorrect_p1_p2,
  swo_wrong_data_length,
}
use zknox_hw_falcon.LowRam.State.{Core, Signed, KeyRecord, Device, Storage, key_view, out_size}
use zknox_hw_falcon.LowRam.Seed.{session_seed}
use zknox_hw_falcon.LowRam.Nvm.{key_ok}
use zknox_hw_falcon.LowRam.Keygen.{chunk_reply}

-- `"20260830-falcon"`
abbrev sign_tag : Bytes
sign_tag = 50 ∷ 48 ∷ 50 ∷ 54 ∷ 48 ∷ 56 ∷ 51 ∷ 48 ∷ 45 ∷ 102 ∷ 97 ∷ 108 ∷ 99 ∷ 111 ∷ 110 ∷ []

-- `SEEDBUF_LEN`
abbrev pub seedbuf_len : ℕ
seedbuf_len = 40

-- The hedged signing seed, from f | g, the message and the caller's seed.
unfoldable pub seedbuf : Core → ℕ → Bytes → Bytes → Bytes → Bytes
seedbuf c logn fgF msg seed =
    c.shake256 (sign_tag ++ (c.shake256 (take (2 * 2 ^ logn) fgF) seedbuf_len ++ (msg ++ seed)))
      seedbuf_len

-- What a signing call that is refused before `sign_core` leaves: nothing is written.
abbrev no_signature : Signed
no_signature = record { len = 0; sig = []; tmp = [] }

-- `fndsa_falcon_sign_seeded_temp`, with the sizes of the output and of the temporary area.
unfoldable pub falcon_sign_seeded_temp : Core → ℕ → Bytes → Bytes → Bytes → ℕ → ℕ → Signed
unfolding seedbuf
falcon_sign_seeded_temp c logn fgF msg seed out_len tmp_len =
    let n = 2 ^ logn in
    if ltb logn 9 || ltb 10 logn
    then no_signature
    else if ltb out_len (41 + 2 * n) || ltb tmp_len (20 * n + 31)
    then no_signature
    else c.sign_core logn fgF msg (seedbuf c logn fgF msg seed)

-- A write at the start of an array.
abbrev pub overwrite : Bytes → Bytes → Bytes
overwrite src dst = src ++ drop (length src) dst

-- The signing call of SIGN_ALL.
unfoldable pub signed_by : Core → ℕ → KeyRecord → Storage → Signed
signed_by c logn k s =
    falcon_sign_seeded_temp c logn k.f_g_F s.msg s.sign_seed out_size (20 * 2 ^ logn + 31)

-- The area after the signing call and the `explicit_bzero` of its temporary.
abbrev sign_area : ℕ → Signed → Memory → Memory
sign_area logn g m = bzero (write_bytes m 0 g.tmp) 0 (20 * 2 ^ logn + 31)

-- `case 0x10` once the key is known to be good.
unfoldable pub sign_now : Core → ℕ → KeyRecord → Storage → Storage × Response
sign_now c logn k s =
    let g = signed_by c logn k s in
    let s' = record s { area = sign_area logn g s.area; out = overwrite g.sig s.out } in
    if g.len == 41 + 2 * 2 ^ logn
    then (record s' { sig_ready = logn % 2 ^ 8; sseed_ready = 0 }, send_sw swo_success)
    else (s', send_sw swo_incorrect_data)

unfoldable pub sign_with : Core → ℕ → KeyRecord → Option Bytes → Storage → Storage × Response
sign_with c logn k none s = (s, send_sw swo_incorrect_data)
sign_with c logn k (some id) s =
    if key_ok k id then sign_now c logn k s else (s, send_sw swo_incorrect_data)

-- `case 0x10`, SIGN_ALL
unfoldable pub sign_all : Core → ℕ → ℕ → KeyRecord → Storage → Storage × Response
sign_all c size logn k s =
    let (id, s') = session_seed c logn s in
    if not (size == 0)
    then (s, send_sw swo_wrong_data_length)
    else if s.msg_ready == 0 || s.sseed_ready == 0
    then (s, send_sw swo_incorrect_data)
    else sign_with c logn k id s'

-- The `switch (p1)` of `handler_falcon_lr_sign`. `rng` is what `cx_rng_no_throw` would write.
unfoldable pub sign_command :
    Core → Buffer → Bytes → ℕ → ℕ → KeyRecord → Storage → Storage × Response
unfolding sign_all
sign_command c buf rng p1 logn k s =
    if p1 == 0x00
    then (if not (buf.size == 0) then (s, send_sw swo_wrong_data_length) else (
      record s { out = replicate out_size 0; msg_ready = 0; sseed_ready = 0; sig_ready = 0 },
      send_sw swo_success,
    ))
    else if p1 == 0x06
    then (if not (buf.size == 32)
        then (s, send_sw swo_wrong_data_length)
        else (record s { msg = take 32 buf.ptr; msg_ready = 1 }, send_sw swo_success))
    else if p1 == 0x08
    then (if not (buf.size == 40)
        then (s, send_sw swo_wrong_data_length)
        else (record s { sign_seed = take 40 buf.ptr; sseed_ready = 1 }, send_sw swo_success))
    else if p1 == 0x09
    then (if not (buf.size == 0)
        then (s, send_sw swo_wrong_data_length)
        else (record s { sign_seed = take 40 rng; sseed_ready = 1 }, send_sw swo_success))
    else if p1 == 0x10
    then sign_all c buf.size logn k s
    else if p1 == 0x91
    then (if s.sig_ready == logn
        then (s, send_response (take 40 (drop 1 s.out)) swo_success)
        else (s, send_sw swo_incorrect_data))
    else (s, send_sw swo_incorrect_p1_p2)

unfoldable pub sign_viewed :
    Core → Buffer → Bytes → ℕ → ℕ → Option KeyRecord → Device → Device × Response
sign_viewed c buf rng p1 logn none d = (d, send_sw swo_incorrect_p1_p2)
sign_viewed c buf rng p1 logn (some k) d =
    let (s, r) = sign_command c buf rng p1 logn k d.ram in (record d { ram = s }, r)

-- `handler_falcon_lr_sign(cdata, p1, p2)`
unfoldable pub handler_falcon_lr_sign : Core → Buffer → Bytes → ℕ → ℕ → Device → Device × Response
handler_falcon_lr_sign c buf rng p1 p2 d = sign_viewed c buf rng p1 p2 (key_view p2 d.nvm) d

-- `handler_falcon_lr_get_sig(cdata, p1, p2)`; the command data is ignored.
unfoldable pub handler_falcon_lr_get_sig : Buffer → ℕ → ℕ → Device → Device × Response
handler_falcon_lr_get_sig buf p1 p2 d =
    if not (p2 == 9) && not (p2 == 10)
    then (d, send_sw swo_incorrect_p1_p2)
    else if not (d.ram.sig_ready == p2)
    then (d, send_sw swo_incorrect_data)
    else (d, chunk_reply (drop 41 d.ram.out) (2 * 2 ^ p2) (p1 * 255))
