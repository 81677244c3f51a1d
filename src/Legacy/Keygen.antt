-- ===== src/Legacy/Keygen.antt =====
-- legacy/src/handler/handler_falcon.c: key generation of the archived core and its public key, and
-- `falcon_sign_get_tmp_buffer` of handler_falcon_sign.c.
use zknox_hw_falcon.Common.{ℕ, ◌+◌, ◌-◌, ◌*◌, ◌%◌, ◌^◌, Bytes, ◌==◌, ltb, leb, not, if◌then◌else◌}
use zknox_hw_falcon.Common.Memory.{Memory, write_bytes, read_bytes}
use zknox_hw_falcon.Common.Apdu.{
  Buffer, Response, send_sw, send_response, swo_success, swo_incorrect_data, swo_incorrect_p1_p2,
  swo_wrong_data_length,
}
use zknox_hw_falcon.LowRam.State.{Core}
use zknox_hw_falcon.LowRam.Seed.{cx_ok, falcon_derive_seed}
use zknox_hw_falcon.Legacy.State.{Reference, Globals, flogn, fn}

-- The part of `g_zknox` that key generation uses; `area` is `_falcon_sign_area`.
pub record Zknox : Type 0 where
  pub keys : Globals
  pub area : Memory

-- `FALCON_SIGN_BSS_SIZE`
abbrev pub falcon_sign_bss_size : ℕ
falcon_sign_bss_size = 32768

-- `FALCON_H_OFFSET`
abbrev pub falcon_h_offset : ℕ
falcon_h_offset = falcon_sign_bss_size - fn * 2

-- `falcon_keygen(&rng, f, g, F, G, h, logn, tmp)`: the temporary area is at the start of the sign
-- area, and h at its end.
unfoldable pub run_keygen : Reference → Bytes → Zknox → Zknox
run_keygen r seed z =
    let (k, tmp) = r.keygen flogn seed (read_bytes z.area 0 falcon_sign_bss_size) in
    record {
      keys = record {
        falcon_seed = seed;
        falcon_f = k.f;
        falcon_g = k.g;
        falcon_cap_f = k.cap_f;
        falcon_cap_g = k.cap_g;
        falcon_ready = 1;
      };
      area = write_bytes (write_bytes z.area 0 tmp) falcon_h_offset k.h;
    }

-- `handler_falcon_keygen(cdata)`
unfoldable pub handler_falcon_keygen : Core → Reference → Buffer → Zknox → Zknox × Response
handler_falcon_keygen c r buf z =
    let (e, seed) = falcon_derive_seed c in
    let done = run_keygen r seed z in
    if not (buf.size == 0)
    then (z, send_sw swo_wrong_data_length)
    else if not (e == cx_ok)
    then (record z { keys = record (z.keys) { falcon_seed = seed } }, send_sw (e % 2 ^ 16))
    else (done, send_response (read_bytes done.area falcon_h_offset 255) swo_success)

-- `handler_falcon_get_pk(cdata, p1, p2)`
unfoldable pub handler_falcon_get_pk : ℕ → ℕ → Zknox → Zknox × Response
handler_falcon_get_pk p1 p2 z =
    let total = fn * 2 in
    let off = p1 * 255 in
    let wanted = if p2 == 0 then 255 else p2 in
    let chunk = if ltb total (off + wanted) then total - off else wanted in
    if z.keys.falcon_ready == 0
    then (z, send_sw swo_incorrect_data)
    else if leb total off
    then (z, send_sw swo_incorrect_p1_p2)
    else (z, send_response (read_bytes z.area (falcon_h_offset + off) chunk) swo_success)
