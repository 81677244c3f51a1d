-- ===== src/LowRam/Tests.antt =====
-- The theorems about the lowram handlers at a concrete core, device and session.
use zknox_hw_falcon.Common.{
  ℕ, ◌+◌, ◌*◌, ◌^◌, ◌≡◌, ◌≢◌, ◌↔◌, inl, refl, Bytes, [], ◌∷◌, some, true, arith, take, drop,
  replicate, length-replicate, bytes_eq,
}
use zknox_hw_falcon.LowRam.State.{fresh_ram, Device, key_view}
use zknox_hw_falcon.LowRam.Seed.{
  falcon_lr_key_id, session_seed, falcon_lr_ct_eq32, ct_diff, falcon_derive_seed,
  falcon512_derive_seed,
}
use zknox_hw_falcon.LowRam.Nvm.{key_ok, nvm_writes, nvm_write, set_record}
use zknox_hw_falcon.LowRam.Keygen.{
  sign_key_size, vrfy_key_size, handler_falcon_lr_keygen, keygen_viewed, keygen_with, regenerate,
  keygen_writes, persist,
}
use zknox_hw_falcon.LowRam.Sessions.{blank, start}
use zknox_hw_falcon.LowRam.SignSession.{sign_request, payload}
use zknox_hw_falcon.LowRam.Requests.{dispatch_lr}
use zknox_hw_falcon.LowRam.Sign.{
  sign_all, sign_with, sign_now, signed_by, handler_falcon_lr_sign, sign_viewed, sign_command,
  falcon_sign_seeded_temp,
}
use zknox_hw_falcon.LowRam.Toy.{
  toy, toy-IsSized, toy-IsIdentifying, keyed, fed, toy_keygen, session_message, session_salt,
  keygen_request, keyed-Reach, fed-Reach, replicate-IsBytes,
}
use zknox_hw_falcon.LowRam.Seed.{falcon_lr_ct_eq32}
use zknox_hw_falcon.LowRam.Persist.{IsLaidOut-degree, persist-full, full_record}
use zknox_hw_falcon.LowRam.Keygen.{
  keygen_area, decode_area, new_keys, sk_off, handler_falcon_lr_get_pk,
}
use zknox_hw_falcon.LowRam.Integrity.{IsGenuine, keygen_writes-IsGenuine, nvm_writes-Interrupted}
use zknox_hw_falcon.LowRam.Sessions.{IsSound, Reach-IsSound, blank_record, IsCached}
use zknox_hw_falcon.LowRam.Signing.{SignedByMnemonic, sign_all-mnemonic}
use zknox_hw_falcon.LowRam.OneSeed.{one_signature_per_seed}
use zknox_hw_falcon.LowRam.SignSession.{signing_session, stored_signature}
use zknox_hw_falcon.LowRam.Rerun.{keygen_idempotent, regenerate-scrubs}
use zknox_hw_falcon.LowRam.Chunks.{collect, get_pk_whole, get_sig_whole}
use zknox_hw_falcon.LowRam.CtEq.{falcon_lr_ct_eq32_iff}
use zknox_hw_falcon.LowRam.Requests.{reboot, run}
use zknox_hw_falcon.LowRam.Sign.{handler_falcon_lr_get_sig, overwrite}
use zknox_hw_falcon.Common.Memory.{read_bytes}
use zknox_hw_falcon.LowRam.Persist.{raw_fg_f}
use zknox_hw_falcon.LowRam.Keygen.{working_area}
use zknox_hw_falcon.Common.Apdu.{send_sw, send_response, swo_success}
use zknox_hw_falcon.LowRam.State.{out_size}

keygen_answers : (handler_falcon_lr_keygen toy (payload [] 0) 0 9 blank).1.sw ≡ 0x9000
unfolding handler_falcon_lr_keygen keygen_viewed keygen_with regenerate blank key_view session_seed
    fresh_ram key_ok falcon_lr_key_id
keygen_answers = refl

sign_all_answers : (sign_all toy 0 9 fed.nvm.key_512 fed.ram).1.sw ≡ 0x9000
unfolding handler_falcon_lr_keygen keygen_viewed keygen_with regenerate blank key_view session_seed
    fresh_ram key_ok falcon_lr_key_id dispatch_lr sign_all sign_with sign_now signed_by
    handler_falcon_lr_sign sign_viewed sign_command falcon_sign_seeded_temp nvm_writes keygen_writes
    set_record persist nvm_write falcon_lr_ct_eq32 ct_diff falcon_derive_seed falcon512_derive_seed
    bytes_eq
sign_all_answers = refl

Reach-IsSound_example : IsSound toy keyed
Reach-IsSound_example = Reach-IsSound keyed-Reach toy-IsSized

-- The complete writes of the first key generation of a blank record.
keygen_writes-IsGenuine_example :
    IsGenuine toy 9 (
      nvm_writes (keygen_writes toy 9 (falcon_lr_key_id toy keyed.ram.seed) keyed.ram) blank_record)
keygen_writes-IsGenuine_example =
    keygen_writes-IsGenuine toy 9 (inl refl) (toy-IsSized 9 (inl refl)) keyed.ram blank_record
      (nvm_writes (keygen_writes toy 9 (falcon_lr_key_id toy keyed.ram.seed) keyed.ram)
        blank_record)
      (λ ready. absurd (omega arith))
      (nvm_writes-Interrupted (keygen_writes toy 9 (falcon_lr_key_id toy keyed.ram.seed) keyed.ram)
        blank_record)

fed-viewed : key_view 9 fed.nvm ≡ some fed.nvm.key_512
unfolding key_view
fed-viewed = refl

keyed-viewed : key_view 9 keyed.nvm ≡ some keyed.nvm.key_512
unfolding key_view
keyed-viewed = refl

abbrev toy_id : Bytes
toy_id = falcon_lr_key_id toy (replicate 32 15)

keyed-named : (session_seed toy 9 keyed.ram).0 ≡ some toy_id
unfolding handler_falcon_lr_keygen keygen_viewed keygen_with regenerate blank key_view session_seed
    fresh_ram key_ok falcon_lr_key_id dispatch_lr sign_all sign_with sign_now signed_by
    handler_falcon_lr_sign sign_viewed sign_command falcon_sign_seeded_temp nvm_writes keygen_writes
    set_record persist nvm_write falcon_lr_ct_eq32 ct_diff falcon_derive_seed falcon512_derive_seed
    bytes_eq
keyed-named = refl

keyed-good : key_ok keyed.nvm.key_512 toy_id ≡ true
unfolding handler_falcon_lr_keygen keygen_viewed keygen_with regenerate blank key_view session_seed
    fresh_ram key_ok falcon_lr_key_id dispatch_lr sign_all sign_with sign_now signed_by
    handler_falcon_lr_sign sign_viewed sign_command falcon_sign_seeded_temp nvm_writes keygen_writes
    set_record persist nvm_write falcon_lr_ct_eq32 ct_diff falcon_derive_seed falcon512_derive_seed
    bytes_eq
keyed-good = refl

sign_all-mnemonic_example :
    SignedByMnemonic toy 9 fed.ram (sign_all toy 0 9 fed.nvm.key_512 fed.ram).0
sign_all-mnemonic_example =
    sign_all-mnemonic toy toy-IsSized toy-IsIdentifying 0 9 fed.nvm.key_512 fed fed-Reach fed-viewed
      sign_all_answers

signing_answers : (handler_falcon_lr_sign toy (payload [] 0) [] 0x10 9 fed).1.sw ≡ 0x9000
unfolding handler_falcon_lr_keygen keygen_viewed keygen_with regenerate blank key_view session_seed
    fresh_ram key_ok falcon_lr_key_id dispatch_lr sign_all sign_with sign_now signed_by
    handler_falcon_lr_sign sign_viewed sign_command falcon_sign_seeded_temp nvm_writes keygen_writes
    set_record persist nvm_write falcon_lr_ct_eq32 ct_diff falcon_derive_seed falcon512_derive_seed
    bytes_eq
signing_answers = refl

one_signature_per_seed_example :
    (handler_falcon_lr_sign toy
      (payload [] 0)
      []
      0x10
      9
      (run toy
        (sign_request 0x06 9 (payload session_message 32) ∷ keygen_request 10 ∷ [])
        (handler_falcon_lr_sign toy (payload [] 0) [] 0x10 9 fed).0).0).1.sw
    ≢ swo_success
one_signature_per_seed_example =
    one_signature_per_seed toy (payload [] 0) (payload [] 0) [] [] 9 9
      (sign_request 0x06 9 (payload session_message 32) ∷ keygen_request 10 ∷ []) fed
      signing_answers (refl, (refl, tt))

abbrev toy_signature : Bytes
toy_signature =
    (stored_signature toy 9 keyed.nvm.key_512 (take 32 session_message) (take 40 session_salt)).sig

toy_completes :
    (stored_signature toy 9 keyed.nvm.key_512 (take 32 session_message) (take 40 session_salt)).len
    ≡ 41 + 2 * 2 ^ 9
unfolding handler_falcon_lr_keygen keygen_viewed keygen_with regenerate blank key_view session_seed
    fresh_ram key_ok falcon_lr_key_id dispatch_lr sign_all sign_with sign_now signed_by
    handler_falcon_lr_sign sign_viewed sign_command falcon_sign_seeded_temp nvm_writes keygen_writes
    set_record persist nvm_write falcon_lr_ct_eq32 ct_diff falcon_derive_seed falcon512_derive_seed
    bytes_eq
toy_completes = refl

signing_session_example :
    let (d', answers) =
      run toy
        (sign_request 0x00 9 (payload [] 0)
          ∷ sign_request 0x06 9 (payload session_message 32)
          ∷ sign_request 0x08 9 (payload session_salt 40)
          ∷ sign_request 0x10 9 (payload [] 0)
          ∷ sign_request 0x91 9 (payload [] 0)
          ∷ [])
        keyed in
    (d'.ram.out ≡ overwrite toy_signature (replicate out_size 0))
    × (d'.ram.sig_ready ≡ 9)
    × (answers
        ≡ send_sw swo_success
          ∷ send_sw swo_success
          ∷ send_sw swo_success
          ∷ send_sw swo_success
          ∷ send_response (take 40 (drop 1 d'.ram.out)) swo_success
          ∷ [])
signing_session_example =
    signing_session toy 9 keyed.nvm.key_512 session_message session_salt keyed (inl refl)
      keyed-viewed keyed-named keyed-good toy_completes

reboot_keeps : (reboot keyed).nvm ≡ (handler_falcon_lr_keygen toy (payload [] 0) 0 9 blank).0.nvm
unfolding reboot dispatch_lr
reboot_keeps = refl

rebooted-IsCached : IsCached toy (reboot keyed).ram
unfolding reboot fresh_ram
rebooted-IsCached = (λ e. absurd (omega arith), λ e. absurd (omega arith))

keygen_idempotent_example : handler_falcon_lr_keygen toy (payload [] 0) 0 9 (reboot keyed) ≡ (
  record (reboot keyed) { ram = (session_seed toy 9 (reboot keyed).ram).1 },
  (handler_falcon_lr_keygen toy (payload [] 0) 0 9 blank).1,
)
keygen_idempotent_example =
    keygen_idempotent toy toy-IsSized (payload [] 0) (payload [] 0) 0 9 blank (reboot keyed)
      (start toy) keygen_answers reboot_keeps rebooted-IsCached refl

toy_generates : (new_keys toy 9 keyed.ram).ok ≡ true
toy_generates = refl

regenerate-scrubs_example :
    let keys = new_keys toy 9 keyed.ram in
    let before = working_area toy 9 keyed.ram in
    let after = (regenerate toy 9 toy_id blank_record keyed).0.ram.area in
    (read_bytes before 0 (3 * 2 ^ 9) ≡ raw_fg_f toy 9 keys.sk)
    × (read_bytes before (sk_off 9) (sign_key_size 9) ≡ keys.sk)
    × (read_bytes after 0 (5 * 2 ^ 9 + 2) ≡ replicate (5 * 2 ^ 9 + 2) 0)
    × (read_bytes after (sk_off 9) (sign_key_size 9) ≡ replicate (sign_key_size 9) 0)
regenerate-scrubs_example =
    regenerate-scrubs toy toy-IsSized 9 toy_id blank_record keyed (inl refl) toy_generates

persist-full_example :
    nvm_writes
      (persist 9 toy_id (decode_area toy 9 (keygen_area 9 (toy_keygen 9 [] 0) (λ i. 0))))
      blank_record
    ≡ full_record toy 9 toy_id (toy_keygen 9 [] 0)
persist-full_example =
    persist-full toy 9 (toy_keygen 9 [] 0) (λ i. 0) (IsLaidOut-degree 9 (inl refl))
      (toy-IsSized 9 (inl refl)) (omega arith) (length-replicate {A = ℕ} (sign_key_size 9) 3)
      (length-replicate {A = ℕ} (vrfy_key_size 9) 4) toy_id blank_record

get_pk_whole_example :
    collect (λ i. handler_falcon_lr_get_pk toy (payload [] 0) i 9) 0 5 keyed
    ≡ take (2 * 2 ^ 9) keyed.nvm.key_512.h
get_pk_whole_example =
    get_pk_whole toy (payload [] 0) 9 keyed.nvm.key_512 toy_id keyed (inl refl) keyed-viewed
      keyed-named keyed-good

abbrev signed : Device
signed = (handler_falcon_lr_sign toy (payload [] 0) [] 0x10 9 fed).0

signed-ready : signed.ram.sig_ready ≡ 9
unfolding handler_falcon_lr_keygen keygen_viewed keygen_with regenerate blank key_view session_seed
    fresh_ram key_ok falcon_lr_key_id dispatch_lr sign_all sign_with sign_now signed_by
    handler_falcon_lr_sign sign_viewed sign_command falcon_sign_seeded_temp nvm_writes keygen_writes
    set_record persist nvm_write falcon_lr_ct_eq32 ct_diff falcon_derive_seed falcon512_derive_seed
    bytes_eq
signed-ready = refl

get_sig_whole_example :
    collect (λ i. handler_falcon_lr_get_sig (payload [] 0) i 9) 0 5 signed
    ≡ take (2 * 2 ^ 9) (drop 41 signed.ram.out)
get_sig_whole_example = get_sig_whole (payload [] 0) 9 signed (inl refl) signed-ready

falcon_lr_ct_eq32_iff_example :
    (falcon_lr_ct_eq32 (replicate {A = ℕ} 32 1) (replicate {A = ℕ} 32 2) ≡ true)
    ↔ (replicate {A = ℕ} 32 1 ≡ replicate {A = ℕ} 32 2)
falcon_lr_ct_eq32_iff_example =
    falcon_lr_ct_eq32_iff (replicate {A = ℕ} 32 1) (replicate {A = ℕ} 32 2)
      (replicate-IsBytes 32 1 (omega arith)) (replicate-IsBytes 32 2 (omega arith)) refl refl
