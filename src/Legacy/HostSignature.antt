-- ===== src/Legacy/HostSignature.antt =====
-- The last two phases of signing: z0 and z1 come back from the host, twice and in the clear
-- (legacy/src/handler/handler_falcon_sign.c, FEED_SWAP and GET_SIG).
use zknox_hw_falcon.Common.{
  ℕ, ◌+◌, ◌≤◌, ◌≡◌, ◌⊎◌, refl, ap, ap₂, Bytes, List, [], ◌∷◌, ◌++◌, Bool, length, take, drop,
  Option, some, none, if◌then◌else◌, arith, inl, inr, ◌∙◌, take-all, length-append,
}
use zknox_hw_falcon.Common.Memory.{Memory, write_bytes, write_bytes-append, read-write_same}
use zknox_hw_falcon.Common.Apdu.{Response, send_sw, send_response, swo_success}
use zknox_hw_falcon.Legacy.State.{
  Reference, Globals, SignCtx, Phase, l0_wait_z0z1_s0, l0_wait_z0z1_s1, l0_sig_ready, flogn, fn,
  load_fpr,
}
use zknox_hw_falcon.Legacy.Level0.{
  s0_of, s1_of, sqn_of, neg_rint, do_compute_s0_sqn, do_compute_s1_and_check, swap_target,
}
use zknox_hw_falcon.Legacy.Stream.{size_t, cdata_bytes}
use zknox_hw_falcon.Legacy.Overrun.{stk_bytes, copied, copied_inside}
use zknox_hw_falcon.Legacy.Swap.{swap_plain, swap_plain_end, feed_swap}
use zknox_hw_falcon.Legacy.Half.{request_of}

-- FEED_SWAP requests one after the other, where only the last one has P2 = 1, and its response.
unfoldable pub swap_requests :
    Reference → Globals → List Bytes → Bytes → SignCtx → Option (SignCtx × Response)
swap_requests r g [] last s = feed_swap r g (request_of last) 1 s
swap_requests r g (c ∷ cs) last s = elim (feed_swap r g (request_of c) 0 s) [
  | none ↦ none
  | some (t, resp) ↦ swap_requests r g cs last t
]

-- Their bytes.
abbrev pub fed : List Bytes → Bytes → Bytes
fed [] last = last
fed (c ∷ cs) last = c ++ fed cs last

-- The host's z0 and z1 are expected.
abbrev pub IsExpecting : Phase → Type 0
IsExpecting p = (p ≡ l0_wait_z0z1_s0) ⊎ (p ≡ l0_wait_z0z1_s1)

pub plain_request :
    (r : Reference) (g : Globals) (c : Bytes) (p2 : ℕ) (s : SignCtx)
    → IsExpecting s.l0_phase
    → feed_swap r g (request_of c) p2 s ≡ some (swap_plain r g (request_of c) p2 0 s)
unfolding feed_swap swap_target
plain_request r g c p2 s expecting = ground arith

-- A request whose bytes stay inside `stk`.
plain_inside :
    (r : Reference) (g : Globals) (c : Bytes) (s : SignCtx)
    → s.accum_offset + length c ≤ stk_bytes
    → copied (0 + s.accum_offset) (cdata_bytes (request_of c)) s
      ≡ record s { stk = write_bytes s.stk s.accum_offset c }
plain_inside r g c s h =
    let whole = take-all (length c) c (omega arith) in
    let z : 0 + s.accum_offset ≡ s.accum_offset = omega arith in
    ap₂ (λ (k : ℕ) b. copied k b s) z whole ∙ copied_inside s.accum_offset c s h

swap_requests-fed :
    (r : Reference) (g : Globals) (cs : List Bytes) (last : Bytes) (s : SignCtx)
    → IsExpecting s.l0_phase
    → s.accum_offset + length (fed cs last) ≤ stk_bytes
    → swap_requests r g cs last s
      ≡ some (
          swap_plain_end r g
            (record s { stk = write_bytes s.stk s.accum_offset (fed cs last); accum_offset = 0 }))
unfolding swap_requests swap_plain
swap_requests-fed r g [] last s expecting small =
    plain_request r g last 1 s expecting
    ∙ ap (λ t. some (swap_plain_end r g (record t { accum_offset = 0 })))
        (plain_inside r g last s small)
swap_requests-fed r g (c ∷ cs) last s expecting small =
    let bytes = length-append c (fed cs last) in
    let acc : size_t (s.accum_offset + length c) ≡ s.accum_offset + length c = omega arith in
    let s1 : SignCtx = record s {
      stk = write_bytes s.stk s.accum_offset c;
      accum_offset = s.accum_offset + length c;
    } in
    let one : feed_swap r g (request_of c) 0 s ≡ some (s1, send_sw swo_success) =
      plain_request r g c 0 s expecting
      ∙ ap
          (λ (t : SignCtx).
            some
              (record t { accum_offset = size_t (t.accum_offset + length c) }, send_sw swo_success))
          (plain_inside r g c s (omega arith))
      ∙ ap
          (λ (a : ℕ). some (
            record s { stk = write_bytes s.stk s.accum_offset c; accum_offset = a },
            send_sw swo_success,
          ))
          acc in
    rw (swap_requests, one)
      (swap_requests-fed r g cs last s1 expecting (omega arith)
        ∙ ap (λ m. some (swap_plain_end r g (record s { stk = m; accum_offset = 0 })))
            (write_bytes-append s.stk s.accum_offset c (fed cs last)))

end_s0 :
    (r : Reference) (g : Globals) (s : SignCtx)
    → s.l0_phase ≡ l0_wait_z0z1_s0
    → swap_plain_end r g s
      ≡ (record (do_compute_s0_sqn r g s) { l0_phase = l0_wait_z0z1_s1 }, send_sw swo_success)
unfolding swap_plain_end
end_s0 r g s e = ground arith

end_s1 :
    (r : Reference) (g : Globals) (s : SignCtx)
    → s.l0_phase ≡ l0_wait_z0z1_s1
    → let last = do_compute_s1_and_check r g s in
      let ok : ℕ = if last.1 then 1 else 0 in
      swap_plain_end r g s ≡ (
        record last.0 { sig_valid = ok; l0_phase = l0_sig_ready },
        send_response (ok ∷ []) swo_success,
      )
unfolding swap_plain_end
end_s1 r g s e = ground arith

-- The polynomials that the host sent, in `stk`.
fed_z0 :
    (m : Memory) (b : Bytes) → length b ≡ 16384 → load_fpr (write_bytes m 0 b) 0 fn ≡ take 8192 b
fed_z0 m b e = read-write_same m 0 b 0 8192 (omega arith)

fed_z1 :
    (m : Memory) (b : Bytes)
    → length b ≡ 16384
    → load_fpr (write_bytes m 0 b) fn fn ≡ take 8192 (drop 8192 b)
fed_z1 m b e = read-write_same m 0 b 8192 8192 (omega arith)

-- The verdict on a signature, with the norm of the first half that was saved.
abbrev pub verdict : Reference → Globals → List ℕ → Bytes → List ℕ → Bool
verdict r g hm a sig =
    r.is_short_half (sqn_of r hm (s0_of r g (take 8192 a) (take 8192 (drop 8192 a)))) sig flogn

-- The signature that the device makes of the bytes `b`.
abbrev pub sig_from : Reference → Globals → Bytes → List ℕ
sig_from r g b = neg_rint r fn (s1_of r g (take 8192 b) (take 8192 (drop 8192 b)))

-- From the phase that expects z0 and z1 for s0, any 16384 bytes `a` and then any 16384 bytes `b`
-- that the host sends, in requests of any sizes, are taken: the signature is made of `b` alone
-- and the saved norm of `a` and the hash alone, and the verdict compares the two.
pub signature_from_host :
    (r : Reference) (g : Globals) (xs ys : List Bytes) (last_a last_b : Bytes) (s : SignCtx)
    → s.l0_phase ≡ l0_wait_z0z1_s0
    → s.accum_offset ≡ 0
    → length (fed xs last_a) ≡ 16384
    → length (fed ys last_b) ≡ 16384
    → (u t : SignCtx) × (resp : Response) × (swap_requests r g xs last_a s
        ≡ some (u, send_sw swo_success))
      × (swap_requests r g ys last_b u ≡ some (t, resp))
      × (t.hm_sig ≡ sig_from r g (fed ys last_b))
      × (t.sig_valid
          ≡ (if verdict r g s.hm_sig (fed xs last_a) (sig_from r g (fed ys last_b)) then 1 else 0))
      × (t.l0_phase ≡ l0_sig_ready)
unfolding swap_plain_end do_compute_s0_sqn do_compute_s1_and_check
signature_from_host r g xs ys last_a last_b s phase begins la lb =
    let a = fed xs last_a in
    let b = fed ys last_b in
    let s1 : SignCtx = record s { stk = write_bytes s.stk 0 a; accum_offset = 0 } in
    let u : SignCtx = record (do_compute_s0_sqn r g s1) { l0_phase = l0_wait_z0z1_s1 } in
    let u1 : SignCtx = record u { stk = write_bytes u.stk 0 b; accum_offset = 0 } in
    let last = do_compute_s1_and_check r g u1 in
    let ok : ℕ = if last.1 then 1 else 0 in
    let t : SignCtx = record last.0 { sig_valid = ok; l0_phase = l0_sig_ready } in
    let sig =
      ap₂ (λ z0 z1. neg_rint r fn (s1_of r g z0 z1)) (fed_z0 u.stk b lb) (fed_z1 u.stk b lb) in
    let sqn =
      ap₂ (λ z0 z1. sqn_of r s.hm_sig (s0_of r g z0 z1)) (fed_z0 s.stk a la) (fed_z1 s.stk a la) in
    (
      u,
      t,
      send_response (ok ∷ []) swo_success,
      swap_requests-fed r g xs last_a s (inl phase) (omega arith)
          ∙ ap
              (λ (k : ℕ).
                some
                  (swap_plain_end r g (record s { stk = write_bytes s.stk k a; accum_offset = 0 })))
              begins
          ∙ ap some (end_s0 r g s1 phase),
      swap_requests-fed r g ys last_b u (inr refl) (omega arith) ∙ ap some (end_s1 r g u1 refl),
      sig,
      ap₂ (λ (n : ℕ) v. if r.is_short_half n v flogn then 1 else 0) sqn sig,
      refl,
    )
