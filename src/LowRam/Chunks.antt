-- ===== src/LowRam/Chunks.antt =====
-- GET_PK and GET_SIG: the 255-byte chunks put together are the public key and s2
-- (`handler_falcon_lr_get_pk`, `handler_falcon_lr_get_sig`,
-- src/handler/handler_falcon_lowram.c).
use Prim.Native.Nat.{min}
use zknox_hw_falcon.Common.{
  ℕ, zero, suc, ◌+◌, ◌-◌, ◌*◌, ◌/◌, ◌^◌, ◌≤◌, ◌≡◌, inl, inr, refl, ap, ap₂, ◌∙◌, Bytes, [], ◌++◌,
  Option, some, arith, leb, ltb, true, Bool-cases, length, take, drop, take-take, drop-take,
  drop-drop, take-take-drop, take-all, length-take,
}
use zknox_hw_falcon.Common.Apdu.{Buffer, Response}
use zknox_hw_falcon.LowRam.State.{Core, KeyRecord, Storage, Device, key_view}
use zknox_hw_falcon.LowRam.Seed.{session_seed}
use zknox_hw_falcon.LowRam.Nvm.{key_ok}
use zknox_hw_falcon.LowRam.Keygen.{
  handler_falcon_lr_get_pk, get_pk_viewed, get_pk_with, chunk_reply,
}
use zknox_hw_falcon.LowRam.Sign.{handler_falcon_lr_get_sig}
use zknox_hw_falcon.LowRam.Persist.{IsDegree}

-- The data of `count` requests for the chunks `first`, `first + 1`, …, put together.
unfoldable pub collect : (ℕ → Device → Device × Response) → ℕ → ℕ → Device → Bytes
collect h first zero d = []
collect h first (suc n) d = let (d', r) = h first d in r.data_out ++ collect h (first + 1) n d'

-- How many chunks of 255 bytes cover an array of 2n bytes.
abbrev pub chunk_count : ℕ → ℕ
chunk_count logn = (2 * 2 ^ logn + 254) / 255

chunk_data :
    (b : Bytes) (total off : ℕ)
    → (chunk_reply b total off).data_out ≡ take 255 (drop off (take total b))
unfolding chunk_reply
chunk_data b total off =
    rw (drop-take off total b, take-take 255 (total - off) (drop off b))
      (elim (Bool-cases (leb total off)) [
        | inl past ↦ let e : min 255 (total - off) ≡ 0 = ground arith in rw (past, e) refl
        | inr inside ↦ elim (Bool-cases (ltb 255 (total - off))) [
          | inl long ↦
              let e : min 255 (total - off) ≡ 255 = ground arith in rw (inside, long, e) refl
          | inr short ↦
              let e : min 255 (total - off) ≡ total - off = ground arith in
              rw (inside, short, e) refl
        ]
      ])

-- Where each chunk is a piece of `whole`, the chunks together are `whole`.
collect-pieces :
    (h : ℕ → Device → Device × Response) (whole : Bytes) (P : Device → Type 0)
    → ((i : ℕ) (d : Device)
        → P d
        → P (h i d).0 × ((h i d).1.data_out ≡ take 255 (drop (i * 255) whole)))
    → (first n : ℕ) (d : Device) → P d
    → collect h first n d ≡ take (n * 255) (drop (first * 255) whole)
unfolding collect
collect-pieces h whole P keep first zero d p = refl
collect-pieces h whole P keep first (suc n) d p =
    let step = keep first d p in
    let e : suc n * 255 ≡ 255 + n * 255 = omega arith in
    let f : (first + 1) * 255 ≡ first * 255 + 255 = omega arith in
    rw
      (
        e,
        ← take-take-drop 255 (n * 255) (drop (first * 255) whole),
        drop-drop (first * 255) 255 whole,
        ← f,
      )
      (ap₂ ◌++◌ step.1 (collect-pieces h whole P keep (first + 1) n (h first d).0 step.0))

chunks_cover :
    (logn : ℕ)
    → IsDegree logn
    → (b : Bytes) → length b ≤ 2 * 2 ^ logn
    → take (chunk_count logn * 255) (drop (0 * 255) b) ≡ b
chunks_cover logn (inl e) b h = rw e (take-all 1275 b (let g = rw e at h in omega arith))
chunks_cover logn (inr e) b h = rw e (take-all 2295 b (let g = rw e at h in omega arith))

get_sig_reply :
    (buf : Buffer) (i logn : ℕ) (d : Device)
    → IsDegree logn
    → d.ram.sig_ready ≡ logn
    → handler_falcon_lr_get_sig buf i logn d
      ≡ (d, chunk_reply (drop 41 d.ram.out) (2 * 2 ^ logn) (i * 255))
unfolding handler_falcon_lr_get_sig
get_sig_reply buf i logn d (inl e) ready = ground arith
get_sig_reply buf i logn d (inr e) ready = ground arith

-- With a signature of degree `logn` in place, the GET_SIG chunks 0, 1, … put together are the
-- 2n bytes of s2 that follow the header and the nonce in the output buffer.
pub get_sig_whole :
    (buf : Buffer) (logn : ℕ) (d : Device)
    → IsDegree logn
    → d.ram.sig_ready ≡ logn
    → collect (λ i. handler_falcon_lr_get_sig buf i logn) 0 (chunk_count logn) d
      ≡ take (2 * 2 ^ logn) (drop 41 d.ram.out)
get_sig_whole buf logn d degree ready =
    collect-pieces (λ i. handler_falcon_lr_get_sig buf i logn)
      (take (2 * 2 ^ logn) (drop 41 d.ram.out)) (λ e. e ≡ d)
      (λ i e same.
        rw (same, get_sig_reply buf i logn d degree ready)
          (refl, chunk_data (drop 41 d.ram.out) (2 * 2 ^ logn) (i * 255)))
      0 (chunk_count logn) d refl
    ∙ chunks_cover logn degree (take (2 * 2 ^ logn) (drop 41 d.ram.out))
        (omega (arith, length-take (2 * 2 ^ logn) (drop 41 d.ram.out)))

session_seed-again :
    (c : Core) (logn : ℕ) (s : Storage)
    → IsDegree logn
    → session_seed c logn (session_seed c logn s).1
      ≡ ((session_seed c logn s).0, (session_seed c logn s).1)
unfolding session_seed
session_seed-again c logn s (inl e) = rw e (ground arith)
session_seed-again c logn s (inr e) = rw e (ground arith)

get_pk_reply :
    (c : Core) (buf : Buffer) (i logn : ℕ) (k : KeyRecord) (id : Bytes) (d : Device)
    → key_view logn d.nvm ≡ some k
    → (session_seed c logn d.ram).0 ≡ some id
    → key_ok k id ≡ true
    → handler_falcon_lr_get_pk c buf i logn d
      ≡ (record d { ram = (session_seed c logn d.ram).1 }, chunk_reply k.h (2 * 2 ^ logn) (i * 255))
unfolding handler_falcon_lr_get_pk get_pk_viewed get_pk_with
get_pk_reply c buf i logn k id d viewed named good = rw (viewed, named, good) refl

-- With a good key record of degree `logn`, the GET_PK chunks 0, 1, … put together are the 2n
-- bytes of the stored public key, whether or not the session's seed was cached before.
pub get_pk_whole :
    (c : Core) (buf : Buffer) (logn : ℕ) (k : KeyRecord) (id : Bytes) (d : Device)
    → IsDegree logn
    → key_view logn d.nvm ≡ some k
    → (session_seed c logn d.ram).0 ≡ some id
    → key_ok k id ≡ true
    → collect (λ i. handler_falcon_lr_get_pk c buf i logn) 0 (chunk_count logn) d
      ≡ take (2 * 2 ^ logn) k.h
get_pk_whole c buf logn k id d degree viewed named good =
    collect-pieces (λ i. handler_falcon_lr_get_pk c buf i logn) (take (2 * 2 ^ logn) k.h)
      (λ e. (key_view logn e.nvm ≡ some k) × ((session_seed c logn e.ram).0 ≡ some id))
      (λ i e p. rw (get_pk_reply c buf i logn k id e p.0 p.1 good) (
        (
          p.0,
          ap (λ (r : Option Bytes × Storage). r.0) (session_seed-again c logn e.ram degree) ∙ p.1,
        ),
        chunk_data k.h (2 * 2 ^ logn) (i * 255),
      ))
      0 (chunk_count logn) d (viewed, named)
    ∙ chunks_cover logn degree (take (2 * 2 ^ logn) k.h)
        (omega (arith, length-take (2 * 2 ^ logn) k.h))
