-- ===== src/Legacy/OutsourcedLaws.antt =====
-- What is written is read back, and nothing else is accepted (legacy/src/handler/cx_outsourced.c).
use Prim.Native.Nat.{bit_xor}
use zknox_hw_falcon.Common.{
  ℕ, zero, suc, ◌+◌, ◌≤◌, ◌<◌, ◌≡◌, ◌≢◌, refl, sym, ap, ap₂, ◌∙◌, Bytes, [], ◌∷◌, ◌++◌, length,
  take, drop, true, ==_iff, arith, IsBytes, get_or-IsBytes, get_or_ext, take-append, drop-append,
  length-drop, Bool-cases, inl, inr, ◌⊎◌,
}
use zknox_hw_falcon.Common.Bits.{bit_xor_twice, bit_xor-lt}
use zknox_hw_falcon.LowRam.CtEq.{ct_diff-zero, ct_diff_self}
use zknox_hw_falcon.Legacy.Outsourced.{
  cxo_ok, cxo_tag_fail, Outsourced, cxo_tag_len, ct_memeq, xor_stream, keystream_loop, xof_stream,
  off_to_le8, apply_keystream, compute_tag, cx_outsourced_write, cx_outsourced_read,
  cx_outsourced_read_split,
}

-- The hash gives bytes, as many as are asked for.
pub record IsHash (shake256 : Bytes → ℕ → Bytes) : Type 0 where
  pub bytes : (b : Bytes) (n : ℕ) → IsBytes (shake256 b n)
  pub size : (b : Bytes) (n : ℕ) → length (shake256 b n) ≡ n

xor_stream-split :
    (stream : ℕ → ℕ) (n i : ℕ) (xs : Bytes)
    → xor_stream stream i (take n xs) ++ xor_stream stream (i + n) (drop n xs)
      ≡ xor_stream stream i xs
unfolding xor_stream
xor_stream-split stream zero i xs = let e : i + 0 ≡ i = omega arith in rw e refl
xor_stream-split stream (suc n) i [] = refl
xor_stream-split stream (suc n) i (x ∷ xs) =
    let e : i + suc n ≡ i + 1 + n = omega arith in
    rw e (ap (◌∷◌ (bit_xor x (stream i))) (xor_stream-split stream n (i + 1) xs))

-- The blocks of 64 bytes make one pass over the data.
pub keystream_loop-xor :
    (fuel : ℕ) (stream : ℕ → ℕ) (pos : ℕ) (xs : Bytes)
    → length xs ≤ fuel
    → keystream_loop fuel stream pos xs ≡ xor_stream stream pos xs
unfolding keystream_loop xor_stream
keystream_loop-xor zero stream pos [] h = refl
keystream_loop-xor (suc fuel) stream pos [] h = refl
keystream_loop-xor zero stream pos (x ∷ xs) h = absurd (omega arith)
keystream_loop-xor (suc fuel) stream pos (x ∷ xs) h =
    ap (◌++◌ (xor_stream stream pos (take 64 (x ∷ xs)))) (
      keystream_loop-xor fuel stream (pos + 64) (drop 64 (x ∷ xs))
        (omega (arith, length-drop 63 xs)))
    ∙ xor_stream-split stream 64 pos (x ∷ xs)

pub length-xor_stream :
    (stream : ℕ → ℕ) (i : ℕ) (xs : Bytes) → length (xor_stream stream i xs) ≡ length xs
unfolding xor_stream
length-xor_stream stream i [] = refl
length-xor_stream stream i (x ∷ xs) = ap suc (length-xor_stream stream (i + 1) xs)

xor_stream_twice :
    (stream : ℕ → ℕ) (i : ℕ) (xs : Bytes)
    → ((j : ℕ) → stream j < 256)
    → IsBytes xs
    → xor_stream stream i (xor_stream stream i xs) ≡ xs
unfolding xor_stream
xor_stream_twice stream i [] s h = refl
xor_stream_twice stream i (x ∷ xs) s h =
    ap₂ ◌∷◌ (bit_xor_twice 8 x (stream i) h.0 (s i)) (xor_stream_twice stream (i + 1) xs s h.1)

pub xor_stream-IsBytes :
    (stream : ℕ → ℕ) (i : ℕ) (xs : Bytes)
    → ((j : ℕ) → stream j < 256)
    → IsBytes xs
    → IsBytes (xor_stream stream i xs)
unfolding xor_stream
xor_stream-IsBytes stream i [] s h = tt
xor_stream-IsBytes stream i (x ∷ xs) s h =
    (bit_xor-lt x (stream i) 8 h.0 (s i), xor_stream-IsBytes stream (i + 1) xs s h.1)

module _ (shake256 : Bytes → ℕ → Bytes) where
  pub apply_keystream-xor :
      (key d : Bytes) (off : ℕ)
      → apply_keystream shake256 key d off
        ≡ xor_stream (xof_stream shake256 (key ++ off_to_le8 off)) 0 d
  unfolding apply_keystream
  apply_keystream-xor key d off = keystream_loop-xor (length d) _ 0 d (omega arith)

  pub length-apply_keystream :
      (key d : Bytes) (off : ℕ) → length (apply_keystream shake256 key d off) ≡ length d
  length-apply_keystream key d off =
      rw (apply_keystream-xor key d off)
        (length-xor_stream (xof_stream shake256 (key ++ off_to_le8 off)) 0 d)

  xof_stream-lt : IsHash shake256 → (input : Bytes) (i : ℕ) → xof_stream shake256 input i < 256
  unfolding xof_stream
  xof_stream-lt hash input i = get_or-IsBytes (shake256 input (i + 1)) i (hash.bytes input (i + 1))

  -- Decryption is encryption again.
  pub apply_keystream_twice :
      (key d : Bytes) (off : ℕ)
      → IsHash shake256
      → IsBytes d
      → apply_keystream shake256 key (apply_keystream shake256 key d off) off ≡ d
  apply_keystream_twice key d off hash h =
      rw (apply_keystream-xor key d off, apply_keystream-xor key _ off)
        (xor_stream_twice (xof_stream shake256 (key ++ off_to_le8 off)) 0 d
          (xof_stream-lt hash (key ++ off_to_le8 off)) h)

pub ct_memeq_self : (a : Bytes) (n : ℕ) → ct_memeq a a n ≡ true
unfolding ct_memeq
ct_memeq_self a n = (==_iff _ 0).1 (ct_diff_self n 0 a)

pub ct_memeq_sound :
    (a b : Bytes) (n : ℕ)
    → IsBytes a
    → IsBytes b
    → length a ≡ n
    → length b ≡ n
    → ct_memeq a b n ≡ true
    → a ≡ b
unfolding ct_memeq
ct_memeq_sound a b n ha hb la lb h =
    let same = ct_diff-zero n 0 0 a b ha hb ((==_iff _ 0).0 h) in
    get_or_ext a b (la ∙ sym lb) (λ i p. same.1 i (omega arith) (omega arith))

-- Writing a record and reading it at the same offset gives the plaintext back, whole.
pub cx_outsourced_read-write :
    (shake256 : Bytes → ℕ → Bytes) (ctx : Outsourced) (off : ℕ) (pt out : Bytes)
    → IsHash shake256
    → IsBytes pt
    → cx_outsourced_read shake256 ctx off (cx_outsourced_write shake256 ctx off pt) (length pt) out
      ≡ (cxo_ok, pt)
unfolding cx_outsourced_read cx_outsourced_write
cx_outsourced_read-write shake256 ctx off pt out hash h =
    let ct = apply_keystream shake256 ctx.tree_key pt off in
    let tag = compute_tag shake256 ctx.mac_key ct off in
    rw
      (
        ← length-apply_keystream shake256 ctx.tree_key pt off,
        take-append ct tag,
        drop-append ct tag,
        ct_memeq_self tag cxo_tag_len,
        apply_keystream_twice shake256 ctx.tree_key pt off hash h,
      )
      refl

-- A ciphertext is accepted exactly with the tag that the device computes for it at that offset;
-- then it is decrypted in place, and with any other tag of 16 bytes the buffer is left as it was.
pub cx_outsourced_read_split_iff :
    (shake256 : Bytes → ℕ → Bytes) (ctx : Outsourced) (off : ℕ) (ct tag : Bytes)
    → IsHash shake256
    → IsBytes tag
    → length tag ≡ cxo_tag_len
    → let r = cx_outsourced_read_split shake256 ctx off ct tag in
      let good = compute_tag shake256 ctx.mac_key ct off in
      ((r ≡ (cxo_ok, apply_keystream shake256 ctx.tree_key ct off)) × (tag ≡ good))
      ⊎ ((r ≡ (cxo_tag_fail, ct)) × (tag ≢ good))
unfolding cx_outsourced_read_split compute_tag
cx_outsourced_read_split_iff shake256 ctx off ct tag hash h e =
    let good = compute_tag shake256 ctx.mac_key ct off in
    elim (Bool-cases (ct_memeq good tag cxo_tag_len)) [
      | inl same ↦ inl (
        rw same refl,
        sym (ct_memeq_sound good tag cxo_tag_len (hash.bytes _ _) h (hash.size _ _) e same),
      )
      | inr other ↦ inr (
        rw other refl,
        λ t.
            let x = ap (λ (b : Bytes). ct_memeq good b cxo_tag_len) t in
            let y = ct_memeq_self good cxo_tag_len in cc,
      )
    ]
