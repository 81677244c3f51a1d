-- ===== src/Legacy/Overrun.antt =====
-- `memcpy` into `stk` of the context (legacy/src/handler/handler_falcon_sign.c), also where it runs
-- over the end of `stk` into the fields behind it. The offsets are those of a 32-bit target, whose
-- `int` and `size_t` have four bytes, with the types of legacy/src/zknox/falcon/inner.h. A byte
-- behind the context is other memory and is left out.
use zknox_hw_falcon.Common.{
  ℕ, zero, suc, ◌+◌, ◌-◌, ◌*◌, ◌/◌, ◌%◌, ◌≤◌, ◌≡◌, refl, Bytes, List, [], ◌∷◌, length, drop, get_or,
  arith, leb, true, if◌then◌else◌,
}
use zknox_hw_falcon.Common.Memory.{Memory, write_bytes, read_bytes}
use zknox_hw_falcon.Legacy.State.{SignCtx, hn}

-- The bytes of `stk`.
abbrev pub stk_bytes : ℕ
stk_bytes = 8 * (6 * hn)

-- The bytes `old` at `base`, after `src` is copied to `at`.
unfoldable pub overlay : ℕ → Bytes → ℕ → Bytes → Bytes
overlay at src base old =
    let image : Memory = λ i. get_or old (i - base) 0 in
    read_bytes (write_bytes image at src) base (length old)

-- A little-endian number of `k` bytes.
unfoldable pub number_bytes : ℕ → ℕ → Bytes
number_bytes zero n = []
number_bytes (suc k) n = n % 256 ∷ number_bytes k (n / 256)

unfoldable pub number_of : Bytes → ℕ
number_of [] = 0
number_of (x ∷ xs) = x + 256 * number_of xs

-- An array of 16-bit words.
unfoldable pub word_bytes : List ℕ → Bytes
word_bytes [] = []
word_bytes (w ∷ ws) = w % 256 ∷ w / 256 ∷ word_bytes ws

unfoldable pub words_of : Bytes → List ℕ
words_of [] = []
words_of (x ∷ []) = []
words_of (x ∷ y ∷ xs) = (x + 256 * y) ∷ words_of xs

-- The number of `k` bytes at `base`, after `src` is copied to `at`.
unfoldable pub overlay_number : ℕ → Bytes → ℕ → ℕ → ℕ → ℕ
overlay_number at src base k n = number_of (overlay at src base (number_bytes k n))

-- The fields behind `stk` after `src` is copied to the offset `at` from the end of `stk`.
unfoldable pub spill : ℕ → Bytes → SignCtx → SignCtx
spill at src s = record s {
  ws = write_bytes s.ws at src;
  hm_sig = words_of (overlay at src 4096 (word_bytes s.hm_sig));
  accum_offset = overlay_number at src 6144 4 s.accum_offset;
  sc = record { p = overlay at src 6152 s.sc.p; sigma_min = overlay at src 6936 s.sc.sigma_min };
  sig_valid = overlay_number at src 6944 4 s.sig_valid;
  sqn_saved = overlay_number at src 6948 4 s.sqn_saved;
  outsourced = record {
    tree_key = overlay at src 6952 s.outsourced.tree_key;
    mac_key = overlay at src 6984 s.outsourced.mac_key;
  };
  tag_buf = λ i. write_bytes (λ j. s.tag_buf (j - 7016)) at src (7016 + i);
  tree_byte_offset = overlay_number at src 7032 4 s.tree_byte_offset;
  nonce = overlay at src 7248 s.nonce;
  msg = overlay at src 7288 s.msg;
  nonce_set = overlay_number at src 7320 1 s.nonce_set;
  msg_set = overlay_number at src 7321 1 s.msg_set;
  hm_done = overlay_number at src 7322 1 s.hm_done;
}

-- `memcpy(sctx.stk + at, src, n)`, with the offset in bytes
unfoldable pub copied : ℕ → Bytes → SignCtx → SignCtx
copied at src s =
    let s1 = record s { stk = write_bytes s.stk at src } in
    if leb (at + length src) stk_bytes
    then s1
    else spill (at - stk_bytes) (drop (stk_bytes - at) src) s1

-- A copy that stays inside `stk` changes nothing else.
pub copied_inside :
    (at : ℕ) (src : Bytes) (s : SignCtx)
    → at + length src ≤ stk_bytes
    → copied at src s ≡ record s { stk = write_bytes s.stk at src }
unfolding copied
copied_inside at src s h =
    let fits : leb (at + length src) stk_bytes ≡ true = ground arith in rw (copied, fits) refl
