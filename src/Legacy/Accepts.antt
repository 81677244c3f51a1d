-- ===== src/Legacy/Accepts.antt =====
-- legacy/src/handler/handler_falcon_keygen_expand.c and legacy/src/handler/handler_falcon_sign.c
-- together: the records that one makes are read by the other.
use zknox_hw_falcon.Common.{
  ℕ, zero, suc, ◌-◌, ◌*◌, ◌^◌, ◌≤◌, ◌≡◌, refl, sym, ap₂, Bytes, [], ◌∷◌, List, some, IsBytes, arith,
  ◌∙◌,
}
use zknox_hw_falcon.Common.Apdu.{send_response, swo_success}
use zknox_hw_falcon.Legacy.Outsourced.{Outsourced}
use zknox_hw_falcon.Legacy.OutsourcedLaws.{IsHash}
use zknox_hw_falcon.Legacy.State.{Reference, SignCtx, dfs_logn}
use zknox_hw_falcon.Legacy.Stream.{node_bytes, subtree_done}
use zknox_hw_falcon.Legacy.Tree.{Tree, IsFull, tree_end, tree_records, ff_tree}
use zknox_hw_falcon.Legacy.Half.{feed_requests, feed_requests-tree, joined, IsNonempty, IsWalking}
use zknox_hw_falcon.Legacy.Sizes.{node_count}
use zknox_hw_falcon.Legacy.Expand.{Expander}
use zknox_hw_falcon.Legacy.ExpandStep.{IsSized, keys_of, ldl_tree}
use zknox_hw_falcon.Legacy.ExpandHalves.{
  right_tree, left_tree, right_steps, left_steps, walk-tree_records,
}

-- The polynomials and numbers of the reference library are made of bytes.
pub record IsByteValued (r : Reference) : Type 0 where
  pub l10_bytes : (n : ℕ) (a b c : Bytes) → IsBytes (r.poly_ldlmv_fft n a b c).1
  pub fpr_bytes : (a b : Bytes) → IsBytes (r.fpr_mul a b)

-- The levels of a half, one by one.
label_size : (n : ℕ) → suc n ≤ dfs_logn → 8 * 2 ^ suc n ≡ node_bytes (dfs_logn - suc n)
unfolding node_bytes
label_size zero h = refl
label_size (suc zero) h = refl
label_size (suc (suc zero)) h = refl
label_size (suc (suc (suc zero))) h = refl
label_size (suc (suc (suc (suc zero)))) h = refl
label_size (suc (suc (suc (suc (suc zero))))) h = refl
label_size (suc (suc (suc (suc (suc (suc zero)))))) h = refl
label_size (suc (suc (suc (suc (suc (suc (suc zero))))))) h = refl
label_size (suc (suc (suc (suc (suc (suc (suc (suc zero)))))))) h = refl
label_size (suc (suc (suc (suc (suc (suc (suc (suc (suc n))))))))) h = absurd (omega arith)

-- The tree has all its nodes, and they have the sizes of their levels.
pub ldl_tree-IsFull :
    (r : Reference) (n : ℕ) (g0 g1 : Bytes)
    → IsSized r
    → IsByteValued r
    → n ≤ dfs_logn
    → IsFull n (ldl_tree r n g0 g1)
unfolding IsFull ldl_tree
ldl_tree-IsFull r zero g0 g1 sized valued h = (sized.fpr_size _ _, valued.fpr_bytes _ _)
ldl_tree-IsFull r (suc n) g0 g1 sized valued h = (
  sized.l10_size (suc n) _ _ _ ∙ label_size n h,
  valued.l10_bytes (suc n) _ _ _,
  ldl_tree-IsFull r n _ _ sized valued (omega arith),
  ldl_tree-IsFull r n _ _ sized valued (omega arith),
)

-- A session is about to read a half of the tree, at this offset.
pub record IsReady (s : SignCtx) (keys : Outsourced) (off : ℕ) : Type 0 where
  pub walking : IsWalking s
  pub top : s.depth ≡ 0
  pub begins : s.accum_offset ≡ 0
  pub same_keys : s.outsourced ≡ keys
  pub same_offset : s.tree_byte_offset ≡ off

-- The requests are accepted, and leave what the recursive walk over the tree leaves.
abbrev pub IsAccepted : Reference → Tree → Bytes → List Bytes → SignCtx → Type 0
IsAccepted r t c cs s =
    let walked = record (ff_tree r 0 t s) { done = 1; accum_offset = 0 } in
    (feed_requests r c cs s ≡ some (subtree_done r walked))
    × ((subtree_done r walked).1 ≡ send_response (1 ∷ []) swo_success)

accepted :
    (r : Reference) (t : Tree) (keys : Outsourced) (off : ℕ) (c : Bytes) (cs : List Bytes)
    (s : SignCtx)
    → IsHash r.shake256
    → IsFull dfs_logn t
    → IsReady s keys off
    → IsNonempty c cs
    → joined c cs ≡ tree_records r.shake256 keys off t
    → IsAccepted r t c cs s
accepted r t keys off c cs s hash full ready some_bytes e =
    feed_requests-tree r t c cs s hash full ready.walking ready.top ready.begins some_bytes (
      e
      ∙ ap₂ (λ (k : Outsourced) (o : ℕ). tree_records r.shake256 k o t) (sym ready.same_keys)
          (sym ready.same_offset))

-- The records that the expander stages for either half of the tree, cut into requests of any
-- sizes, the last one not empty, are accepted by a signing session that has the keys of the
-- expansion and stands at the offset of that half: the requests end the half and leave what the
-- recursive walk over its tree leaves. It holds for any reference library whose results are bytes
-- and have the sizes of polynomials, and a hash that gives the bytes asked for.
pub walk-feed_requests :
    (r : Reference) (x : Expander) (s1 s2 : SignCtx) (c1 c2 : Bytes) (cs1 cs2 : List Bytes)
    → IsSized r
    → IsByteValued r
    → IsHash r.shake256
    → IsReady s1 (keys_of x.kctx) x.kctx.cum_off
    → IsReady s2 (keys_of x.kctx) (tree_end x.kctx.cum_off (right_tree r x))
    → IsNonempty c1 cs1
    → IsNonempty c2 cs2
    → joined c1 cs1 ≡ (right_steps r (node_count dfs_logn) x).0
    → joined c2 cs2
      ≡ (left_steps r (node_count dfs_logn) (right_steps r (node_count dfs_logn) x).1).0
    → IsAccepted r (right_tree r x) c1 cs1 s1 × IsAccepted r (left_tree r x) c2 cs2 s2
walk-feed_requests r x s1 s2 c1 c2 cs1 cs2 sized valued hash ready1 ready2 more1 more2 e1 e2 =
    let made = walk-tree_records r x sized hash in
    let full : (a b : Bytes) → IsFull dfs_logn (ldl_tree r dfs_logn a b) =
      λ a b. ldl_tree-IsFull r dfs_logn a b sized valued (omega arith) in
    (
      accepted r (right_tree r x) (keys_of x.kctx) x.kctx.cum_off c1 cs1 s1 hash (full _ _) ready1
          more1 (e1 ∙ made.0),
      accepted r (left_tree r x) (keys_of x.kctx) (tree_end x.kctx.cum_off (right_tree r x)) c2 cs2
          s2 hash (full _ _) ready2 more2 (e2 ∙ made.1),
    )
