-- ===== src/Legacy/ExpandDelivered.antt =====
-- The responses to GET_NEXT_R (legacy/src/handler/handler_falcon_keygen_expand.c) hold the records
-- of the right half.
use mathlib.Core.List.{append_assoc, append-nil}
use zknox_hw_falcon.Common.{
  ℕ, zero, suc, ◌+◌, ◌-◌, ◌^◌, ◌/◌, ◌<◌, ◌≡◌, refl, sym, ap, subst, Bytes, [], ◌++◌, ◌==◌, arith,
  inl, inr, ◌∙◌, Bool-cases,
}
use zknox_hw_falcon.Common.Apdu.{Response}
use zknox_hw_falcon.Legacy.OutsourcedLaws.{IsHash}
use zknox_hw_falcon.Legacy.State.{Reference, dfs_logn}
use zknox_hw_falcon.Legacy.Tree.{tree_records}
use zknox_hw_falcon.Legacy.Half.{request_of}
use zknox_hw_falcon.Legacy.Expand.{
  KePhase, ke_l0_staged, ke_walk_right, ke_walk_left, Kctx, Expander, walker_step, walker_leaf,
  walker_inner, walker_bubble, prep_right_phase, emit_node_into,
}
use zknox_hw_falcon.Legacy.ExpandRequests.{set_phase, set_shipped, ship, get_next_r, prep_right}
use zknox_hw_falcon.Legacy.ExpandStep.{IsSized, keys_of, staged}
use zknox_hw_falcon.Legacy.ExpandLeaf.{walk, bubble_len}
use zknox_hw_falcon.Legacy.ExpandHalves.{right_tree, right_walk, walk-tree_records}
use zknox_hw_falcon.Legacy.ExpandChunks.{get_many, IsShipping, next_chunk, next_record, rest_chunks}

-- The walk does not read the number of bytes that are shipped.
bubble-set_shipped :
    (end_phase : KePhase) (d a : ℕ) (k : Kctx)
    → walker_bubble end_phase d (record k { node_shipped = a })
      ≡ record (walker_bubble end_phase d k) { node_shipped = a }
unfolding walker_bubble
bubble-set_shipped end_phase zero a k = refl
bubble-set_shipped end_phase (suc d) a k = elim (Bool-cases (k.child_phase d == 0)) [
  | inl e ↦ simp e refl
  | inr e ↦ simp e (bubble-set_shipped end_phase d a k)
]

step-set_shipped :
    (r : Reference) (t u : ℕ) (end_phase : KePhase) (a : ℕ) (x : Expander)
    → walker_step r t u end_phase (set_shipped a x) ≡ set_shipped a (walker_step r t u end_phase x)
unfolding walker_step walker_leaf walker_inner emit_node_into
step-set_shipped r t u end_phase a x = elim (Bool-cases (2 ^ (dfs_logn - x.kctx.depth) == 1)) [
  | inl e ↦ simp e (
      ap (λ (k : Kctx). record { kctx = k; zknox = (walker_leaf r t end_phase x).zknox })
        (bubble-set_shipped end_phase _ a _))
  | inr e ↦ simp e refl
]

-- A step stages a record.
step_len :
    (r : Reference) (t u : ℕ) (end_phase : KePhase) (x : Expander)
    → 0 < (walker_step r t u end_phase x).kctx.node_len
unfolding walker_step walker_leaf walker_inner emit_node_into
step_len r t u end_phase x = elim (Bool-cases (2 ^ (dfs_logn - x.kctx.depth) == 1)) [
  | inl e ↦
      simp e (subst (λ (n : ℕ). 0 < n) (sym (bubble_len end_phase x.kctx.depth _)) (omega arith))
  | inr e ↦ simp e (omega arith)
]

get_many-add :
    (r : Reference) (a b : ℕ) (x : Expander)
    → get_many r (a + b) x ≡ (
      (get_many r a x).0 ++ (get_many r b (get_many r a x).1).0,
      (get_many r b (get_many r a x).1).1,
    )
unfolding get_many
get_many-add r zero b x = let e : 0 + b ≡ b = omega arith in rw e refl
get_many-add r (suc a) b x =
    let e : suc a + b ≡ suc (a + b) = omega arith in
    rw (e, get_many, get_many-add r a b (get_next_r r (request_of []) 0 x).0, append_assoc) refl

-- A whole record, in its chunks.
whole_chunks :
    (r : Reference) (x : Expander)
    → IsShipping x.kctx.phase
    → 0 < x.kctx.node_len
    → get_many r (suc ((x.kctx.node_len - 1) / 255)) (set_shipped 0 x)
      ≡ (staged 1 x, set_shipped x.kctx.node_len x)
whole_chunks r x phase some_bytes =
    let len = x.kctx.node_len in
    let e : len - 0 ≡ len = omega arith in
    rest_chunks r (suc ((len - 1) / 255)) (set_shipped 0 x) phase (omega arith) (omega arith)
      (omega arith)
    ∙ ap
        (λ (k : ℕ).
          (staged 1 (record x { kctx = record (x.kctx) { node_len = k } }), set_shipped len x))
        e

-- When a record is shipped, the next request is the first one for the next record.
next_many :
    (r : Reference) (m : ℕ) (x : Expander)
    → x.kctx.phase ≡ ke_walk_right
    → IsShipping (walker_step r 1 3 ke_walk_left x).kctx.phase
    → get_many r (suc m) (set_shipped x.kctx.node_len x)
      ≡ get_many r (suc m) (set_shipped 0 (walker_step r 1 3 ke_walk_left x))
unfolding get_many
next_many r m x phase after =
    let x1 = walker_step r 1 3 ke_walk_left x in
    ap
      (λ (a : Expander × Response). let rest = get_many r m a.0 in (a.1.data_out ++ rest.0, rest.1))
      (next_record r (set_shipped x.kctx.node_len x) phase (omega arith)
        ∙ ap (λ (y : Expander). ship 1 (set_shipped 0 y))
            (step-set_shipped r 1 3 ke_walk_left x.kctx.node_len x)
        ∙ sym (next_chunk r (set_shipped 0 x1) after (step_len r 1 3 ke_walk_left x)))

starts :
    (r : Reference) (k : ℕ) (x : Expander)
    → ((j : ℕ) → j < k → (walk r 1 3 ke_walk_left j x).1.kctx.phase ≡ ke_walk_right)
    → IsShipping (walk r 1 3 ke_walk_left k x).1.kctx.phase
    → IsShipping x.kctx.phase
unfolding walk
starts r zero x inside last = last
starts r (suc k) x inside last = inl (inside 0 (omega arith))

-- The records of a run of steps, each in its chunks.
deliver_from :
    (r : Reference) (k : ℕ) (x : Expander)
    → ((j : ℕ) → j < k → (walk r 1 3 ke_walk_left j x).1.kctx.phase ≡ ke_walk_right)
    → IsShipping (walk r 1 3 ke_walk_left k x).1.kctx.phase
    → 0 < x.kctx.node_len
    → (m : ℕ) × (a : ℕ) × (get_many r (suc m) (set_shipped 0 x) ≡ (
      staged 1 x ++ (walk r 1 3 ke_walk_left k x).0,
      set_shipped a (walk r 1 3 ke_walk_left k x).1,
    ))
unfolding walk
deliver_from r zero x inside last some_bytes = (
  (x.kctx.node_len - 1) / 255,
  x.kctx.node_len,
  whole_chunks r x last some_bytes
      ∙ ap (λ (b : Bytes). (b, set_shipped x.kctx.node_len x)) (sym (append-nil (staged 1 x))),
)
deliver_from r (suc k) x inside last some_bytes =
    let x1 = walker_step r 1 3 ke_walk_left x in
    let here : x.kctx.phase ≡ ke_walk_right = inside 0 (omega arith) in
    let below : (j : ℕ) → j < k → (walk r 1 3 ke_walk_left j x1).1.kctx.phase ≡ ke_walk_right =
      λ j h. inside (suc j) (omega arith) in
    let after : IsShipping x1.kctx.phase = starts r k x1 below last in
    let (m, a, e) = deliver_from r k x1 below last (step_len r 1 3 ke_walk_left x) in
    let c = (x.kctx.node_len - 1) / 255 in
    let sum : suc (c + suc m) ≡ suc c + suc m = omega arith in
    (
      c + suc m,
      a,
      ap (λ (i : ℕ). get_many r i (set_shipped 0 x)) sum
          ∙ get_many-add r (suc c) (suc m) (set_shipped 0 x)
          ∙ ap (λ (p : Bytes × Expander). let q = get_many r (suc m) p.1 in (p.0 ++ q.0, q.1))
              (whole_chunks r x (inl here) some_bytes)
          ∙ ap (λ (q : Bytes × Expander). (staged 1 x ++ q.0, q.1))
              (next_many r m x here after ∙ e),
    )

prepared :
    (r : Reference) (x : Expander)
    → x.kctx.phase ≡ ke_l0_staged
    → (prep_right r (request_of []) 0 x).0
      ≡ set_shipped 0
          (walker_step r 1 3 ke_walk_left (set_phase ke_walk_right (prep_right_phase r x)))
unfolding prep_right
prepared r x e = simp e refl

-- From the staged polynomials on, PREP_RIGHT and then some number of GET_NEXT_R requests deliver
-- exactly the records of the tree of the right half, in the order of the walk, and end in the phase
-- in which PREP_LEFT is accepted. It holds for any reference library whose results have the sizes of
-- polynomials, and a hash that gives the bytes asked for.
pub get_next_r-tree_records :
    (r : Reference) (x : Expander)
    → IsSized r
    → IsHash r.shake256
    → x.kctx.phase ≡ ke_l0_staged
    → (n : ℕ) × (let got = get_many r n (prep_right r (request_of []) 0 x).0 in
        (got.0 ≡ tree_records r.shake256 (keys_of x.kctx) x.kctx.cum_off (right_tree r x))
        × (got.1.kctx.phase ≡ ke_walk_left))
unfolding walk prep_right_phase walker_bubble
get_next_r-tree_records r x sized hash staged_l0 =
    let start = set_phase ke_walk_right (prep_right_phase r x) in
    let x1 = walker_step r 1 3 ke_walk_left start in
    let right = right_walk r x sized hash in
    let made = walk-tree_records r x sized hash in
    let (m, a, e) =
      deliver_from r 1022 x1 (λ j h. right.inside (suc j) (omega arith)) (inr made.2)
        (step_len r 1 3 ke_walk_left start) in
    let all = ap (λ (y : Expander). get_many r (suc m) y) (prepared r x staged_l0) ∙ e in
    (
      suc m,
      (
        ap (λ (p : Bytes × Expander). p.0) all ∙ made.0,
        ap (λ (p : Bytes × Expander). p.1.kctx.phase) all ∙ made.2,
      ),
    )
