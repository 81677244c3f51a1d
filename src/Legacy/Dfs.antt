-- ===== src/Legacy/Dfs.antt =====
-- The depth-first walk of legacy/src/handler/handler_falcon_sign.c over the tree of one half.
use zknox_hw_falcon.Common.{
  ℕ, zero, suc, ◌+◌, ◌-◌, ◌*◌, ◌/◌, ◌^◌, ◌==◌, leb, Bytes, take, if◌then◌else◌,
}
use zknox_hw_falcon.Legacy.State.{Reference, SignCtx, hn, dfs_logn, load_fpr, store_fpr, set_at}

-- `psz`, `foff`
abbrev pub psz : ℕ → ℕ
psz d = hn / 2 ^ d

abbrev pub foff : ℕ → ℕ
foff d = 6 * (hn - hn / 2 ^ d)

-- `STK_LL`, `STK_T0`, `STK_T1`, as indices into `stk`
abbrev pub stk_ll : ℕ → ℕ
stk_ll d = foff d

abbrev pub stk_t0 : ℕ → ℕ
stk_t0 d = foff d + psz d

abbrev pub stk_t1 : ℕ → ℕ
stk_t1 d = foff d + 2 * psz d

-- `poly_split_fft(STK_T0(dep), STK_T1(dep), f, logn)`
unfoldable pub split_children : Reference → ℕ → ℕ → Bytes → SignCtx → SignCtx
split_children r dep logn f s =
    let halves = r.poly_split_fft logn f in
    record s { stk = store_fpr (store_fpr s.stk (stk_t0 dep) halves.0) (stk_t1 dep) halves.1 }

-- `dfs_enter`
unfoldable pub dfs_enter : Reference → ℕ → SignCtx → SignCtx
dfs_enter r dep s =
    let s1 =
      split_children r (dep + 1) (dfs_logn - dep) (load_fpr s.stk (stk_t1 dep) (psz dep)) s in
    record s1 { child_phase = set_at s1.child_phase dep 0 }

-- `dfs_after_right`
unfoldable pub dfs_after_right : Reference → ℕ → SignCtx → SignCtx
dfs_after_right r dep s =
    let m = psz dep in
    let ln = dfs_logn - dep in
    let p_l = load_fpr s.stk (stk_ll dep) m in
    let pt0 = load_fpr s.stk (stk_t0 dep) m in
    let t1 = load_fpr s.stk (stk_t1 dep) m in
    let c0 = load_fpr s.stk (stk_t0 (dep + 1)) (psz (dep + 1)) in
    let c1 = load_fpr s.stk (stk_t1 (dep + 1)) (psz (dep + 1)) in
    let pt1 = r.poly_merge_fft ln c0 c1 in
    let w = r.poly_add ln (r.poly_mul_fft ln (r.poly_sub ln t1 pt1) p_l) pt0 in
    let s1 = record s { stk = store_fpr s.stk (stk_t1 dep) pt1; ws = store_fpr s.ws 0 w } in
    let s2 = split_children r (dep + 1) ln w s1 in
    record s2 { child_phase = set_at s2.child_phase dep 1 }

-- `dfs_after_left`
unfoldable pub dfs_after_left : Reference → ℕ → SignCtx → SignCtx
dfs_after_left r dep s =
    let half = psz (dep + 1) in
    let z =
      r.poly_merge_fft (dfs_logn - dep) (load_fpr s.stk (stk_t0 (dep + 1)) half)
        (load_fpr s.stk (stk_t1 (dep + 1)) half) in
    let s1 = record s { ws = store_fpr s.ws 0 z } in
    if dep == 0
    then s1
    else record s1 { stk = store_fpr s1.stk (stk_t0 dep) (load_fpr s1.ws 0 (psz dep)) }

-- The two calls of the sampler at a leaf.
unfoldable pub sample_leaf : Reference → ℕ → Bytes → SignCtx → SignCtx
sample_leaf r dep v s =
    let x0 = r.sampler s.sc (load_fpr s.stk (stk_t0 dep) 1) v in
    let stk0 = store_fpr s.stk (stk_t0 dep) (r.fpr_of x0.1) in
    let x1 = r.sampler x0.0 (load_fpr stk0 (stk_t1 dep) 1) v in
    record s { sc = x1.0; stk = store_fpr stk0 (stk_t1 dep) (r.fpr_of x1.1) }

-- The `for (;;)` loop of `dfs_feed`: up from a finished node, to the next one that is due.
unfoldable pub dfs_bubble : Reference → ℕ → SignCtx → SignCtx × ℕ
dfs_bubble r zero s = (record s { done = 1 }, 1)
dfs_bubble r (suc dep) s =
    let up = dfs_bubble r dep (dfs_after_left r dep s) in
    if s.child_phase dep == 0 then (record (dfs_after_right r dep s) { depth = dep + 1 }, 0) else up

-- `dfs_feed(data)`: the context and the result.
unfoldable pub dfs_feed : Reference → Bytes → SignCtx → SignCtx × ℕ
dfs_feed r d s =
    if leb dfs_logn s.depth then dfs_bubble r s.depth (sample_leaf r s.depth (take 8 d) s) else (
      record (dfs_enter r s.depth (record s { stk = store_fpr s.stk (stk_ll s.depth) d })) {
        depth = s.depth + 1;
      },
      0,
    )
