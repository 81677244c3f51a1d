-- ===== src/Legacy/ExpandRequests.antt =====
-- `handler_falcon_keygen_expand` of legacy/src/handler/handler_falcon_keygen_expand.c.
use zknox_hw_falcon.Common.{
  ℕ, ◌+◌, ◌-◌, ◌*◌, ◌++◌, take, drop, ◌==◌, ◌||◌, not, ltb, leb, if◌then◌else◌,
}
use zknox_hw_falcon.Common.Memory.{read_bytes}
use zknox_hw_falcon.Common.Apdu.{
  Buffer, Response, send_sw, send_response, swo_success, swo_incorrect_data, swo_incorrect_p1_p2,
  swo_wrong_data_length,
}
use zknox_hw_falcon.Legacy.State.{Reference, node_mac_len}
use zknox_hw_falcon.Legacy.Expand.{
  KePhase, ke_l0_staged, ke_walk_right, ke_walk_left, ke_done, Expander, slot_bytes, slot,
  compute_l0_phase, prep_right_phase, prep_left_phase, walker_step,
}

-- `kctx.phase = p`
abbrev pub set_phase : KePhase → Expander → Expander
set_phase p x = record x { kctx = record (x.kctx) { phase = p } }

-- `kctx.node_shipped = n`
abbrev pub set_shipped : ℕ → Expander → Expander
set_shipped n x = record x { kctx = record (x.kctx) { node_shipped = n } }

-- COMPUTE_L0 (P1 = 0x00)
unfoldable pub compute_l0 : Reference → Buffer → ℕ → Expander → Expander × Response
compute_l0 r buf p2 x =
    if not (p2 == 0) || not (buf.size == 0)
    then (x, send_sw swo_incorrect_p1_p2)
    else (set_phase ke_l0_staged (compute_l0_phase r x), send_sw swo_success)

-- GET_L0 (P1 = 0x01)
unfoldable pub get_l0 : Buffer → ℕ → Expander → Expander × Response
get_l0 buf p2 x =
    let total = slot_bytes + node_mac_len in
    let off = p2 * 255 in
    let chunk = if ltb 255 (total - off) then 255 else total - off in
    let staged = slot 1 x.zknox.area ++ take node_mac_len x.kctx.l0_tag in
    let reply =
      if not (buf.size == 0)
      then (x, send_sw swo_wrong_data_length)
      else if leb total off
      then (x, send_sw swo_incorrect_p1_p2)
      else (x, send_response (take chunk (drop off staged)) swo_success) in
    elim x.kctx.phase [ ke_l0_staged ↦ reply | _ ↦ (x, send_sw swo_incorrect_p1_p2) ]

-- PREP_RIGHT (P1 = 0x02)
unfoldable pub prep_right : Reference → Buffer → ℕ → Expander → Expander × Response
prep_right r buf p2 x =
    let go =
      set_shipped 0
        (walker_step r 1 3 ke_walk_left (set_phase ke_walk_right (prep_right_phase r x))) in
    if not (p2 == 0) || not (buf.size == 0)
    then (x, send_sw swo_incorrect_p1_p2)
    else elim x.kctx.phase [
      | ke_l0_staged ↦ (go, send_sw swo_success)
      | _ ↦ (x, send_sw swo_incorrect_p1_p2)
    ]

-- The next chunk of the record that is staged in a slot.
unfoldable pub ship : ℕ → Expander → Expander × Response
ship i x =
    let remaining = x.kctx.node_len - x.kctx.node_shipped in
    let chunk = if ltb 255 remaining then 255 else remaining in
    (
      set_shipped (x.kctx.node_shipped + chunk) x,
      send_response (read_bytes x.zknox.area (i * slot_bytes + x.kctx.node_shipped) chunk)
          swo_success,
    )

-- GET_NEXT_R (P1 = 0x03)
unfoldable pub get_next_r : Reference → Buffer → ℕ → Expander → Expander × Response
get_next_r r buf p2 x =
    let shipped = leb x.kctx.node_len x.kctx.node_shipped in
    let next = set_shipped 0 (walker_step r 1 3 ke_walk_left x) in
    if not (p2 == 0) || not (buf.size == 0)
    then (x, send_sw swo_incorrect_p1_p2)
    else elim x.kctx.phase [
      | ke_walk_right ↦ if shipped then ship 1 next else ship 1 x
      | ke_walk_left ↦ if shipped then (x, send_sw swo_incorrect_p1_p2) else ship 1 x
      | _ ↦ (x, send_sw swo_incorrect_p1_p2)
    ]

-- PREP_LEFT (P1 = 0x04)
unfoldable pub prep_left : Reference → Buffer → ℕ → Expander → Expander × Response
prep_left r buf p2 x =
    let go = set_shipped 0 (walker_step r 0 1 ke_done (prep_left_phase x)) in
    if not (p2 == 0) || not (buf.size == 0)
    then (x, send_sw swo_incorrect_p1_p2)
    else elim x.kctx.phase [
      | ke_walk_left ↦ (go, send_sw swo_success)
      | _ ↦ (x, send_sw swo_incorrect_p1_p2)
    ]

-- GET_NEXT_L (P1 = 0x05)
unfoldable pub get_next_l : Reference → Buffer → ℕ → Expander → Expander × Response
get_next_l r buf p2 x =
    let shipped = leb x.kctx.node_len x.kctx.node_shipped in
    let next = set_shipped 0 (walker_step r 0 1 ke_done x) in
    if not (p2 == 0) || not (buf.size == 0)
    then (x, send_sw swo_incorrect_p1_p2)
    else elim x.kctx.phase [
      | ke_walk_left ↦ if shipped then ship 0 next else ship 0 x
      | ke_done ↦ if shipped then (x, send_sw swo_incorrect_data) else ship 0 x
      | _ ↦ (x, send_sw swo_incorrect_p1_p2)
    ]

-- `handler_falcon_keygen_expand(cdata, p1, p2)`
unfoldable pub handler_falcon_keygen_expand :
    Reference → Buffer → ℕ → ℕ → Expander → Expander × Response
handler_falcon_keygen_expand r buf p1 p2 x =
    if x.zknox.keys.falcon_ready == 0
    then (x, send_sw swo_incorrect_data)
    else if p1 == 0x00
    then compute_l0 r buf p2 x
    else if p1 == 0x01
    then get_l0 buf p2 x
    else if p1 == 0x02
    then prep_right r buf p2 x
    else if p1 == 0x03
    then get_next_r r buf p2 x
    else if p1 == 0x04
    then prep_left r buf p2 x
    else if p1 == 0x05
    then get_next_l r buf p2 x
    else (x, send_sw swo_incorrect_p1_p2)
