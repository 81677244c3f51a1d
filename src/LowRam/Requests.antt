-- ===== src/LowRam/Requests.antt =====
-- The four lowram instructions of `apdu_dispatcher` (src/apdu/dispatcher.c), and sessions of
-- them: what a device does with a list of requests.
use zknox_hw_falcon.Common.{ℕ, Bytes, List, [], ◌∷◌, ◌==◌, if◌then◌else◌}
use zknox_hw_falcon.Common.Apdu.{Buffer, Response}
use zknox_hw_falcon.LowRam.State.{Core, Device, fresh_ram}
use zknox_hw_falcon.LowRam.Keygen.{handler_falcon_lr_keygen, handler_falcon_lr_get_pk}
use zknox_hw_falcon.LowRam.Sign.{handler_falcon_lr_sign, handler_falcon_lr_get_sig}

-- `command_e`: the lowram instructions
abbrev pub falcon_lr_keygen : ℕ
falcon_lr_keygen = 0x50

abbrev pub falcon_lr_get_pk : ℕ
falcon_lr_get_pk = 0x51

abbrev pub falcon_lr_sign : ℕ
falcon_lr_sign = 0x53

-- A request that `apdu_dispatcher` passes to a lowram handler, with what the TRNG would give.
pub record Request : Type 0 where
  pub ins : ℕ
  pub p1 : ℕ
  pub p2 : ℕ
  pub cdata : Buffer
  pub rng : Bytes

-- The four lowram cases of the dispatcher.
unfoldable pub dispatch_lr : Core → Request → Device → Device × Response
dispatch_lr c r d =
    if r.ins == falcon_lr_keygen
    then handler_falcon_lr_keygen c r.cdata r.p1 r.p2 d
    else if r.ins == falcon_lr_get_pk
    then handler_falcon_lr_get_pk c r.cdata r.p1 r.p2 d
    else if r.ins == falcon_lr_sign
    then handler_falcon_lr_sign c r.cdata r.rng r.p1 r.p2 d
    else handler_falcon_lr_get_sig r.cdata r.p1 r.p2 d

-- A session: the responses in order, and the device at the end.
unfoldable pub run : Core → List Request → Device → Device × List Response
run c [] d = (d, [])
run c (r ∷ rs) d =
    let (d', a) = dispatch_lr c r d in let (d'', answers) = run c rs d' in (d'', a ∷ answers)

-- A power cycle: the RAM is zeroed and the NVM is kept.
unfoldable pub reboot : Device → Device
reboot d = record { ram = fresh_ram; nvm = d.nvm }
