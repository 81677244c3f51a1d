-- ===== src/Wallet/Dispatcher.antt =====
-- `apdu_dispatcher` (src/apdu/dispatcher.c) and the start of `app_main` (src/app_main.c).
use Prim.Native.Nat.{bit_and}
use zknox_hw_falcon.Common.{
  ℕ, Bytes, List, [], ◌∷◌, Option, some, none, Bool, true, false, not, ◌&&◌, ◌||◌, ◌==◌, ltb,
  if◌then◌else◌,
}
use zknox_hw_falcon.Common.Apdu.{
  Buffer, send_sw, swo_incorrect_p1_p2, swo_wrong_data_length, swo_invalid_cla, swo_invalid_ins,
}
use zknox_hw_falcon.LowRam.State.{Core, Device}
use zknox_hw_falcon.LowRam.Requests.{dispatch_lr}
use zknox_hw_falcon.Wallet.State.{
  App, Outcome, answers, reviews, exits, fails_swap, zero_context, zero_dynamic_token,
}
use zknox_hw_falcon.Wallet.Sdk.{Sdk}
use zknox_hw_falcon.Wallet.Token.{handler_provide_token_info}
use zknox_hw_falcon.Wallet.SignTx.{
  Build, handler_sign_tx, handler_get_public_key, handler_get_version, handler_get_app_name,
}

-- `CLA`, and the instructions of `command_e`
abbrev pub cla : ℕ
cla = 0xE0

abbrev pub get_version : ℕ
get_version = 0x03

abbrev pub get_app_name : ℕ
get_app_name = 0x04

abbrev pub get_public_key : ℕ
get_public_key = 0x05

abbrev pub sign_tx : ℕ
sign_tx = 0x06

abbrev pub sign_token_tx : ℕ
sign_token_tx = 0x07

abbrev pub provide_token_info : ℕ
provide_token_info = 0x22

-- `P1_START`, `P1_MAX`, `P2_LAST`, `P2_MORE`
abbrev pub p1_start : ℕ
p1_start = 0

abbrev pub p1_max : ℕ
p1_max = 3

abbrev pub p2_last : ℕ
p2_last = 0

abbrev pub p2_more : ℕ
p2_more = 0x80

-- `command_t`; `data_in` is none for the NULL that an APDU without data has, and `rng` is what
-- the TRNG would give while the command is handled.
pub record Command : Type 0 where
  pub cla : ℕ
  pub ins : ℕ
  pub p1 : ℕ
  pub p2 : ℕ
  pub lc : ℕ
  pub data_in : Option Bytes
  pub rng : Bytes

-- The whole device: the wallet part's globals, and the Falcon part's.
pub record Machine : Type 0 where
  pub app : App
  pub device : Device

-- The bytes behind `cmd->data`.
abbrev pub bytes_of : Option Bytes → Bytes
bytes_of none = []
bytes_of (some b) = b

abbrev pub is_null : Option Bytes → Bool
is_null none = true
is_null (some b) = false

-- `buf` of a command
abbrev pub buffer_of : Command → Buffer
buffer_of cmd = record { ptr = bytes_of cmd.data_in; size = cmd.lc; offset = 0 }

-- The four Falcon instructions.
abbrev pub is_falcon_lr : ℕ → Bool
is_falcon_lr ins = ins == 0x50 || ins == 0x51 || ins == 0x53 || ins == 0x54

-- The P1 and P2 of SIGN_TX and SIGN_TOKEN_TX that are refused.
unfoldable pub bad_sign_parameters : ℕ → ℕ → Bool
bad_sign_parameters p1 p2 =
    (p1 == p1_start && not (p2 == p2_more))
    || ltb p1_max p1
    || (not (p2 == p2_last) && not (p2 == p2_more))

-- The two signing instructions.
unfoldable pub dispatch_sign : Sdk → Command → Bool → App → App × Outcome
dispatch_sign s cmd is_token a =
    if bad_sign_parameters cmd.p1 cmd.p2
    then (a, answers (send_sw swo_incorrect_p1_p2))
    else if is_null cmd.data_in
    then (a, answers (send_sw swo_wrong_data_length))
    else handler_sign_tx s (buffer_of cmd) cmd.p1 (not (bit_and cmd.p2 p2_more == 0)) is_token a

-- The instructions of the wallet part.
unfoldable pub dispatch_wallet : Sdk → Build → Command → App → App × Outcome
dispatch_wallet s b cmd a =
    if cmd.ins == get_version
    then (if not (cmd.p1 == 0) || not (cmd.p2 == 0)
        then (a, answers (send_sw swo_incorrect_p1_p2))
        else (a, answers (handler_get_version b)))
    else if cmd.ins == get_app_name
    then (if not (cmd.p1 == 0) || not (cmd.p2 == 0)
        then (a, answers (send_sw swo_incorrect_p1_p2))
        else (a, answers (handler_get_app_name b)))
    else if cmd.ins == get_public_key
    then (if ltb 1 cmd.p1 || ltb 0 cmd.p2
        then (a, answers (send_sw swo_incorrect_p1_p2))
        else if is_null cmd.data_in
        then (a, answers (send_sw swo_wrong_data_length))
        else handler_get_public_key s (buffer_of cmd) (not (cmd.p1 == 0)) a)
    else if cmd.ins == sign_tx
    then dispatch_sign s cmd false a
    else if cmd.ins == sign_token_tx
    then dispatch_sign s cmd true a
    else if cmd.ins == provide_token_info
    then (let (d, r) = handler_provide_token_info s (buffer_of cmd) a.dynamic_token in
        (record a { dynamic_token = d }, answers r))
    else (a, answers (send_sw swo_invalid_ins))

-- `apdu_dispatcher(cmd)`, with FALCON_CORE=lowram.
unfoldable pub apdu_dispatcher : Sdk → Core → Build → Command → Machine → Machine × Outcome
apdu_dispatcher s c b cmd m =
    let (d, r) =
      dispatch_lr c
        (record { ins = cmd.ins; p1 = cmd.p1; p2 = cmd.p2; cdata = buffer_of cmd; rng = cmd.rng })
        m.device in
    let (a, o) = dispatch_wallet s b cmd m.app in
    if not (cmd.cla == cla)
    then (m, answers (send_sw swo_invalid_cla))
    else if is_falcon_lr cmd.ins
    then (record m { device = d }, answers r)
    else (record m { app = a }, o)

-- `internal_storage_t`
pub record InternalStorage : Type 0 where
  pub dummy1_allowed : ℕ
  pub dummy2_allowed : ℕ
  pub initialized : ℕ

-- `app_main` up to its loop: the wallet part's globals and the settings in NVM.
unfoldable pub app_start : InternalStorage → App → InternalStorage × App
app_start n a = (
  if not (n.initialized == 1)
      then record { dummy1_allowed = 0; dummy2_allowed = 0; initialized = 1 }
      else n,
  record a { context = zero_context; dynamic_token = zero_dynamic_token },
)

-- What `io_recv_command` and `apdu_parser` give: a failure, bytes that are no command, or a
-- command.
pub data Received : Type 0 where
  failure : Received
  bad_length : Received
  received : Command → Received

-- Whether the app is still running.
abbrev pub goes_on : Outcome → Bool
goes_on (answers r) = true
goes_on (reviews s) = true
goes_on (exits r) = false
goes_on (fails_swap ec code) = false

-- The `for (;;)` loop of `app_main` on what is received, until the app ends: what was answered.
unfoldable pub app_loop : Sdk → Core → Build → List Received → Machine → Machine × List Outcome
app_loop s c b [] m = (m, [])
app_loop s c b (failure ∷ rs) m = (m, [])
app_loop s c b (bad_length ∷ rs) m =
    let (m', os) = app_loop s c b rs m in (m', answers (send_sw swo_wrong_data_length) ∷ os)
app_loop s c b (received cmd ∷ rs) m =
    let (m1, o) = apdu_dispatcher s c b cmd m in
    let (m2, os) = app_loop s c b rs m1 in if goes_on o then (m2, o ∷ os) else (m1, o ∷ [])
