-- ===== src/Wallet/Refusals.antt =====
-- Which commands `apdu_dispatcher` refuses before any handler (src/apdu/dispatcher.c).
use zknox_hw_falcon.Common.{
  ℕ, ◌≡◌, refl, Option, some, none, Bool, true, false, not, ◌&&◌, ◌||◌, ◌==◌, leb, if◌then◌else◌,
  arith, Bool-cases, inl, inr,
}
use zknox_hw_falcon.Common.Apdu.{
  send_sw, swo_invalid_cla, swo_invalid_ins, swo_incorrect_p1_p2, swo_wrong_data_length,
}
use zknox_hw_falcon.LowRam.State.{Core}
use zknox_hw_falcon.Wallet.State.{App, answers}
use zknox_hw_falcon.Wallet.Sdk.{Sdk}
use zknox_hw_falcon.Wallet.SignTx.{Build}
use zknox_hw_falcon.Wallet.Dispatcher.{
  Command, Machine, apdu_dispatcher, dispatch_wallet, dispatch_sign, bad_sign_parameters,
  is_falcon_lr, is_null,
}

-- The command table: the instructions of the wallet part, the parameters of each, and whether it
-- needs data.
abbrev is_known : ℕ → Bool
is_known ins =
    ins == 0x03 || ins == 0x04 || ins == 0x05 || ins == 0x06 || ins == 0x07 || ins == 0x22

abbrev has_parameters : ℕ → ℕ → ℕ → Bool
has_parameters ins p1 p2 =
    if ins == 0x22
    then true
    else if ins == 0x05
    then leb p1 1 && p2 == 0
    else if ins == 0x06 || ins == 0x07
    then (p1 == 0 && p2 == 0x80) || (leb 1 p1 && leb p1 3 && (p2 == 0 || p2 == 0x80))
    else p1 == 0 && p2 == 0

abbrev needs_data : ℕ → Bool
needs_data ins = ins == 0x05 || ins == 0x06 || ins == 0x07

-- The status word of a command that the table refuses, or none.
unfoldable pub refusal : Command → Option ℕ
refusal cmd =
    if not (cmd.cla == 0xE0)
    then some swo_invalid_cla
    else if is_falcon_lr cmd.ins
    then none
    else if not (is_known cmd.ins)
    then some swo_invalid_ins
    else if not (has_parameters cmd.ins cmd.p1 cmd.p2)
    then some swo_incorrect_p1_p2
    else if needs_data cmd.ins && is_null cmd.data_in
    then some swo_wrong_data_length
    else none

sign_parameters_lem :
    (p1 p2 : ℕ)
    → bad_sign_parameters p1 p2
      ≡ not ((p1 == 0 && p2 == 0x80) || (leb 1 p1 && leb p1 3 && (p2 == 0 || p2 == 0x80)))
unfolding bad_sign_parameters
sign_parameters_lem p1 p2 = ground arith

dispatch_wallet-refuses :
    (s : Sdk) (b : Build) (cmd : Command) (a : App) (sw : ℕ)
    → (cmd.cla == 0xE0) ≡ true
    → is_falcon_lr cmd.ins ≡ false
    → refusal cmd ≡ some sw
    → dispatch_wallet s b cmd a ≡ (a, answers (send_sw sw))
unfolding dispatch_wallet dispatch_sign refusal
dispatch_wallet-refuses s b cmd a sw class other h =
    ground (arith, sign_parameters_lem cmd.p1 cmd.p2)

-- A command that the table refuses changes nothing, and is answered with the table's status word
-- alone.
pub apdu_dispatcher-refuses :
    (s : Sdk) (c : Core) (b : Build) (cmd : Command) (m : Machine) (sw : ℕ)
    → refusal cmd ≡ some sw
    → apdu_dispatcher s c b cmd m ≡ (m, answers (send_sw sw))
unfolding apdu_dispatcher
apdu_dispatcher-refuses s c b cmd m sw h = elim (Bool-cases (cmd.cla == 0xE0)) [
  | inr class ↦
      let e : swo_invalid_cla ≡ sw = unfold refusal in ground arith in simp (class, ← e) refl
  | inl class ↦ elim (Bool-cases (is_falcon_lr cmd.ins)) [
    | inl falcon ↦ absurd (unfold refusal in let e = simp (class, falcon) at h in cc)
    | inr wallet ↦
        simp (class, wallet, dispatch_wallet-refuses s b cmd m.app sw class wallet h) refl
  ]
]
