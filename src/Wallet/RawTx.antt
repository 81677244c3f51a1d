-- ===== src/Wallet/RawTx.antt =====
-- The 510-byte buffer that a transaction is accumulated in never overflows
-- (`accumulate_transaction_data`, src/handler/sign_tx.c).
use Prim.Native.Nat.{bit_and}
use zknox_hw_falcon.Common.{
  not, ℕ, ◌+◌, ◌≤◌, ◌≡◌, inl, inr, refl, ap, ◌∙◌, ◌++◌, Bool, true, false, ◌==◌, ltb, if◌then◌else◌,
  arith, length, take, drop, length-append, length-take, length-drop, Bool-cases, Option-cases,
}
use zknox_hw_falcon.Common.Apdu.{Buffer}
use zknox_hw_falcon.LowRam.State.{Core}
use zknox_hw_falcon.Wallet.State.{
  App, RequestType, zero_context, confirm_address, confirm_transaction, confirm_token_transaction,
}
use zknox_hw_falcon.Wallet.Sdk.{Sdk}
use zknox_hw_falcon.Wallet.Review.{
  same_request, validate_transaction, crypto_sign_message, ui_display_transaction_bs_token_choice,
  ui_display_blind_signed_transaction, ui_display_transaction, ui_display_token_transaction,
  ui_display_address,
}
use zknox_hw_falcon.Wallet.Swap.{swap_check_validity}
use zknox_hw_falcon.Wallet.Serialize.{bytes_at}
use zknox_hw_falcon.Wallet.SignTx.{
  read_path, init_transaction_context, accumulate_transaction_data, process_transaction,
  hash_transaction, check_and_sign_swap_tx, ask_user, finish_transaction, handler_sign_tx,
  handler_get_public_key, Build,
}
use zknox_hw_falcon.Wallet.Dispatcher.{
  buffer_of, Command, Machine, apdu_dispatcher, dispatch_wallet, dispatch_sign,
}

-- The buffer has its 510 bytes, and the length counts a part of them.
pub record IsBounded (a : App) : Type 0 where
  pub raw_size : length a.context.tx_info.raw_tx ≡ 510
  pub len_fits : a.context.tx_info.raw_tx_len ≤ 510

-- The two apps hold the same accumulated bytes.
abbrev SameRaw : App → App → Type 0
SameRaw a a' =
    (a'.context.tx_info.raw_tx ≡ a.context.tx_info.raw_tx)
    × (a'.context.tx_info.raw_tx_len ≡ a.context.tx_info.raw_tx_len)

SameRaw-IsBounded : (a a' : App) → SameRaw a a' → IsBounded a → IsBounded a'
SameRaw-IsBounded a a' same h = record {
  raw_size = ap length same.0 ∙ h.raw_size;
  len_fits = let old = h.len_fits in omega (arith, same.1);
}

module _ (s : Sdk) where
  validate_transaction-raw : (a : App) (b : Bool) → SameRaw a (validate_transaction s a b).0
  unfolding validate_transaction crypto_sign_message
  validate_transaction-raw a b = ground arith

  display-raw :
      (a : App) (blind is_token : Bool)
      → SameRaw a (ui_display_transaction_bs_token_choice s a blind is_token).0
  unfolding ui_display_transaction_bs_token_choice
  display-raw a blind is_token = ground arith

  process_transaction-raw :
      (is_token : Bool) (a : App) → SameRaw a (process_transaction s is_token a).0
  unfolding process_transaction hash_transaction
  process_transaction-raw is_token a = ground arith

  swap-raw : (a : App) → SameRaw a (check_and_sign_swap_tx s a).0
  unfolding check_and_sign_swap_tx
  swap-raw a =
      let t = a.context.tx_info in
      let a1 = record a { swap_response_ready = true } in
      let verdict =
        swap_check_validity s a1 t.transaction.value t.transaction.fee
          (bytes_at t.raw_tx t.transaction.to 20) t.token_info in
      elim (Bool-cases a.swap_response_ready) [
        | inl before ↦ simp before (refl, refl)
        | inr first ↦ elim (Option-cases verdict) [
          | inl fine ↦ simp (first, fine) (validate_transaction-raw a1 true)
          | inr (e, bad) ↦ simp (first, bad) (refl, refl)
        ]
      ]

  ask_user-raw : (is_token : Bool) (a : App) → SameRaw a (ask_user s is_token a).0
  unfolding ask_user ui_display_blind_signed_transaction ui_display_transaction
      ui_display_token_transaction
  ask_user-raw is_token a = ground (
    arith,
    swap-raw a,
    display-raw a true false,
    display-raw a false true,
    display-raw a false false,
  )

  finish_transaction-raw :
      (is_token : Bool) (a : App) → SameRaw a (finish_transaction s is_token a).0
  unfolding finish_transaction
  finish_transaction-raw is_token a = ground (
    arith,
    process_transaction-raw is_token a,
    ask_user-raw is_token (process_transaction s is_token a).0,
  )

  -- What `buffer_move` documents: on success it copies the whole of a buffer that was not read.
  abbrev pub IsMoving : Type 0
  IsMoving =
      (b : Buffer) (n : ℕ)
      → b.offset ≡ 0
      → (s.buffer_move b n).0 ≡ true
      → length (s.buffer_move b n).1 ≡ b.size

  accumulated-IsBounded :
      (cdata : Buffer) (req_type : RequestType) (a : App)
      → IsMoving
      → cdata.offset ≡ 0
      → IsBounded a
      → IsBounded (accumulate_transaction_data s cdata req_type a).0
  unfolding accumulate_transaction_data
  accumulated-IsBounded cdata req_type a moving fresh h =
      let t = a.context.tx_info in
      let chunk = (s.buffer_move cdata cdata.size).1 in
      let rest = drop (t.raw_tx_len + cdata.size) t.raw_tx in
      elim (Bool-cases (same_request a.context.req_type req_type)) [
        | inr other ↦ simp other h
        | inl same ↦ elim (Bool-cases (ltb 510 (t.raw_tx_len + cdata.size))) [
          | inl long ↦ simp (same, long) h
          | inr short ↦ elim (Bool-cases (s.buffer_move cdata cdata.size).0) [
            | inr unread ↦ simp (same, short, unread) h
            | inl moved ↦
                let fits : t.raw_tx_len + cdata.size ≤ 510 = ground arith in
                simp (same, short, moved)
                  (record {
                    raw_size = omega (
                      arith,
                      h.raw_size,
                      h.len_fits,
                      moving cdata cdata.size fresh moved,
                      length-append (take t.raw_tx_len t.raw_tx) (chunk ++ rest),
                      length-append chunk rest,
                      length-take t.raw_tx_len t.raw_tx,
                      length-drop (t.raw_tx_len + cdata.size) t.raw_tx,
                    );
                    len_fits = fits;
                  })
          ]
        ]
      ]

  read_path-IsBounded :
      (cdata : Buffer) (req_type : RequestType) (a : App)
      → IsBounded (read_path s cdata req_type a).1
  unfolding read_path zero_context
  read_path-IsBounded cdata req_type a = elim (Bool-cases (s.buffer_read_u8 cdata).0) [
    | inl fine ↦ simp fine (record { raw_size = refl; len_fits = omega arith })
    | inr bad ↦ simp bad (record { raw_size = refl; len_fits = omega arith })
  ]

  handler_sign_tx-IsBounded :
      (cdata : Buffer) (chunk : ℕ) (more is_token : Bool) (a : App)
      → IsMoving
      → cdata.offset ≡ 0
      → IsBounded a
      → IsBounded (handler_sign_tx s cdata chunk more is_token a).0
  unfolding handler_sign_tx init_transaction_context
  handler_sign_tx-IsBounded cdata chunk more is_token a moving fresh h =
      let req_type = if is_token then confirm_token_transaction else confirm_transaction in
      let acc = accumulate_transaction_data s cdata req_type a in
      let held = accumulated-IsBounded cdata req_type a moving fresh h in
      let ended =
        SameRaw-IsBounded acc.0 (finish_transaction s is_token acc.0).0
          (finish_transaction-raw is_token acc.0) held in
      let begun = read_path-IsBounded cdata req_type a in ground (arith, held, ended, begun)

  handler_get_public_key-IsBounded :
      (cdata : Buffer) (display : Bool) (a : App)
      → IsBounded (handler_get_public_key s cdata display a).0
  unfolding handler_get_public_key ui_display_address
  handler_get_public_key-IsBounded cdata display a =
      let begun = read_path-IsBounded cdata confirm_address a in
      SameRaw-IsBounded (read_path s cdata confirm_address a).1
        (handler_get_public_key s cdata display a).0 (ground arith) begun

  -- Where `buffer_move` copies whole buffers, as documented, every command keeps the buffer of the
  -- transaction at its 510 bytes and the accumulated length within it.
  pub apdu_dispatcher-IsBounded :
      (c : Core) (b : Build) (cmd : Command) (m : Machine)
      → IsMoving
      → IsBounded m.app
      → IsBounded (apdu_dispatcher s c b cmd m).0.app
  unfolding apdu_dispatcher dispatch_wallet dispatch_sign
  apdu_dispatcher-IsBounded c b cmd m moving h =
      let data_buffer = buffer_of cmd in
      let more = not (bit_and cmd.p2 0x80 == 0) in
      let plain = handler_sign_tx-IsBounded data_buffer cmd.p1 more false m.app moving refl h in
      let token = handler_sign_tx-IsBounded data_buffer cmd.p1 more true m.app moving refl h in
      let key = handler_get_public_key-IsBounded data_buffer (not (cmd.p1 == 0)) m.app in
      ground (arith, h, plain, token, key)
