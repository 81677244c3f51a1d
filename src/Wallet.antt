-- ===== src/Wallet.antt =====
-- The wallet part of the app: transactions, tokens, reviews, swap and the APDU dispatcher.
pub mod State
pub mod Sdk
pub mod Parse
pub mod Serialize
pub mod ParseLaws
pub mod RoundTrip
pub mod Token
pub mod TokenLookup
pub mod Review
pub mod Swap
pub mod SignTx
pub mod Dispatcher
pub mod SwapCheck
pub mod SwapCopy
pub mod Reviewed
pub mod RawTx
pub mod Refusals
mod Toy
mod Tests
