-- ===== src/Sdk.antt =====
-- The TypeScript SDK, sdk/src: the Borsh codec, the account decoders and the instruction builders.
pub mod Borsh
pub mod Keys
pub mod Pda
pub mod Accounts
pub mod Instructions
pub mod Chain
pub mod Fetch
pub mod Token
pub mod Client
