-- ===== src/Examples.antt =====
-- Concrete inputs: a small curve on which every interface law holds, and each theorem with
-- hypotheses applied to an input that meets them.
pub mod SmallField
pub mod SmallCurve
pub mod Shares
pub mod Resharing
pub mod Ceremony
pub mod Records
pub mod Nesting
pub mod Signing
pub mod InnerRound
pub mod Delivery
