-- ===== src/Tests.antt =====
-- Runs of the models at concrete inputs.
mod Fixtures
mod Codecs
mod Chain
mod Accounting
mod Voting
mod Rounds
mod Picking
mod Blocks
mod Peers
mod Signing
mod Restarting
mod Starting
mod Rejoining
