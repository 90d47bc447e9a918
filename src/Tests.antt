-- ===== src/Tests.antt =====
-- Runs of the models on small inputs, and every theorem with a hypothesis at one where it holds.
mod WireRuns
mod FramingRuns
mod UdmfRuns
mod RegionRuns
mod MapRuns
mod PlayerRuns
mod LobbyRuns
mod ServerRuns
mod LoopRuns
mod PalettedRuns
mod MovementRuns
mod WeaponRuns
