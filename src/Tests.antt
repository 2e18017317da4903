-- ===== src/Tests.antt =====
-- Runs of the models on small inputs, and the theorems at concrete inputs.
mod CoresTests
mod ExperimentsTests
mod Data
mod FlowTests
mod ScheTests
mod PtpTests
mod EngineTests
mod PortsTests
mod LaunchTests
mod StatisticTests
mod TxLoopTests
mod PacketTests
mod OptionsTests
mod ListenerTests
mod TalkerTests
