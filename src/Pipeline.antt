-- ===== src/Pipeline.antt =====
-- The path of a client's bytes through IocpServer_1/IOCompletionPort.h, EchoServer.h and
-- ClientDataSet.h: from the completion of a read, through the receive queue and its worker, to the
-- lines that the server writes.
pub mod Reports
pub mod Receiving
pub mod Accounts
pub mod Draining
pub mod Reporting
pub mod Steady
pub mod Offering
pub mod Effects
pub mod AtRest
pub mod Accepting
pub mod Serving
pub mod Stranded
pub mod Calls
pub mod Echo
pub mod Reads
mod Tests
