-- ===== src/Tests.antt =====
-- Tests and witnesses.
mod Equality
mod TypeTests
mod ColumnTests
mod Percent
mod Throttled
mod TableTests
mod PartitionTests
mod RepairTests
mod QueryTests
mod LocateTests
mod TransactionTests
mod ViewTests
mod CreationTests
