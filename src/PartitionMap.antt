-- ===== src/PartitionMap.antt =====
-- partition_map.c and partition_map.h: the map in memory and every operation on it.
pub mod State
pub mod Orders
pub mod Add
pub mod Delete
pub mod Move
pub mod Size
pub mod Session
