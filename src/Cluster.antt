-- ===== src/Cluster.antt =====
-- The objects of one Kubernetes namespace as the controllers read and write them, and the calls of the
-- API server, as state passing. The server is not the program's: what it answers to a call is an
-- element of a list, so that a theorem holds of every sequence of answers. The resource version that
-- a conflict is about is not kept; a conflict is one of the answers.
pub mod Calls
pub mod Objects
pub mod Writes
pub mod Frames
pub mod Effects
