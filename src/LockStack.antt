-- ===== src/LockStack.antt =====
-- 01_Server/Src/01_ServerBase/Include/DataStruct/LockStack: both stacks. Every method holds the mutex
-- from its first line to its last, so a call is one step, and threads interleave call by call.
pub mod Fixed
pub mod Dynamic
