-- ===== src/Aws.antt =====
-- The connections of async-web-server/src/aws.c.
pub mod Buffer
pub mod State
pub mod Code
pub mod Files
pub mod Handlers
pub mod Send
pub mod Receive
pub mod NotFound
pub mod Reply
mod Tests
