-- ===== src/Tests.antt =====
-- Concrete runs of the modelled code, and the theorems at concrete inputs.
mod EngineParser
mod EngineServer
mod EngineWarp
mod SocketParser
mod Serializer
mod Macros
mod Listening
mod Subscription
mod SocketServer
mod Namespaces
