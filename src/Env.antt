-- ===== src/Env.antt =====
-- The code outside of the repository that the controller calls, as one interface: the client of
-- the API server, controller-runtime, the YAML decoder, the script directory and the clock.
-- `World` is whatever they keep; each call may change it.
mod Base
pub use Base.*
unfoldable pub use Base.{request, call, read, gets, set_instances, set_channels}
mod Requests
pub use Requests.*
