-- ===== src/Examples.antt =====
-- Concrete runs of the modelled code, and the library functions that they use.
mod Instances
mod Actions
mod Caches
mod Videos
mod Samples
mod Fixed
mod Attention
mod Messages
mod Robot
mod Requests
mod Training
