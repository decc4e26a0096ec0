-- ===== src/Worker.antt =====
-- pkg/controller/worker: what the worker controller works on, and what Gardener's libraries and the API server do for it.
pub mod Objects
pub mod Agreement
pub mod Labels
pub mod Disks
pub mod Images
pub mod Names
pub mod Classes
pub mod Deployments
pub mod Delegate
