-- ===== src/Tests.antt =====
-- Runs of the models at concrete inputs.
mod Ingress
mod Cleanup
mod Protocol
mod Numbers
mod Reducer
mod Dispatch
mod LruCache
mod Autocmds
mod Theme
mod Registry
mod Preview
mod Text
