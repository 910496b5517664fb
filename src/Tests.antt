-- ===== src/Tests.antt =====
-- The theorems at concrete inputs, and the instances of the interfaces that they need.
mod Encoding
mod Web
mod Routes
mod Store
mod Files
mod Uploads
mod Catalogues
mod Serving
mod Connections
mod Accepting
mod Logs
mod Merging
