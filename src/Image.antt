-- ===== src/Image.antt =====
-- internal/image: the pipeline of the images of a request.
pub mod DataUrl
pub mod Handler
pub mod Process
pub mod Shared
pub mod Stored
pub mod Safety
pub mod Loop
pub mod Laws
