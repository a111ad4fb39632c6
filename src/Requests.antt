-- ===== src/Requests.antt =====
-- What a request passes before its handler: backend/internal/pkg/listq, csrftoken and upload, and
-- the gates of backend/internal/middleware.
pub mod Paging
pub mod Csrf
pub mod Upload
pub mod Gates
