-- ===== src/Handler/ErrorPages/Tests.antt =====
-- pkg/handler/errorpages.go: concrete inputs for the theorems about error pages.
use fasthttpd.Handler.ErrorPages
use fasthttpd.Handler.ErrorPages.{ErrorPages, send_default_error}
