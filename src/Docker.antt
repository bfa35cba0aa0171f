-- ===== src/Docker.antt =====
-- internal/docker.go: the Docker API as the program uses it, and the errors of the program.
mod Api
mod Monad
unfoldable pub use Api.*
unfoldable pub use Monad.*
