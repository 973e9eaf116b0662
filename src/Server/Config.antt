-- ===== src/Server/Config.antt =====
-- internal/server/config.go: the ConfigService, whose every method wants a system account. A message
-- field is an argument; a text that becomes bytes is its bytes.
pub mod ApiKeys
pub mod Llms
pub mod Embeddings
pub mod Prompts
pub mod Backends
pub mod SystemOnly
use creel.Base.{Bool, true, false, String, Option, none, some, not, ◌==◌}
use creel.Exec.{Exec, Result, ok, err, guard, ◌>>=◌, ◌>>◌, require}
use creel.Store.Rows.{Principal}
use creel.Server.Status.{Handler, Code, unauthenticated, permission_denied, invalid_argument}

-- requireSystem.
unfoldable pub require_system : Option Principal → Handler (Unit {0})
require_system p = do q ← require p unauthenticated; guard q.is_system permission_denied

-- `if req.GetX() == "" { return InvalidArgument }`.
abbrev pub wants : String → Handler (Unit {0})
wants s = guard (not (s == "")) invalid_argument
