-- ===== src/Server/Status.antt =====
-- The gRPC codes that the handlers of internal/server return, and what all handlers begin with.
use creel.Base.{String, Option}
use creel.Exec.{Exec, require, or_fail}
use creel.Store.Rows.{Principal, Action}
use creel.Store.World.{World}
use creel.Store.Grants.{grant_store}
use creel.Auth.Authorizer.{check}

pub data Code : Type 0 where
  unauthenticated invalid_argument permission_denied not_found internal failed_precondition : Code

-- What a handler does with the database.
abbrev pub Handler : Type 0 → Type 0
Handler A = Exec World Code A

-- `if p == nil { return Unauthenticated }`.
abbrev pub authenticate : Option Principal → Handler Principal
authenticate p = require p Code.unauthenticated

-- `s.authorizer.Check`, for the authorizer that the server is wired with.
abbrev pub authorize : Principal → String → Action → Handler (Unit {0})
authorize p topic_id action = or_fail (check grant_store p topic_id action) Code.permission_denied

-- `if err := …; err != nil { return Internal }`.
abbrev pub or_internal : {A : Type 0} → Exec World String A → Handler A
or_internal m = or_fail m Code.internal

abbrev pub or_not_found : {A : Type 0} → Exec World String A → Handler A
or_not_found m = or_fail m Code.not_found
