-- ===== src/Auth.antt =====
-- Authorisation: packages/shared-contracts/src/auth/policy.ts, enums/role.ts, and the route gates of packages/auth-jwt/src/fastify.ts.
pub mod Laws
pub mod Jwt
pub mod SecurityEvents
pub mod Sessions
pub mod Hooks
mod Tests
use airport_inspection_platf.Prelude.{
  Bool, List, Option, String, [], false, if◌then◌else◌, none, some, true, ◌∷◌,
}

pub data Role : Type 0 where
  operator reviewer admin : Role

pub data Permission : Type 0 where
  incident_read incident_create incident_acknowledge incident_assign : Permission
  incident_start_progress incident_resolve incident_escalate incident_archive : Permission
  incident_reject audit_read audit_verify validation_run validation_override : Permission
  notification_read notification_replay_dlq reference_read user_read user_create : Permission
  user_update_role platform_admin : Permission

unfoldable pub permission_policy : Permission → List Role
permission_policy incident_read = operator ∷ reviewer ∷ []
permission_policy audit_read = operator ∷ reviewer ∷ []
permission_policy audit_verify = reviewer ∷ []
permission_policy validation_run = operator ∷ reviewer ∷ []
permission_policy notification_read = operator ∷ reviewer ∷ []
permission_policy reference_read = operator ∷ reviewer ∷ []
permission_policy user_read = operator ∷ reviewer ∷ []
permission_policy incident_create = operator ∷ reviewer ∷ []
permission_policy incident_acknowledge = operator ∷ reviewer ∷ []
permission_policy incident_assign = operator ∷ reviewer ∷ []
permission_policy incident_start_progress = operator ∷ reviewer ∷ []
permission_policy incident_resolve = operator ∷ reviewer ∷ []
permission_policy incident_escalate = operator ∷ reviewer ∷ []
permission_policy incident_archive = reviewer ∷ []
permission_policy incident_reject = reviewer ∷ []
permission_policy validation_override = reviewer ∷ []
permission_policy notification_replay_dlq = reviewer ∷ []
permission_policy user_create = []
permission_policy user_update_role = []
permission_policy platform_admin = []

-- `===` on roles
abbrev pub role_eq : Role → Role → Bool
role_eq operator operator = true
role_eq reviewer reviewer = true
role_eq admin admin = true
role_eq _ _ = false

-- `roles.includes(role)`
abbrev pub includes : Role → List Role → Bool
includes r [] = false
includes r (x ∷ xs) = if role_eq x r then true else includes r xs

unfoldable pub is_allowed : Role → Permission → Bool
unfolding permission_policy
is_allowed role permission =
    if role_eq role admin then true else includes role (permission_policy permission)

unfoldable pub roles_for : Permission → List Role
unfolding permission_policy
roles_for permission = admin ∷ permission_policy permission

-- `req.auth`, which `verifyJwtHook` sets from a verified access token
pub record Auth : Type 0 where
  pub user_id : String
  pub role : Role

pub data Gate : Type 0 where
  unauthorized forbidden pass : Gate

unfoldable pub require_role : List Role → Option Auth → Gate
require_role allowed none = unauthorized
require_role allowed (some auth) = if includes auth.role allowed then pass else forbidden

unfoldable pub require_auth : Option Auth → Gate
require_auth none = unauthorized
require_auth (some auth) = pass
